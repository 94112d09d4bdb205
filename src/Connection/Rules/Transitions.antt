-- ===== src/Connection/Rules/Transitions.antt =====
-- connection.rules.ts: the life of a Connection.
use svforb.Common.{◌≡◌, ◌↔◌, refl, true, false, not, arith}
use svforb.Prisma.{ConnectionStatus}
use svforb.Connection.Rules.{can_transition, has_status, terminal_statuses, live_statuses}

-- Moves that `canTransition` allows, one after the other.
pub data Moves (s : ConnectionStatus) : ConnectionStatus → Type 0 where
  here : Moves s s
  next : {t u : ConnectionStatus} → Moves s t → can_transition t u ≡ true → Moves s u

terminal_blocks :
    (s t : ConnectionStatus) → has_status terminal_statuses s ≡ true → can_transition s t ≡ false
unfolding can_transition
terminal_blocks s t h = ground arith

live_moves :
    (s : ConnectionStatus) → can_transition s ConnectionStatus.ended ≡ has_status live_statuses s
unfolding can_transition
live_moves ConnectionStatus.pending = refl
live_moves _ = refl

live_or_terminal :
    (s : ConnectionStatus) → has_status live_statuses s ≡ not (has_status terminal_statuses s)
live_or_terminal ConnectionStatus.pending = refl
live_or_terminal _ = refl

-- The statuses in TERMINAL_STATUSES are exactly those that no transition leaves, and every other
-- status is in LIVE_STATUSES and may end.
pub terminal_iff :
    (s : ConnectionStatus)
    → ((has_status terminal_statuses s ≡ true)
        ↔ ((t : ConnectionStatus) → can_transition s t ≡ false))
      × (has_status live_statuses s ≡ not (has_status terminal_statuses s))
      × (can_transition s ConnectionStatus.ended ≡ has_status live_statuses s)
terminal_iff s = (
  (
    λ h t. terminal_blocks s t h,
    λ blocked. ground (arith, blocked ConnectionStatus.ended, live_moves s, live_or_terminal s),
  ),
  live_or_terminal s,
  live_moves s,
)

-- A Connection that has reached a terminal status stays in it, whatever moves are tried, and no
-- move ever leads back to `PENDING`.
pub terminal_stays :
    (s t : ConnectionStatus)
    → Moves s t
    → (has_status terminal_statuses s ≡ true → t ≡ s)
      × (t ≡ ConnectionStatus.pending → s ≡ ConnectionStatus.pending)
unfolding can_transition
terminal_stays s _ here = (λ _. refl, λ e. e)
terminal_stays s _ (next {t} {u} m allowed) =
    let (stays, starts) = terminal_stays s t m in (λ h. ground (arith, stays h), λ e. ground arith)
