-- ===== src/Connection/Rules/Reliability.antt =====
-- connection.rules.ts: the reliability figures of a charity.
use svforb.Common.{ℕ, ◌+◌, ◌*◌, ◌≤◌, ◌<◌, ◌≡◌, ◌↔◌, refl, none, some, arith}
use svforb.Connection.Rules.{ReliabilityCounts, reliability_from, round_div}

round_div-le : (c t : ℕ) → 0 < t → c ≤ t → round_div (c * 1000) t ≤ 1000
round_div-le c t p h = grind arith

-- The percentage (in tenths) is absent exactly when nothing was offered, and lies between 0 and
-- 100.0 otherwise; the offered days are the sum of their three outcomes.
pub reliability_bounds :
    (c : ReliabilityCounts)
    → let r = reliability_from c in
      (r.offered ≡ r.collected + r.declined + r.missed)
      × ((r.percent ≡ none) ↔ (r.offered ≡ 0))
      × ((p : ℕ) → r.percent ≡ some p → p ≤ 1000)
unfolding reliability_from
reliability_bounds c = (
  refl,
  ground arith,
  λ p e. ground (arith, round_div-le c.collected (c.collected + c.released + c.missed)),
)
