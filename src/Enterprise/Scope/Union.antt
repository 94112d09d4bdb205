-- ===== src/Enterprise/Scope/Union.antt =====
-- enterprise-scope.service.ts: the reach of a caller whose role is limited to scopes.
use svforb.Common.{
  ℕ, ◌≡◌, ◌↔◌, refl, Bool, true, false, ◌&&◌, ◌||◌, none, some, List, [], ◌∷◌, ◌++◌, ◌==◌, any,
  includes, arith, ok, In, Option-cases, Result-cases, Bool-cases, ◌⊎◌, inl, inr,
}
use svforb.Enterprise.Directory.{Directory, ScopeType, enterprise, UserScope}
use svforb.Prisma.{enterprise_admin}
use svforb.Store.{SiteAccess}
use svforb.Enterprise.Permissions.{is_unrestricted}
use svforb.Enterprise.Scope.{JwtPayload, distinct, resolve, get_enterprise_role}
use svforb.Enterprise.Scope.Reach.{
  add_scopes, ids_or_none, is_enterprise_wide, is_empty, get_allowed_site_ids, is_role, scopes_of,
  accessed_sites, is_type, all_allowed, assert_sites_within_reach,
}
use svforb.Enterprise.Scope.Membership.{
  includes-distinct, includes-append, holds, is_own, is_ok-resolve, includes-resolve,
}

-- The scope is of a dimension of the organisation that holds the site.
abbrev pub grants : Directory → ℕ → ℕ → UserScope → Bool
grants d org s scope = elim scope.scope_id [
  | none ↦ false
  | some id ↦ is_own d org scope.scope_type id && holds d org scope.scope_type id s
]

includes-ids_or_none :
    (org : ℕ) (scope : UserScope) (d : Directory) (s : ℕ)
    → is_type scope.scope_type enterprise ≡ false
    → includes (ids_or_none (resolve org scope.scope_type scope.scope_id d)) s
      ≡ grants d org s scope
unfolding resolve
includes-ids_or_none org scope d s not_wide = elim (Option-cases scope.scope_id) [
  | inl e ↦ rw e (no_id scope.scope_type not_wide)
  | inr (id, e) ↦ rw e (elim (Result-cases (resolve org scope.scope_type (some id) d)) [
    | inl (x, failed) ↦ let own = is_ok-resolve org scope.scope_type id d in ground arith
    | inr (r, done) ↦
        let own = is_ok-resolve org scope.scope_type id d in
        ground (arith, includes-resolve org scope.scope_type id d s {r = r})
  ])
]
  where
    no_id :
        (t : ScopeType)
        → is_type t enterprise ≡ false
        → includes (ids_or_none (resolve org t none d)) s ≡ false
    no_id t h = ground arith

-- The loop gives no restriction exactly if a scope is Enterprise-wide, and otherwise the sites so
-- far and those that a scope grants.
add_scopes_lem :
    (org : ℕ) (scopes : List UserScope) (d : Directory) (sofar : List ℕ) (s : ℕ)
    → (add_scopes org scopes d sofar ≡ none) × (is_enterprise_wide scopes ≡ true)
      ⊎ ((allowed : List ℕ) × (add_scopes org scopes d sofar ≡ some allowed)
          × (is_enterprise_wide scopes ≡ false)
          × (includes allowed s ≡ (includes sofar s || any (grants d org s) scopes)))
unfolding add_scopes
add_scopes_lem org [] d sofar s =
    inr (distinct sofar, refl, refl, ground (arith, includes-distinct sofar s))
add_scopes_lem org (x ∷ scopes) d sofar s = elim (Bool-cases (is_type x.scope_type enterprise)) [
  | inl wide ↦ inl (ground arith, ground arith)
  | inr limited ↦
      let ids = ids_or_none (resolve org x.scope_type x.scope_id d) in
      elim (add_scopes_lem org scopes d (sofar ++ ids) s) [
        | inl (e, wide) ↦ inl (ground arith, ground arith)
        | inr (allowed, e, not_wide, same) ↦ inr (
          allowed,
          ground arith,
          ground arith,
          ground (arith, includes-append sofar ids s, includes-ids_or_none org x d s limited),
        )
      ]
]

-- For a caller whose role is limited to scopes and who has been granted some: nothing is closed to
-- the caller if one of them is Enterprise-wide, and otherwise a site is open exactly if it is held
-- by a dimension of the organisation that the caller has been granted.
pub get_allowed_site_ids_union :
    (caller : JwtPayload) (d : Directory) (org s : ℕ)
    → caller.org_id ≡ some org
    → is_role (get_enterprise_role caller d) enterprise_admin ≡ false
    → is_unrestricted (get_enterprise_role caller d) ≡ false
    → is_empty (scopes_of caller.user_id org d.user_scopes) ≡ false
    → ((get_allowed_site_ids caller d ≡ none)
        × (is_enterprise_wide (scopes_of caller.user_id org d.user_scopes) ≡ true))
      ⊎ ((allowed : List ℕ) × (get_allowed_site_ids caller d ≡ some allowed)
          × (is_enterprise_wide (scopes_of caller.user_id org d.user_scopes) ≡ false)
          × (includes allowed s
              ≡ any (grants d org s) (scopes_of caller.user_id org d.user_scopes)))
unfolding get_allowed_site_ids
get_allowed_site_ids_union caller d org s member not_viewer limited granted =
    elim (add_scopes_lem org (scopes_of caller.user_id org d.user_scopes) d [] s) [
      | inl (e, wide) ↦ inl (ground arith, wide)
      | inr (allowed, e, not_wide, same) ↦ inr (allowed, ground arith, not_wide, same)
    ]

no_scope-accessed_sites :
    (caller : JwtPayload) (d : Directory) (org : ℕ)
    → caller.org_id ≡ some org
    → is_role (get_enterprise_role caller d) enterprise_admin ≡ false
    → is_unrestricted (get_enterprise_role caller d) ≡ false
    → is_empty (scopes_of caller.user_id org d.user_scopes) ≡ true
    → get_allowed_site_ids caller d ≡ some (accessed_sites caller.user_id org d.site_access)
unfolding get_allowed_site_ids
no_scope-accessed_sites caller d org member not_viewer limited empty = ground arith

all_allowed_iff :
    (allowed ids : List ℕ)
    → (all_allowed allowed ids ≡ true)
      ↔ ((s : ℕ) → includes ids s ≡ true → includes allowed s ≡ true)
unfolding all_allowed
all_allowed_iff allowed [] = ((λ h s e. absurd (cc)), (λ h. refl))
all_allowed_iff allowed (x ∷ ids) = (
  (λ h s e. elim (Bool-cases (x == s)) [
    | inl here ↦ ground arith
    | inr other ↦ (all_allowed_iff allowed ids).0 (ground arith) s (ground arith)
  ]),
  (λ h.
      let first = h x (ground arith) in
      let rest = (all_allowed_iff allowed ids).1 (λ s e. h s (ground arith)) in ground arith),
)

-- Sites are within reach exactly if nothing is closed to the caller or each of them is open.
pub assert_sites_within_reach_iff :
    (caller : JwtPayload) (ids : List ℕ) (d : Directory)
    → (assert_sites_within_reach caller ids d ≡ ok tt) ↔ (
        (get_allowed_site_ids caller d ≡ none)
        ⊎ ((allowed : List ℕ) × (get_allowed_site_ids caller d ≡ some allowed)
            × ((s : ℕ) → includes ids s ≡ true → includes allowed s ≡ true)))
unfolding assert_sites_within_reach
assert_sites_within_reach_iff caller ids d = (
  (λ h. elim (Option-cases (get_allowed_site_ids caller d)) [
    | inl e ↦ inl e
    | inr (allowed, e) ↦ inr (allowed, e, (all_allowed_iff allowed ids).0 (ground arith))
  ]),
  (λ h. elim h [
    | inl e ↦ ground arith
    | inr (allowed, e, within) ↦ let all_in = (all_allowed_iff allowed ids).1 within in ground arith
  ]),
)

includes-accessed_sites :
    (user org s : ℕ) (accesses : List SiteAccess)
    → includes (accessed_sites user org accesses) s ≡ true
    → (a : SiteAccess) × In a accesses
      × (a.user_id ≡ user)
      × (a.organisation_id ≡ org)
      × (a.site_id ≡ s)
includes-accessed_sites user org s [] h = absurd (cc)
includes-accessed_sites user org s (x ∷ accesses) h =
    elim (Bool-cases (x.user_id == user && x.organisation_id == org && x.site_id == s)) [
      | inl it ↦ (x, inl refl, ground arith, ground arith, ground arith)
      | inr other ↦
          let (a, further, of_user, of_org, on_site) =
            includes-accessed_sites user org s accesses (ground arith) in
          (a, inr further, of_user, of_org, on_site)
    ]

accessed_sites-In :
    (user org s : ℕ) (accesses : List SiteAccess) (a : SiteAccess)
    → In a accesses
    → a.user_id ≡ user
    → a.organisation_id ≡ org
    → a.site_id ≡ s
    → includes (accessed_sites user org accesses) s ≡ true
accessed_sites-In user org s [] a h u o e = absurd h
accessed_sites-In user org s (x ∷ accesses) a (inl here) u o e = ground arith
accessed_sites-In user org s (x ∷ accesses) a (inr further) u o e =
    let rest = accessed_sites-In user org s accesses a further u o e in ground arith

-- Whatever role it is that is limited to scopes, a caller without one reaches a site exactly if the
-- caller has access to it in the app, by a row of the same organisation.
pub assert_sites_within_reach-no_scope :
    (caller : JwtPayload) (d : Directory) (org s : ℕ)
    → caller.org_id ≡ some org
    → is_role (get_enterprise_role caller d) enterprise_admin ≡ false
    → is_unrestricted (get_enterprise_role caller d) ≡ false
    → scopes_of caller.user_id org d.user_scopes ≡ []
    → (assert_sites_within_reach caller (s ∷ []) d ≡ ok tt) ↔ (
        (a : SiteAccess) × In a d.site_access
        × (a.user_id ≡ caller.user_id)
        × (a.organisation_id ≡ org)
        × (a.site_id ≡ s))
unfolding assert_sites_within_reach all_allowed
assert_sites_within_reach-no_scope caller d org s member not_viewer limited none_given =
    let reach = no_scope-accessed_sites caller d org member not_viewer limited (ground arith) in
    (
      (λ h. includes-accessed_sites caller.user_id org s d.site_access (ground arith)),
      (λ (a, here, of_user, of_org, on_site).
          let open_to =
            accessed_sites-In caller.user_id org s d.site_access a here of_user of_org on_site in
          ground arith),
    )
