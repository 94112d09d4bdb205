-- ===== src/Enterprise/Scope/Membership.antt =====
-- Membership in the lists of site ids that enterprise-scope.service.ts builds, and which sites a
-- dimension holds.
use svforb.Common.{
  ℕ, ◌≡◌, refl, Bool, true, false, not, ◌&&◌, ◌||◌, Option, none, some, List, [], ◌∷◌, ◌++◌, ◌==◌,
  any, includes, keep, arith, ok, is_ok, Option-cases, inl, inr,
}
use svforb.Common.Table.{find}
use svforb.Enterprise.Directory.{
  Directory, ScopeType, enterprise, group, cluster, territory, site, Structure,
}
use svforb.Enterprise.Scope.{
  ResolvedScope, distinct, distinct_after, select, resolve, resolve_group, resolve_cluster,
  resolve_territory, resolve_site, resolve_enterprise, org_sites,
}

distinct_after_lem :
    (seen xs : List ℕ) (s : ℕ)
    → includes (distinct_after seen xs) s ≡ (includes xs s && not (includes seen s))
unfolding distinct_after
distinct_after_lem seen [] s = refl
distinct_after_lem seen (x ∷ xs) s =
    ground (arith, distinct_after_lem seen xs s, distinct_after_lem (x ∷ seen) xs s)

pub includes-distinct : (xs : List ℕ) (s : ℕ) → includes (distinct xs) s ≡ includes xs s
unfolding distinct
includes-distinct xs s = ground (arith, distinct_after_lem [] xs s)

pub includes-keep :
    (p : ℕ → Bool) (xs : List ℕ) (s : ℕ) → includes (keep p xs) s ≡ (includes xs s && p s)
includes-keep p [] s = refl
includes-keep p (x ∷ xs) s = ground (arith, includes-keep p xs s)

pub includes-append :
    (xs ys : List ℕ) (s : ℕ) → includes (xs ++ ys) s ≡ (includes xs s || includes ys s)
includes-append [] ys s = refl
includes-append (x ∷ xs) ys s = ground (arith, includes-append xs ys s)

pub includes-select :
    {A : Type 0} (p : A → Bool) (f : A → ℕ) (xs : List A) (s : ℕ)
    → includes (select p f xs) s ≡ any (λ x. p x && f x == s) xs
includes-select p f [] s = refl
includes-select p f (x ∷ xs) s = ground (arith, includes-select p f xs s)

-- The site belongs to the organisation.
abbrev pub belongs : ℕ → Directory → ℕ → Bool
belongs org d s = any (λ row. row.1.organisation_id == org && row.0 == s) d.sites.rows

-- The site is one of the dimension's.
abbrev pub holds : Directory → ℕ → ScopeType → ℕ → ℕ → Bool
holds d org enterprise id s = belongs org d s
holds d org group id s = any (λ r. r.group_id == id && r.site_id == s) d.group_sites
holds d org cluster id s = any (λ r. r.cluster_id == id && r.site_id == s) d.cluster_sites
holds d org territory id s = any (λ r. r.territory_id == id && r.site_id == s) d.territory_sites
holds d org site id s = id == s

abbrev owns : ℕ → Option ℕ → Bool
owns org none = false
owns org (some owner) = owner == org

abbrev owner_of : Option Structure → Option ℕ
owner_of none = none
owner_of (some s) = some s.organisation_id

-- The dimension is the organisation's.
abbrev pub is_own : Directory → ℕ → ScopeType → ℕ → Bool
is_own d org enterprise id = true
is_own d org group id = owns org (owner_of (find id d.groups))
is_own d org cluster id = owns org (owner_of (find id d.clusters))
is_own d org territory id = owns org (owner_of (find id d.territories))
is_own d org site id =
    owns org (elim (find id d.sites) [ none ↦ none | some s ↦ some s.organisation_id ])

-- A dimension resolves exactly when it is the organisation's, and then to the sites it holds.
pub is_ok-resolve :
    (org : ℕ) (t : ScopeType) (id : ℕ) (d : Directory)
    → is_ok (resolve org t (some id) d) ≡ is_own d org t id
unfolding resolve resolve_enterprise resolve_group resolve_cluster resolve_territory resolve_site
is_ok-resolve org enterprise id d = refl
is_ok-resolve org group id d = ground arith
is_ok-resolve org cluster id d = ground arith
is_ok-resolve org territory id d = ground arith
is_ok-resolve org site id d = ground arith

pub includes-resolve :
    (org : ℕ) (t : ScopeType) (id : ℕ) (d : Directory) (s : ℕ) {r : ResolvedScope}
    → resolve org t (some id) d ≡ ok r
    → includes r.site_ids s ≡ holds d org t id s
unfolding resolve resolve_enterprise resolve_group resolve_cluster resolve_territory resolve_site
includes-resolve org enterprise id d s {r} h =
    let same : r.site_ids ≡ org_sites org d.sites.rows = ground arith in
    rw same (includes-select (λ row. row.1.organisation_id == org) (λ row. row.0) d.sites.rows s)
includes-resolve org group id d s {r} h = elim (Option-cases (find id d.groups)) [
  | inl e ↦ absurd (ground arith)
  | inr (x, e) ↦
      let same : r.site_ids
          ≡ select (λ row. row.group_id == id) (λ row. row.site_id) d.group_sites =
        ground arith in
      rw same (includes-select (λ row. row.group_id == id) (λ row. row.site_id) d.group_sites s)
]
includes-resolve org cluster id d s {r} h = elim (Option-cases (find id d.clusters)) [
  | inl e ↦ absurd (ground arith)
  | inr (x, e) ↦
      let same : r.site_ids
          ≡ select (λ row. row.cluster_id == id) (λ row. row.site_id) d.cluster_sites =
        ground arith in
      rw same (includes-select (λ row. row.cluster_id == id) (λ row. row.site_id) d.cluster_sites s)
]
includes-resolve org territory id d s {r} h = elim (Option-cases (find id d.territories)) [
  | inl e ↦ absurd (ground arith)
  | inr (x, e) ↦
      let same : r.site_ids
          ≡ select (λ row. row.territory_id == id) (λ row. row.site_id) d.territory_sites =
        ground arith in
      rw same
        (includes-select (λ row. row.territory_id == id) (λ row. row.site_id) d.territory_sites s)
]
includes-resolve org site id d s {r} h = ground arith
