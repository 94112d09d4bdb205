-- ===== src/Enterprise/Scope/Filters.antt =====
-- enterprise-scope.service.ts: `resolveFilters`.
use svforb.Common.{ℕ, Option, none, some, List, includes, keep, Result, ok, ◌>>=◌}
use svforb.Enterprise.Directory.{Directory, ScopeType, group, cluster, territory, site}
use svforb.Enterprise.Scope.{JwtPayload, distinct, org_sites, resolve, assert_enterprise}
use svforb.Enterprise.Scope.Reach.{get_allowed_site_ids}

-- The filters of a report.
pub record ScopeFilters : Type 0 where
  pub group_id : Option ℕ
  pub territory_id : Option ℕ
  pub cluster_id : Option ℕ
  pub site_id : Option ℕ

-- One round of the loop of `resolveFilters`; `none` is no filter so far.
abbrev pub narrow : Option (List ℕ) → List ℕ → List ℕ
narrow none ids = distinct ids
narrow (some selected) ids = keep (λ s. includes ids s) selected

unfoldable pub add_filter :
    ℕ → ScopeType → Option ℕ → Directory → Option (List ℕ) → Result (Option (List ℕ))
add_filter org t none d selected = ok selected
add_filter org t (some id) d selected = do
  resolved ← resolve org t (some id) d
  ok (some (narrow selected resolved.site_ids))

abbrev pub within : Option (List ℕ) → List ℕ → List ℕ
within none ids = ids
within (some allowed) ids = keep (λ id. includes allowed id) ids

abbrev pub or_all : Option (List ℕ) → List ℕ → List ℕ
or_all none ids = ids
or_all (some allowed) ids = allowed

abbrev pub visible : Option (List ℕ) → Option (List ℕ) → List ℕ → List ℕ
visible none allowed all_sites = or_all allowed all_sites
visible (some selected) allowed all_sites = within allowed selected

unfoldable pub resolve_filters : JwtPayload → ScopeFilters → Directory → Result (List ℕ)
unfolding assert_enterprise add_filter get_allowed_site_ids
resolve_filters caller filters d = do
  org ← assert_enterprise caller d
  by_group ← add_filter org group filters.group_id d none
  by_territory ← add_filter org territory filters.territory_id d by_group
  by_cluster ← add_filter org cluster filters.cluster_id d by_territory
  selected ← add_filter org site filters.site_id d by_cluster
  ok (visible selected (get_allowed_site_ids caller d) (org_sites org d.sites.rows))
