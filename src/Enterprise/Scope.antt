-- ===== src/Enterprise/Scope.antt =====
-- src/modules/enterprise/services/enterprise-scope.service.ts and enterprise-reach.ts: which sites
-- a reporting dimension stands for, and which of them a caller may see. Labels are not modelled.
pub mod Reach
pub mod Filters
pub mod Membership
pub mod Union
pub mod Narrowing
mod Tests
use svforb.Common.{
  ℕ, Bool, true, false, not, ◌&&◌, ◌||◌, Option, none, some, List, [], ◌∷◌, ◌++◌, ◌==◌, opt_eq, any,
  all, keep, includes, is_none, if◌then◌else◌, Result, ok, err, ◌>>=◌, ◌>>◌, throw_if, or_throw,
  forbidden, not_found,
}
use svforb.Common.Table.{Table, find}
use svforb.Prisma.{EnterpriseRole, enterprise_admin, super_admin}
use svforb.Store.{Site, SiteAccess}
use svforb.Enterprise.Directory.{
  Directory, ScopeType, enterprise, group, cluster, territory, site, Structure, GroupSite,
  ClusterSite, TerritorySite, UserScope, OrgMembership, OrgSubscription,
}
use svforb.Enterprise.Permissions.{
  EnterprisePermission, role_eq, role_has_permission, is_unrestricted,
}

-- interface Jwtpayload: the user, the organisation, and whether `platformRole` is PLATFORM_ADMIN
pub record JwtPayload : Type 0 where
  pub user_id : ℕ
  pub org_id : Option ℕ
  pub is_platform_admin : Bool

-- interface ResolvedScope
pub record ResolvedScope : Type 0 where
  pub scope_type : ScopeType
  pub scope_id : Option ℕ
  pub site_ids : List ℕ

-- `[...new Set(xs)]`: the elements in the order of their first places, each once.
pub distinct_after : List ℕ → List ℕ → List ℕ
distinct_after seen [] = []
distinct_after seen (x ∷ xs) =
    let old = distinct_after seen xs in
    let fresh = distinct_after (x ∷ seen) xs in if includes seen x then old else x ∷ fresh

pub distinct : List ℕ → List ℕ
unfolding distinct_after
distinct xs = distinct_after [] xs

-- `findMany` and the ids of the rows it gives
abbrev pub select : {A : Type 0} → (A → Bool) → (A → ℕ) → List A → List ℕ
select p f [] = []
select p f (x ∷ xs) = let rest = select p f xs in if p x then f x ∷ rest else rest

abbrev pub org_sites : ℕ → List (ℕ × Site) → List ℕ
org_sites org rows = select (λ row. row.1.organisation_id == org) (λ row. row.0) rows

-- `subscription?.plan.name === ENTERPRISE_PLAN_NAME`, by the organisation's one subscription
pub is_enterprise : ℕ → List OrgSubscription → Bool
is_enterprise org [] = false
is_enterprise org (s ∷ rest) =
    if s.organisation_id == org then s.is_enterprise_plan else is_enterprise org rest

pub assert_enterprise : JwtPayload → Directory → Result ℕ
assert_enterprise caller d = do
  org ← or_throw caller.org_id (forbidden "Not part of an organisation")
  throw_if (not (is_enterprise org d.subscriptions))
      (forbidden "Enterprise features require the Enterprise plan.")
  ok org

-- `findFirst({ where: { id, organisationId } })`
abbrev pub own_structure : ℕ → ℕ → Table Structure → Option Structure
own_structure org id t = elim (find id t) [
  | none ↦ none
  | some s ↦ if s.organisation_id == org then some s else none
]

abbrev pub own_site : ℕ → ℕ → Table Site → Option Site
own_site org id t = elim (find id t) [
  | none ↦ none
  | some s ↦ if s.organisation_id == org then some s else none
]

pub resolve_enterprise : ℕ → Directory → Result ResolvedScope
resolve_enterprise org d =
    ok (record { scope_type = enterprise; scope_id = none; site_ids = org_sites org d.sites.rows })

pub resolve_group : ℕ → ℕ → Directory → Result ResolvedScope
resolve_group org id d = do
  s ← or_throw (own_structure org id d.groups) (not_found "Group not found")
  ok (record {
    scope_type = group;
    scope_id = some id;
    site_ids = select (λ r. r.group_id == id) (λ r. r.site_id) d.group_sites;
  })

pub resolve_cluster : ℕ → ℕ → Directory → Result ResolvedScope
resolve_cluster org id d = do
  s ← or_throw (own_structure org id d.clusters) (not_found "Cluster not found")
  ok (record {
    scope_type = cluster;
    scope_id = some id;
    site_ids = select (λ r. r.cluster_id == id) (λ r. r.site_id) d.cluster_sites;
  })

pub resolve_territory : ℕ → ℕ → Directory → Result ResolvedScope
resolve_territory org id d = do
  s ← or_throw (own_structure org id d.territories) (not_found "Territory not found")
  ok (record {
    scope_type = territory;
    scope_id = some id;
    site_ids = select (λ r. r.territory_id == id) (λ r. r.site_id) d.territory_sites;
  })

pub resolve_site : ℕ → ℕ → Directory → Result ResolvedScope
resolve_site org id d = do
  s ← or_throw (own_site org id d.sites) (not_found "Site not found")
  ok (record { scope_type = site; scope_id = some id; site_ids = id ∷ [] })

abbrev require_id : Option ℕ → Result ℕ
require_id id = or_throw id (not_found "An id is required for this scope")

pub resolve : ℕ → ScopeType → Option ℕ → Directory → Result ResolvedScope
unfolding resolve_enterprise resolve_group resolve_cluster resolve_territory resolve_site
resolve org enterprise id d = resolve_enterprise org d
resolve org group id d = do i ← require_id id; resolve_group org i d
resolve org cluster id d = do i ← require_id id; resolve_cluster org i d
resolve org territory id d = do i ← require_id id; resolve_territory org i d
resolve org site id d = do i ← require_id id; resolve_site org i d

-- `orgMemeberShip.findFirst({ where: { userId, organisationId } })`
pub membership_of : ℕ → ℕ → List OrgMembership → Option OrgMembership
membership_of user org [] = none
membership_of user org (m ∷ rest) =
    if m.user_id == user && m.organisation_id == org then some m else membership_of user org rest

abbrev role_of : OrgMembership → Option EnterpriseRole
role_of m = elim m.enterprise_role [
  | some role ↦ some role
  | none ↦ if m.is_super_admin then some super_admin else none
]

pub get_enterprise_role : JwtPayload → Directory → Option EnterpriseRole
unfolding membership_of
get_enterprise_role caller d = elim caller.org_id [
  | none ↦ none
  | some org ↦ elim (membership_of caller.user_id org d.memberships) [
    | none ↦ none
    | some m ↦ role_of m
  ]
]
