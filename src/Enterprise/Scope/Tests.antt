-- ===== src/Enterprise/Scope/Tests.antt =====
-- enterprise-scope.service.ts: runs at concrete inputs. Organisation 1 has sites 11, 12 and 13; the
-- group holds the first two and the territory the last two. User 5 has been granted the group.
use svforb.Common.{
  ℕ, ◌≡◌, ◌↔◌, In, ◌⊎◌, refl, true, false, ◌&&◌, none, some, List, [], ◌∷◌, ok, arith, includes,
  any,
}
use svforb.Common.Table.{Table}
use svforb.Prisma.{EnterpriseRole, group_admin, SiteRole}
use svforb.Store.{Site, SiteAccess}
use svforb.Enterprise.Directory.{Directory, enterprise, group, cluster, territory, site, Structure}
use svforb.Enterprise.Permissions.{is_unrestricted}
use svforb.Enterprise.Scope.{
  JwtPayload, is_enterprise, assert_enterprise, get_enterprise_role, membership_of, resolve,
  resolve_group, resolve_territory, distinct,
}
use svforb.Enterprise.Scope.Reach.{
  get_allowed_site_ids, scopes_of, is_enterprise_wide, add_scopes, assert_sites_within_reach,
}
use svforb.Enterprise.Scope.Filters.{ScopeFilters, resolve_filters, add_filter}
use svforb.Enterprise.Scope.Union.{
  grants, get_allowed_site_ids_union, assert_sites_within_reach-no_scope,
}
use svforb.Enterprise.Scope.Narrowing.{
  resolve_filters_refines, passes_all, is_open, no_filters, IsTidy,
}

abbrev of_one : Site
of_one = record { organisation_id = 1; is_active = true; timezone = none }

abbrev structure : Table Structure
structure = record { next = 4; rows = (3, record { organisation_id = 1 }) ∷ [] }

abbrev chain : Directory
chain = record {
  sites = record { next = 14; rows = (11, of_one) ∷ (12, of_one) ∷ (13, of_one) ∷ [] };
  site_access =
      (record { user_id = 6; site_id = 13; organisation_id = 1; site_role = SiteRole.staff }) ∷ [];
  groups = structure;
  clusters = record { next = 1; rows = [] };
  territories = structure;
  group_sites =
      (record { group_id = 3; site_id = 11; organisation_id = 1 })
      ∷ (record { group_id = 3; site_id = 12; organisation_id = 1 })
      ∷ [];
  cluster_sites = [];
  territory_sites =
      (record { territory_id = 3; site_id = 12 })
      ∷ (record { territory_id = 3; site_id = 13 })
      ∷ [];
  user_scopes =
      (record { user_id = 5; organisation_id = 1; scope_type = group; scope_id = some 3 }) ∷ [];
  memberships =
      (record {
        user_id = 5;
        organisation_id = 1;
        enterprise_role = some group_admin;
        is_super_admin = false;
      })
      ∷ (record {
        user_id = 6;
        organisation_id = 1;
        enterprise_role = some EnterpriseRole.site_admin;
        is_super_admin = false;
      })
      ∷ [];
  subscriptions = (record { organisation_id = 1; is_enterprise_plan = true }) ∷ [];
}

abbrev manager : JwtPayload
manager = record { user_id = 5; org_id = some 1; is_platform_admin = false }

abbrev keeper : JwtPayload
keeper = record manager { user_id = 6 }

abbrev by_territory : ScopeFilters
by_territory = record no_filters { territory_id = some 3 }

seen : resolve_filters manager by_territory chain ≡ ok (12 ∷ [])
unfolding resolve_filters assert_enterprise is_enterprise add_filter resolve resolve_group
    resolve_territory distinct get_allowed_site_ids get_enterprise_role membership_of scopes_of
    add_scopes is_unrestricted
seen = refl

seen_all : resolve_filters manager no_filters chain ≡ ok (11 ∷ 12 ∷ [])
unfolding resolve_filters assert_enterprise is_enterprise add_filter resolve resolve_group distinct
    get_allowed_site_ids get_enterprise_role membership_of scopes_of add_scopes is_unrestricted
seen_all = refl

resolve_filters_refines_example :
    includes (12 ∷ []) 12
    ≡ (passes_all chain 1 by_territory 12 && is_open manager chain 1 by_territory 12)
resolve_filters_refines_example = resolve_filters_refines manager by_territory chain 1 12 refl seen

chain-IsTidy : IsTidy chain 1
chain-IsTidy enterprise id s own h = h
chain-IsTidy group id s own h = ground arith
chain-IsTidy cluster id s own h = ground arith
chain-IsTidy territory id s own h = ground arith
chain-IsTidy site id s own h = ground arith

get_allowed_site_ids_union_example :
    ((get_allowed_site_ids manager chain ≡ none)
      × (is_enterprise_wide (scopes_of 5 1 chain.user_scopes) ≡ true))
    ⊎ ((allowed : List ℕ) × (get_allowed_site_ids manager chain ≡ some allowed)
        × (is_enterprise_wide (scopes_of 5 1 chain.user_scopes) ≡ false)
        × (includes allowed 12 ≡ any (grants chain 1 12) (scopes_of 5 1 chain.user_scopes)))
unfolding get_enterprise_role membership_of is_unrestricted scopes_of
get_allowed_site_ids_union_example =
    get_allowed_site_ids_union manager chain 1 12 refl refl refl refl

assert_sites_within_reach-no_scope_example :
    (assert_sites_within_reach keeper (13 ∷ []) chain ≡ ok tt) ↔ (
      (a : SiteAccess) × In a chain.site_access
      × (a.user_id ≡ 6)
      × (a.organisation_id ≡ 1)
      × (a.site_id ≡ 13))
unfolding get_enterprise_role membership_of is_unrestricted scopes_of
assert_sites_within_reach-no_scope_example =
    assert_sites_within_reach-no_scope keeper chain 1 13 refl refl refl refl
