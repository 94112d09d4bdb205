-- ===== src/Enterprise/Scope/Reach.antt =====
-- enterprise-reach.ts and enterprise-scope.service.ts: the sites that a caller may see, and the
-- checks of a request against them.
use svforb.Common.{
  ℕ, Bool, true, false, not, ◌&&◌, ◌||◌, Option, none, some, List, [], ◌∷◌, ◌++◌, ◌==◌, opt_eq, any,
  all, includes, if◌then◌else◌, Result, ok, err, ◌>>=◌, ◌>>◌, throw_if, forbidden,
}
use svforb.Common.Table.{Table, find}
use svforb.Prisma.{EnterpriseRole, enterprise_admin}
use svforb.Store.{SiteAccess}
use svforb.Enterprise.Directory.{
  Directory, ScopeType, enterprise, group, cluster, territory, site, Structure, UserScope,
}
use svforb.Enterprise.Permissions.{
  EnterprisePermission, role_eq, role_has_permission, is_unrestricted,
}
use svforb.Enterprise.Scope.{
  JwtPayload, ResolvedScope, distinct, select, resolve, assert_enterprise, is_enterprise,
  get_enterprise_role,
}

abbrev pub is_type : ScopeType → ScopeType → Bool
is_type enterprise enterprise = true
is_type group group = true
is_type cluster cluster = true
is_type territory territory = true
is_type site site = true
is_type a b = false

-- `userScope.findMany({ where: { userId, organisationId } })`
unfoldable pub scopes_of : ℕ → ℕ → List UserScope → List UserScope
scopes_of user org [] = []
scopes_of user org (s ∷ rest) =
    let more = scopes_of user org rest in
    if s.user_id == user && s.organisation_id == org then s ∷ more else more

-- `idsOf(type)` and `id in idsOf(type)`
pub has_scope : ScopeType → ℕ → List UserScope → Bool
has_scope t id scopes = any (λ s. is_type s.scope_type t && opt_eq s.scope_id id) scopes

abbrev pub is_enterprise_wide : List UserScope → Bool
is_enterprise_wide scopes = any (λ s. is_type s.scope_type enterprise) scopes

-- The organisation that a cluster or territory belongs to is `org`.
abbrev pub is_of_org : ℕ → ℕ → Table Structure → Bool
is_of_org org id t = elim (find id t) [ none ↦ false | some s ↦ s.organisation_id == org ]

-- `!scopes.length`
abbrev pub is_empty : List UserScope → Bool
is_empty [] = true
is_empty (s ∷ rest) = false

-- The ids of `viewOnlySiteIds` of enterprise-reach.ts, from the user's scopes.
pub scoped_site_ids : ℕ → List UserScope → Directory → List ℕ
unfolding has_scope
scoped_site_ids org scopes d =
    select (λ r. has_scope site r.0 scopes && r.1.organisation_id == org) (λ r. r.0) d.sites.rows
    ++ (select (λ r. has_scope group r.group_id scopes && r.organisation_id == org) (λ r. r.site_id)
          d.group_sites
        ++ (select
              (λ r. has_scope cluster r.cluster_id scopes && is_of_org org r.cluster_id d.clusters)
              (λ r. r.site_id) d.cluster_sites
            ++ select
                (λ r.
                  has_scope territory r.territory_id scopes
                  && is_of_org org r.territory_id d.territories)
                (λ r. r.site_id) d.territory_sites))

-- `viewOnlySiteIds`; `none` is the whole Enterprise
pub view_only_site_ids : ℕ → ℕ → Directory → Option (List ℕ)
unfolding scopes_of scoped_site_ids
view_only_site_ids user org d =
    let scopes = scopes_of user org d.user_scopes in
    if is_empty scopes || is_enterprise_wide scopes
    then none
    else some (distinct (scoped_site_ids org scopes d))

-- `siteAccess.findMany({ where: { userId, organisationId } })`
abbrev pub accessed_sites : ℕ → ℕ → List SiteAccess → List ℕ
accessed_sites user org accesses =
    select (λ a. a.user_id == user && a.organisation_id == org) (λ a. a.site_id) accesses

-- `this.resolve(...).catch(() => null)` and the ids that it adds
abbrev pub ids_or_none : Result ResolvedScope → List ℕ
ids_or_none (ok resolved) = resolved.site_ids
ids_or_none (err e) = []

-- The loop over the scopes of `getAllowedSiteIds`, from the ids so far.
unfoldable pub add_scopes : ℕ → List UserScope → Directory → List ℕ → Option (List ℕ)
add_scopes org [] d allowed = some (distinct allowed)
add_scopes org (s ∷ scopes) d allowed =
    let more =
      add_scopes org scopes d (allowed ++ ids_or_none (resolve org s.scope_type s.scope_id d)) in
    if is_type s.scope_type enterprise then none else more

abbrev pub is_role : Option EnterpriseRole → EnterpriseRole → Bool
is_role none role = false
is_role (some r) role = role_eq r role

-- `getAllowedSiteIds`; `none` is no restriction
unfoldable pub get_allowed_site_ids : JwtPayload → Directory → Option (List ℕ)
unfolding get_enterprise_role scopes_of add_scopes view_only_site_ids
get_allowed_site_ids caller d = elim caller.org_id [
  | none ↦ some []
  | some org ↦
      let role = get_enterprise_role caller d in
      let scopes = scopes_of caller.user_id org d.user_scopes in
      if is_role role enterprise_admin
      then view_only_site_ids caller.user_id org d
      else if is_unrestricted role
      then none
      else if is_empty scopes
      then some (accessed_sites caller.user_id org d.site_access)
      else add_scopes org scopes d []
]

-- `ids.filter((id) => !allowedSet.has(id))` is empty
unfoldable pub all_allowed : List ℕ → List ℕ → Bool
all_allowed allowed ids = all (λ id. includes allowed id) ids

-- `assertSitesWithinReach`, and `assertScopeAllowed` on the site ids of the scope
unfoldable pub assert_sites_within_reach : JwtPayload → List ℕ → Directory → Result (Unit {0})
unfolding get_allowed_site_ids all_allowed
assert_sites_within_reach caller ids d = elim (get_allowed_site_ids caller d) [
  | none ↦ ok tt
  | some allowed ↦
      throw_if (not (all_allowed allowed ids))
        (forbidden "One of the sites you selected is outside your scope.")
]

pub assert_scope_allowed : JwtPayload → ResolvedScope → Directory → Result (Unit {0})
unfolding get_allowed_site_ids all_allowed
assert_scope_allowed caller requested d = elim (get_allowed_site_ids caller d) [
  | none ↦ ok tt
  | some allowed ↦
      throw_if (not (all_allowed allowed requested.site_ids))
        (forbidden "You do not have access to all of this scope.")
]

unfoldable pub assert_permission : JwtPayload → EnterprisePermission → Directory → Result ℕ
unfolding assert_enterprise get_enterprise_role
assert_permission caller permission d = do
  org ← assert_enterprise caller d
  throw_if (not (role_has_permission (get_enterprise_role caller d) permission))
      (forbidden "You are not a member of this Enterprise, or your role cannot do this.")
  ok org

unfoldable pub assert_platform_admin_enterprise : JwtPayload → ℕ → Directory → Result ℕ
assert_platform_admin_enterprise caller org d = do
  throw_if (not caller.is_platform_admin) (forbidden "Platform admin access required")
  throw_if (not (is_enterprise org d.subscriptions))
      (forbidden "Enterprise features require the Enterprise plan.")
  ok org

unfoldable pub assert_structure_within_reach :
    JwtPayload → ℕ → ScopeType → ℕ → Directory → Result ResolvedScope
unfolding resolve assert_scope_allowed
assert_structure_within_reach caller org t id d = do
  resolved ← resolve org t (some id) d
  assert_scope_allowed caller resolved d
  ok resolved

unfoldable pub resolve_for_caller :
    JwtPayload → ScopeType → Option ℕ → Directory → Result ResolvedScope
unfolding assert_enterprise resolve assert_scope_allowed
resolve_for_caller caller t id d = do
  org ← assert_enterprise caller d
  resolved ← resolve org t id d
  assert_scope_allowed caller resolved d
  ok resolved
