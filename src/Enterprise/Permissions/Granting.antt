-- ===== src/Enterprise/Permissions/Granting.antt =====
-- enterprise.permissions.ts: what one role may hand to another.
use svforb.Common.{◌≡◌, ◌↔◌, Bool, true, false, not, ◌||◌, some, arith}
use svforb.Prisma.{EnterpriseRole}
use svforb.Enterprise.Permissions.{
  EnterprisePermission, includes_role, role_has_permission, assignable_roles_for, is_portal_role,
  is_view_only_role, users_manage, structure_view, sites_view, sites_manage, users_view,
  reports_view, audit_view,
}

-- A role that a role may grant holds no permission that the granter does not hold, is one that the
-- portal offers, and is granted only by a role that may manage users.
pub assignable_roles_bounded :
    (granter role : EnterpriseRole) (permission : EnterprisePermission)
    → includes_role (assignable_roles_for (some granter)) role ≡ true
    → (not (role_has_permission (some role) permission)
          || role_has_permission (some granter) permission
        ≡ true)
      × (is_portal_role role ≡ true)
      × (role_has_permission (some granter) users_manage ≡ true)
unfolding assignable_roles_for role_has_permission is_portal_role
assignable_roles_bounded granter role permission h = ground arith

abbrev pub is_view : EnterprisePermission → Bool
is_view structure_view = true
is_view sites_view = true
is_view users_view = true
is_view reports_view = true
is_view audit_view = true
is_view _ = false

-- Of the roles that the portal offers, exactly the view-only ones hold nothing but permissions to
-- view.
pub view_only_iff :
    (role : EnterpriseRole)
    → is_portal_role role ≡ true
    → (is_view_only_role (some role) ≡ true) ↔ (
        (permission : EnterprisePermission)
        → role_has_permission (some role) permission ≡ true
        → is_view permission ≡ true)
unfolding is_portal_role is_view_only_role role_has_permission
view_only_iff role offered = (
  (λ view_only permission held. ground arith),
  (λ only_views. ground (arith, only_views sites_manage)),
)
