-- ===== src/Enterprise/Permissions/Tests.antt =====
-- enterprise.permissions.ts: runs at concrete roles.
use svforb.Common.{◌≡◌, refl, true, not, ◌||◌, some}
use svforb.Prisma.{EnterpriseRole, group_admin}
use svforb.Enterprise.Permissions.{
  sites_manage, users_manage, role_has_permission, is_portal_role, assignable_roles_for,
}
use svforb.Enterprise.Permissions.Granting.{assignable_roles_bounded}

assignable_roles_bounded_example :
    (not (role_has_permission (some EnterpriseRole.site_admin) sites_manage)
        || role_has_permission (some group_admin) sites_manage
      ≡ true)
    × (is_portal_role EnterpriseRole.site_admin ≡ true)
    × (role_has_permission (some group_admin) users_manage ≡ true)
unfolding assignable_roles_for
assignable_roles_bounded_example =
    assignable_roles_bounded group_admin EnterpriseRole.site_admin sites_manage refl
