-- ===== src/Enterprise/Permissions.antt =====
-- src/modules/enterprise/enterprise.permissions.ts: the table of roles, and the tests on it.
-- Labels, descriptions and the table's rendering for the screen are not modelled.
pub mod Granting
mod Tests
use svforb.Common.{
  ℕ, Bool, true, false, not, ◌||◌, Option, none, some, List, [], ◌∷◌, ◌==◌, any, Result, throw_if,
  forbidden,
}
use svforb.Prisma.{
  EnterpriseRole, super_admin, enterprise_admin, group_admin, cluster_admin, site_user,
}

-- PERMISSION
pub data EnterprisePermission : Type 0 where
  structure_view structure_create structure_manage structure_delete : EnterprisePermission
  sites_view sites_manage users_view users_manage : EnterprisePermission
  reports_view profile_manage audit_view : EnterprisePermission

abbrev permission_rank : EnterprisePermission → ℕ
permission_rank structure_view = 0
permission_rank structure_create = 1
permission_rank structure_manage = 2
permission_rank structure_delete = 3
permission_rank sites_view = 4
permission_rank sites_manage = 5
permission_rank users_view = 6
permission_rank users_manage = 7
permission_rank reports_view = 8
permission_rank profile_manage = 9
permission_rank audit_view = 10

abbrev pub permission_eq : EnterprisePermission → EnterprisePermission → Bool
permission_eq a b = permission_rank a == permission_rank b

abbrev role_rank : EnterpriseRole → ℕ
role_rank super_admin = 0
role_rank enterprise_admin = 1
role_rank group_admin = 2
role_rank cluster_admin = 3
role_rank EnterpriseRole.site_admin = 4
role_rank site_user = 5

abbrev pub role_eq : EnterpriseRole → EnterpriseRole → Bool
role_eq a b = role_rank a == role_rank b

-- ALL
abbrev all_permissions : List EnterprisePermission
all_permissions =
    structure_view ∷ structure_create ∷ structure_manage ∷ structure_delete ∷ sites_view
    ∷ sites_manage ∷ users_view ∷ users_manage ∷ reports_view ∷ profile_manage ∷ audit_view ∷ []

-- PORTAL_ROLES
abbrev portal_roles : List EnterpriseRole
portal_roles = super_admin ∷ enterprise_admin ∷ group_admin ∷ EnterpriseRole.site_admin ∷ []

-- interface RoleDefinition
pub record RoleDefinition : Type 0 where
  pub permissions : List EnterprisePermission
  pub assignable : List EnterpriseRole
  pub requires_scope : Bool
  pub scope_optional : Bool
  pub is_legacy : Bool

-- ROLE_DEFINITIONS
pub role_definitions : EnterpriseRole → RoleDefinition
role_definitions super_admin = record {
  permissions = all_permissions;
  assignable = portal_roles;
  requires_scope = false;
  scope_optional = false;
  is_legacy = false;
}
role_definitions enterprise_admin = record {
  permissions = structure_view ∷ sites_view ∷ users_view ∷ reports_view ∷ audit_view ∷ [];
  assignable = [];
  requires_scope = false;
  scope_optional = true;
  is_legacy = false;
}
role_definitions group_admin = record {
  permissions =
      structure_view ∷ structure_manage ∷ sites_view ∷ sites_manage ∷ users_view ∷ users_manage
      ∷ reports_view ∷ audit_view ∷ [];
  assignable = EnterpriseRole.site_admin ∷ [];
  requires_scope = true;
  scope_optional = false;
  is_legacy = false;
}
role_definitions EnterpriseRole.site_admin = record {
  permissions = structure_view ∷ sites_view ∷ sites_manage ∷ reports_view ∷ [];
  assignable = [];
  requires_scope = true;
  scope_optional = false;
  is_legacy = false;
}
role_definitions cluster_admin = record {
  permissions = structure_view ∷ sites_view ∷ sites_manage ∷ reports_view ∷ [];
  assignable = [];
  requires_scope = true;
  scope_optional = false;
  is_legacy = true;
}
role_definitions site_user = record {
  permissions = sites_view ∷ reports_view ∷ [];
  assignable = [];
  requires_scope = true;
  scope_optional = false;
  is_legacy = true;
}

-- VIEW_ONLY_ROLES
abbrev view_only_roles : List EnterpriseRole
view_only_roles = enterprise_admin ∷ []

abbrev pub includes_role : List EnterpriseRole → EnterpriseRole → Bool
includes_role roles role = any (λ r. role_eq r role) roles

abbrev pub includes_permission : List EnterprisePermission → EnterprisePermission → Bool
includes_permission permissions permission = any (λ p. permission_eq p permission) permissions

pub is_view_only_role : Option EnterpriseRole → Bool
is_view_only_role none = false
is_view_only_role (some role) = includes_role view_only_roles role

unfoldable pub assert_not_view_only : Option EnterpriseRole → Result (Unit {0})
unfolding is_view_only_role
assert_not_view_only role = throw_if (is_view_only_role role) (forbidden "Your role is view only.")

pub is_portal_role : EnterpriseRole → Bool
unfolding role_definitions
is_portal_role role = not (role_definitions role).is_legacy

pub role_has_permission : Option EnterpriseRole → EnterprisePermission → Bool
unfolding role_definitions
role_has_permission none permission = false
role_has_permission (some role) permission =
    includes_permission (role_definitions role).permissions permission

pub assignable_roles_for : Option EnterpriseRole → List EnterpriseRole
unfolding role_definitions
assignable_roles_for none = []
assignable_roles_for (some role) = (role_definitions role).assignable

unfoldable pub is_unrestricted : Option EnterpriseRole → Bool
unfolding role_definitions
is_unrestricted none = false
is_unrestricted (some role) = not (role_definitions role).requires_scope

unfoldable pub accepts_scopes : Option EnterpriseRole → Bool
unfolding role_definitions
accepts_scopes none = false
accepts_scopes (some role) =
    (role_definitions role).requires_scope || (role_definitions role).scope_optional
