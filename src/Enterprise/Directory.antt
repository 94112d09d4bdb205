-- ===== src/Enterprise/Directory.antt =====
-- The tables of prisma/schema.prisma that say who belongs to an Enterprise and what its sites are
-- grouped into.
use svforb.Common.{ℕ, Option, List, Bool}
use svforb.Common.Table.{Table}
use svforb.Prisma.{EnterpriseRole}
use svforb.Store.{Site, SiteAccess}

-- enum ScopeType
pub data ScopeType : Type 0 where
  enterprise group cluster territory site : ScopeType

-- model EnterpriseGroup, Cluster and Territory
pub record Structure : Type 0 where
  pub organisation_id : ℕ

-- model GroupSite
pub record GroupSite : Type 0 where
  pub group_id : ℕ
  pub site_id : ℕ
  pub organisation_id : ℕ

-- model ClusterSite
pub record ClusterSite : Type 0 where
  pub cluster_id : ℕ
  pub site_id : ℕ

-- model TerritorySite
pub record TerritorySite : Type 0 where
  pub territory_id : ℕ
  pub site_id : ℕ

-- model UserScope
pub record UserScope : Type 0 where
  pub user_id : ℕ
  pub organisation_id : ℕ
  pub scope_type : ScopeType
  pub scope_id : Option ℕ

-- model OrgMemeberShip, with whether `orgRole` is SUPER_ADMIN
pub record OrgMembership : Type 0 where
  pub user_id : ℕ
  pub organisation_id : ℕ
  pub enterprise_role : Option EnterpriseRole
  pub is_super_admin : Bool

-- model OrgSubscription, with whether its plan's name is ENTERPRISE
pub record OrgSubscription : Type 0 where
  pub organisation_id : ℕ
  pub is_enterprise_plan : Bool

pub record Directory : Type 0 where
  pub sites : Table Site
  pub site_access : List SiteAccess
  pub groups : Table Structure
  pub clusters : Table Structure
  pub territories : Table Structure
  pub group_sites : List GroupSite
  pub cluster_sites : List ClusterSite
  pub territory_sites : List TerritorySite
  pub user_scopes : List UserScope
  pub memberships : List OrgMembership
  pub subscriptions : List OrgSubscription
