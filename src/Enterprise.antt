-- ===== src/Enterprise.antt =====
-- The enterprise portal: src/modules/enterprise.
pub mod Directory
pub mod Pagination
pub mod Permissions
pub mod Scope
