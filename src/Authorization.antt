-- ===== src/Authorization.antt =====
-- app/authorization: permissions, roles, ownership and the policy over them.
pub mod Permissions
pub mod Roles
pub mod Ownership
pub mod Policy
pub mod Access
