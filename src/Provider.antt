-- ===== src/Provider.antt =====
-- The package `provider` (internal/provider): the resources that Terraform drives.
pub mod Framework
pub mod RoleResource
pub mod GrantResource
pub mod Domains
pub mod Validators
pub mod TableGrants
pub mod KeyspaceGrants
pub mod Configure
pub mod Schema
pub mod Lifecycle
pub mod Clients
