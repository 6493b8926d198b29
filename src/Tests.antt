-- ===== src/Tests.antt =====
-- Concrete parameters, and runs of the code and of the theorems on them.
pub mod Ascii
pub mod Memory
pub mod Fixtures
mod Reconcile
mod Reading
mod Rendering
pub mod Resources
pub mod Schema
mod Life
mod Imports
mod Listing
pub mod RoleTable
mod Roles
mod RoleLives
pub mod Drift
pub mod Moved
mod GrantLives
mod Effect
mod Configure
mod Connect
mod HttpProxy
mod Bytes
mod Keyspaces
pub mod Certificates
mod Containers
mod Environment
