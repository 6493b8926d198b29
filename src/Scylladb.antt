-- ===== src/Scylladb.antt =====
-- The package `scylladb`: a session's configuration, and grants and roles through CQL statements.
pub mod Cluster
pub mod Session
pub mod Grant
pub mod Authoritative
pub mod Bindings
pub mod Role
pub mod Database
pub mod Connect
pub mod HttpProxy
pub mod EnvOnce
pub mod Keyspace
