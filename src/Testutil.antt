-- ===== src/Testutil.antt =====
-- internal/testutil: the certificates and the database that the tests of the provider run with.
pub mod Cert
pub mod Container
