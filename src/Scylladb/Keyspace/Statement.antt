-- ===== src/Scylladb/Keyspace/Statement.antt =====
-- What the statement of `CreateKeyspace` means.
use terraform_provider_scyll.Scylladb.Keyspace.{Keyspace}
