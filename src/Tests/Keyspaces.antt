-- ===== src/Tests/Keyspaces.antt =====
-- A keyspace whose name is folded.
use terraform_provider_scyll.Base.{true}
use terraform_provider_scyll.Base.Ints.{negsuc}
use terraform_provider_scyll.Scylladb.Keyspace.{Keyspace}

abbrev shop : Keyspace
shop = record {
  name = "Shop_2";
  replication_class = "SimpleStrategy";
  replication_factor = negsuc 0;
  durable_writes = true;
}
