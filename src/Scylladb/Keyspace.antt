-- ===== src/Scylladb/Keyspace.antt =====
-- scylladb/keyspace.go
pub mod Statement
use terraform_provider_scyll.Base.{String, ◌<>◌, Bool}
use terraform_provider_scyll.Base.Ints.{ℤ}
use terraform_provider_scyll.Base.Exec.{Exec}
use terraform_provider_scyll.Go.Strconv.Signed.{decimal_int}
use terraform_provider_scyll.Scylladb.Role.{bool_text}
use terraform_provider_scyll.Scylladb.Session.{Session}

pub record Keyspace : Type 0 where
  pub name : String
  pub replication_class : String
  pub replication_factor : ℤ
  pub durable_writes : Bool

unfoldable pub create_keyspace_query : Keyspace → String
create_keyspace_query ks =
    "CREATE KEYSPACE IF NOT EXISTS "
    <> (ks.name
        <> (" WITH replication = {'class': '"
            <> (ks.replication_class
                <> ("', 'replication_factor': "
                    <> (decimal_int ks.replication_factor
                        <> ("} AND durable_writes = " <> bool_text ks.durable_writes))))))

unfoldable pub delete_keyspace_query : Keyspace → String
delete_keyspace_query ks = "DROP KEYSPACE IF EXISTS " <> ks.name

module _ (S : Session) where
  unfoldable pub create_keyspace : Keyspace → Exec S.State (Unit {0})
  create_keyspace ks = S.exec (create_keyspace_query ks)

  unfoldable pub delete_keyspace : Keyspace → Exec S.State (Unit {0})
  delete_keyspace ks = S.exec (delete_keyspace_query ks)
