-- ===== src/Tests/Fixtures.antt =====
-- The database and the bindings that the tests share.
use terraform_provider_scyll.Base.{String, ◌≡◌, refl, true, none, List, [], ◌∷◌, arith, contains}
use terraform_provider_scyll.Go.Strings.{to_upper, lacks}
use terraform_provider_scyll.Cql.{table}
use terraform_provider_scyll.Scylladb.Cluster.{Cluster, ClusterConfig}
use terraform_provider_scyll.Scylladb.Authoritative.{
  AuthoritativeBinding, valid_privileges, parse_identifier,
}
use terraform_provider_scyll.Scylladb.Authoritative.Identifier.{Denotes, Denotes-table}
use terraform_provider_scyll.Scylladb.Authoritative.Requested.{requested}
use terraform_provider_scyll.Scylladb.Authoritative.Steps.{IsRole}
use terraform_provider_scyll.Scylladb.Grant.Render.{IsNamed}
use terraform_provider_scyll.Tests.Ascii.{ascii, ascii_upper}
use terraform_provider_scyll.Tests.Memory.{Held, memory_granted}

abbrev pub config : ClusterConfig
config = record {
  hosts = "db:9042" ∷ [];
  host_dialer = none;
  authenticator = none;
  ssl_opts = none;
  disable_initial_host_lookup = true;
  num_conns = 1;
}

abbrev pub cluster : Cluster
cluster = record { cluster = config; system_auth_keyspace_name = "system"; session = true }

abbrev pub before : List Held
before =
    record { role = "app"; path = "data/shop/orders"; privilege = "DROP" }
    ∷ record { role = "app"; path = "data/shop/orders"; privilege = "SELECT" }
    ∷ record { role = "old"; path = "data/shop/orders"; privilege = "ALTER" }
    ∷ record { role = "old"; path = "data/shop"; privilege = "ALTER" }
    ∷ []

abbrev pub bindings : List AuthoritativeBinding
bindings = record { privileges = "select" ∷ "Modify" ∷ []; role = "app" } ∷ []

pub app_IsRole : IsRole "app"
unfolding lacks
app_IsRole = refl

pub old_IsRole : IsRole "old"
unfolding lacks
old_IsRole = refl

pub held_before : (r path p : String) → memory_granted before r path p ≡ true → IsRole r
unfolding memory_granted
held_before r path p h = ground (arith, app_IsRole, old_IsRole)

pub shop_orders_IsNamed : IsNamed (table "shop" "orders")
unfolding lacks
shop_orders_IsNamed = ((refl, refl), (refl, refl))

pub shop_orders_Denotes : Denotes (parse_identifier "shop.orders") (table "shop" "orders")
unfolding lacks
shop_orders_Denotes = Denotes-table "shop" "orders" refl

pub allowed : (r p : String) → requested bindings r p ≡ true → contains valid_privileges p ≡ true
unfolding requested to_upper ascii_upper
allowed r p h = ground arith
