-- ===== src/Tests/Resources.antt =====
-- The handlers of the grants resources on the database in memory.
use terraform_provider_scyll.Base.{
  String, ◌≡◌, refl, true, false, List, [], ◌∷◌, text_discrete, arith, contains, ◌==◌, ◌↔◌,
  Distinct, if◌then◌else◌,
}
use terraform_provider_scyll.Base.Dict
use terraform_provider_scyll.Go.Strings.{to_upper, split_n, lacks}
use terraform_provider_scyll.Go.Slices.{sort, insert_sorted}
use terraform_provider_scyll.Go.Strings.Upper.{is_upper_ascii}
use terraform_provider_scyll.Cql.{table, keyspace, resource_path}
use terraform_provider_scyll.Cql.Lexer.{is_word}
use terraform_provider_scyll.Scylladb.Grant.{get_resource_name}
use terraform_provider_scyll.Scylladb.Grant.Render.{IsNamed}
use terraform_provider_scyll.Scylladb.Authoritative.{
  AuthoritativeBinding, valid_privileges, parse_identifier, get_all_role_permissions_per_id,
  collect_rows, close_map,
}
use terraform_provider_scyll.Scylladb.Authoritative.Requested.{requested}
use terraform_provider_scyll.Scylladb.Bindings.{get_all_role_bindings_per_id, bindings_of}
use terraform_provider_scyll.Provider.Framework.{
  Value, known, unknown, null, Fallible, done, elements_as, value_from,
}
use terraform_provider_scyll.Provider.Domains.{
  GrantModel, get_grants_from_role_bindings, bindings_from_grants,
}
use terraform_provider_scyll.Provider.Domains.RoundTrip.{bindings_from_grants-get_grants}
use terraform_provider_scyll.Provider.Validators.{validate_set, roles_of}
use terraform_provider_scyll.Provider.Validators.Unique.{known_roles, validate_set-Distinct}
use terraform_provider_scyll.Provider.TableGrants
use terraform_provider_scyll.Provider.TableGrants.{TableGrantsResourceModel}
use terraform_provider_scyll.Provider.TableGrants.Laws.{
  table_read-exact, table_delete-exact, table_read-update_idle,
}
use terraform_provider_scyll.Provider.KeyspaceGrants
use terraform_provider_scyll.Provider.KeyspaceGrants.{KeyspaceGrantsResourceModel}
use terraform_provider_scyll.Provider.KeyspaceGrants.Laws.{
  keyspace_read-exact, keyspace_delete-exact, keyspace_read-update_idle,
}
use terraform_provider_scyll.Tests.Ascii.{ascii, ascii_upper, in_order}
use terraform_provider_scyll.Tests.Memory.{
  Held, memory_session, memory_database, memory-IsAccepting, read_roles, rows_of, memory_granted,
}
use terraform_provider_scyll.Tests.Fixtures.{
  cluster, before, bindings, held_before, shop_orders_IsNamed,
}

abbrev pub planned : List GrantModel
planned =
    record { role = known "app"; privileges = known (known "select" ∷ known "Modify" ∷ []) } ∷ []

pub planned-bindings : bindings_from_grants planned ≡ done bindings
unfolding bindings_from_grants elements_as
planned-bindings = refl

abbrev pub table_model : Value String → List GrantModel → TableGrantsResourceModel
table_model id grants = record {
  id = id;
  keyspace = known "shop";
  table = known "orders";
  grants = grants;
}

abbrev pub keyspace_model : Value String → List GrantModel → KeyspaceGrantsResourceModel
keyspace_model id grants = record { id = id; keyspace = known "shop"; grants = grants }

pub lacks_period : lacks "." "shop" ≡ true
unfolding lacks
lacks_period = refl

pub shop_IsNamed : IsNamed (keyspace "shop")
unfolding lacks
shop_IsNamed = (refl, refl)

abbrev table_deleted : Fallible (Unit {0}) × List Held
table_deleted =
    TableGrants.delete memory_session in_order in_order in_order cluster
      (done (table_model (known "shop.orders") planned)) before

table_delete-exact_example :
    (table_deleted.0 ≡ done tt)
    × ((r path p : String)
        → memory_granted table_deleted.1 r path p
          ≡ (if path == "data/shop/orders" then false else memory_granted before r path p))
unfolding resource_path
table_delete-exact_example =
    table_delete-exact memory_session memory_database in_order in_order in_order cluster refl "shop"
      "orders" lacks_period shop_orders_IsNamed before memory-IsAccepting unknown planned
      (λ r p. held_before r "data/shop/orders" p)

abbrev keyspace_deleted : Fallible (Unit {0}) × List Held
keyspace_deleted =
    KeyspaceGrants.delete memory_session in_order in_order in_order cluster
      (done (keyspace_model unknown planned)) before

keyspace_delete-exact_example :
    (keyspace_deleted.0 ≡ done tt)
    × ((r path p : String)
        → memory_granted keyspace_deleted.1 r path p
          ≡ (if path == "data/shop" then false else memory_granted before r path p))
unfolding resource_path
keyspace_delete-exact_example =
    keyspace_delete-exact memory_session memory_database in_order in_order in_order cluster refl
      "shop" lacks_period shop_IsNamed before memory-IsAccepting unknown planned
      (λ r p. held_before r "data/shop" p)

abbrev reached : List Held
reached = record { role = "old"; path = "data/shop"; privilege = "ALTER" } ∷ []

abbrev seen : List AuthoritativeBinding
seen = record { role = "old"; privileges = "ALTER" ∷ [] } ∷ []

abbrev table_seen : TableGrantsResourceModel
table_seen = table_model (known "shop.orders") []

abbrev keyspace_seen : KeyspaceGrantsResourceModel
keyspace_seen =
    keyspace_model (known "shop")
      (record { role = known "old"; privileges = known (known "ALTER" ∷ []) } ∷ [])

table_read_run :
    (TableGrants.read memory_session in_order in_order in_order cluster
      (done (table_model (known "shop.orders") planned))
      reached).0
    ≡ done table_seen
unfolding TableGrants.read get_all_role_bindings_per_id bindings_of sort insert_sorted
    get_grants_from_role_bindings get_all_role_permissions_per_id collect_rows close_map
    get_resource_name parse_identifier to_upper ascii_upper split_n text_discrete read_roles rows_of
    resource_path Dict.lookup Dict.insert Dict.keys is_word is_upper_ascii value_from
table_read_run = refl

keyspace_read_run :
    (KeyspaceGrants.read memory_session in_order in_order in_order cluster
      (done (keyspace_model (known "shop") planned))
      reached).0
    ≡ done keyspace_seen
unfolding KeyspaceGrants.read get_all_role_bindings_per_id bindings_of sort insert_sorted
    get_grants_from_role_bindings get_all_role_permissions_per_id collect_rows close_map
    get_resource_name parse_identifier to_upper ascii_upper split_n text_discrete read_roles rows_of
    resource_path Dict.lookup Dict.insert Dict.keys is_word is_upper_ascii value_from
keyspace_read_run = refl

table_read_bindings :
    (bs : List AuthoritativeBinding) × (bindings_from_grants [] ≡ done bs)
    × ((r p : String) → requested bs r p ≡ memory_granted reached r "data/shop/orders" p)
unfolding resource_path
table_read_bindings =
    table_read-exact memory_session memory_database in_order in_order in_order cluster refl "shop"
      "orders" lacks_period shop_orders_IsNamed reached unknown planned table_seen table_read_run

keyspace_read_bindings :
    (bs : List AuthoritativeBinding) × (bindings_from_grants keyspace_seen.grants ≡ done bs)
    × ((r p : String) → requested bs r p ≡ memory_granted reached r "data/shop" p)
unfolding resource_path
keyspace_read_bindings =
    keyspace_read-exact memory_session memory_database in_order in_order in_order cluster refl
      "shop" lacks_period shop_IsNamed reached (known "shop") planned keyspace_seen
      keyspace_read_run

valid_reached :
    (path r p : String)
    → memory_granted reached r path p ≡ true
    → contains valid_privileges p ≡ true
unfolding memory_granted
valid_reached path r p h = ground arith

table_read-update_idle_example :
    TableGrants.update memory_session in_order in_order in_order cluster (done table_seen) reached
    ≡ (done table_seen, reached)
table_read-update_idle_example =
    table_read-update_idle memory_session memory_database in_order in_order in_order cluster refl
      "shop" "orders" lacks_period shop_orders_IsNamed reached planned table_seen table_read_run
      (valid_reached (resource_path (table "shop" "orders")))

keyspace_read-update_idle_example :
    KeyspaceGrants.update memory_session in_order in_order in_order cluster
      (done keyspace_seen)
      reached
    ≡ (done keyspace_seen, reached)
keyspace_read-update_idle_example =
    keyspace_read-update_idle memory_session memory_database in_order in_order in_order cluster refl
      "shop" lacks_period shop_IsNamed reached planned keyspace_seen keyspace_read_run
      (valid_reached (resource_path (keyspace "shop")))

seen_again : bindings_from_grants (get_grants_from_role_bindings seen) ≡ done seen
seen_again = bindings_from_grants-get_grants seen

-- Two grants of one role, and one whose role is not known yet
abbrev twice : List GrantModel
twice =
    record { role = known "app"; privileges = null }
    ∷ record { role = unknown; privileges = null }
    ∷ record { role = known "app"; privileges = null }
    ∷ []

validate_set-Distinct_example :
    (validate_set (known (done twice)) ≡ []) ↔ Distinct ("app" ∷ "app" ∷ [])
unfolding roles_of known_roles
validate_set-Distinct_example = validate_set-Distinct twice
