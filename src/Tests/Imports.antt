-- ===== src/Tests/Imports.antt =====
-- What is imported from the database in memory.
use terraform_provider_scyll.Base.{◌≡◌, refl, List, [], ◌∷◌, text_discrete}
use terraform_provider_scyll.Base.Dict
use terraform_provider_scyll.Go.Strings.{to_upper, split_n}
use terraform_provider_scyll.Go.Strings.Upper.{is_upper_ascii}
use terraform_provider_scyll.Cql.{resource_path}
use terraform_provider_scyll.Cql.Lexer.{is_word}
use terraform_provider_scyll.Scylladb.Grant.{get_resource_name}
use terraform_provider_scyll.Scylladb.Authoritative.{
  parse_identifier, get_all_role_permissions_per_id, collect_rows, close_map,
}
use terraform_provider_scyll.Scylladb.Bindings.{bindings_of}
use terraform_provider_scyll.Provider.Framework.{known, done, failed, value_from}
use terraform_provider_scyll.Provider.Domains.{GrantModel, get_grants_from_role_bindings}
use terraform_provider_scyll.Provider.TableGrants
use terraform_provider_scyll.Provider.TableGrants.Imported as TableImported
use terraform_provider_scyll.Provider.TableGrants.Imported.{
  table_import-exact, table_import_refused,
}
use terraform_provider_scyll.Provider.KeyspaceGrants
use terraform_provider_scyll.Provider.KeyspaceGrants.Imported as KeyspaceImported
use terraform_provider_scyll.Provider.KeyspaceGrants.Imported.{
  keyspace_import-exact, keyspace_import_refused,
}
use terraform_provider_scyll.Tests.Ascii.{ascii, ascii_upper, in_order}
use terraform_provider_scyll.Tests.Memory.{
  Held, memory_session, memory_database, read_roles, rows_of,
}
use terraform_provider_scyll.Tests.Fixtures.{cluster}
use terraform_provider_scyll.Tests.Resources.{table_model, keyspace_model, lacks_period}

abbrev held : List Held
held =
    record { role = "old"; path = "data/shop/orders"; privilege = "ALTER" }
    ∷ record { role = "old"; path = "data/shop"; privilege = "ALTER" }
    ∷ []

abbrev old_grants : List GrantModel
old_grants = record { role = known "old"; privileges = known (known "ALTER" ∷ []) } ∷ []

table_import_run :
    (TableGrants.import_state memory_session in_order in_order in_order cluster "shop.orders"
      held).0
    ≡ done (table_model (known "shop.orders") old_grants)
unfolding TableGrants.import_state bindings_of get_grants_from_role_bindings
    get_all_role_permissions_per_id collect_rows close_map get_resource_name parse_identifier
    to_upper ascii_upper split_n text_discrete read_roles rows_of resource_path Dict.lookup
    Dict.insert Dict.keys is_word is_upper_ascii value_from
table_import_run = refl

keyspace_import_run :
    (KeyspaceGrants.import_state memory_session in_order in_order in_order cluster "shop" held).0
    ≡ done (keyspace_model (known "shop") old_grants)
unfolding KeyspaceGrants.import_state bindings_of get_grants_from_role_bindings
    get_all_role_permissions_per_id collect_rows close_map get_resource_name parse_identifier
    to_upper ascii_upper split_n text_discrete read_roles rows_of resource_path Dict.lookup
    Dict.insert Dict.keys is_word is_upper_ascii value_from
keyspace_import_run = refl

table_import-exact_example :
    TableImported.IsImported memory_session memory_database in_order in_order in_order cluster refl
      held "shop" "orders" lacks_period
      (table_model (known "shop.orders") old_grants)
table_import-exact_example =
    table_import-exact memory_session memory_database in_order in_order in_order cluster refl held
      "shop" "orders" lacks_period (table_model (known "shop.orders") old_grants) table_import_run

keyspace_import-exact_example :
    KeyspaceImported.IsImported memory_session memory_database in_order in_order in_order cluster
      refl held "shop" lacks_period
      (keyspace_model (known "shop") old_grants)
keyspace_import-exact_example =
    keyspace_import-exact memory_session memory_database in_order in_order in_order cluster refl
      held "shop" lacks_period (keyspace_model (known "shop") old_grants) keyspace_import_run

table_import_refused_run :
    TableGrants.import_state memory_session in_order in_order in_order cluster "shop" held
    ≡ (failed (TableGrants.import_error "shop" ∷ []), held)
table_import_refused_run =
    table_import_refused memory_session memory_database in_order in_order in_order cluster refl held
      "shop" lacks_period

keyspace_import_refused_run :
    KeyspaceGrants.import_state memory_session in_order in_order in_order cluster "shop.orders" held
    ≡ (failed (KeyspaceGrants.import_error "shop.orders" ∷ []), held)
keyspace_import_refused_run =
    keyspace_import_refused memory_session memory_database in_order in_order in_order cluster refl
      held "shop" "orders" lacks_period
