-- ===== src/Tests/Reconcile.antt =====
-- Runs of `ApplyAuthoritativeGrant` on the database in memory.
use terraform_provider_scyll.Base.{
  String, ◌≡◌, refl, true, List, [], ◌∷◌, text_discrete, ◌==◌, if◌then◌else◌,
}
use terraform_provider_scyll.Base.Dict
use terraform_provider_scyll.Base.Exec.{Error, Exec, ok, err}
use terraform_provider_scyll.Go.Strings.{to_upper, split_n}
use terraform_provider_scyll.Go.Strings.Upper.{is_upper_ascii}
use terraform_provider_scyll.Cql.{table, resource_path, parse, parse_tokens}
use terraform_provider_scyll.Cql.Lexer.{is_word, tokens, run, finish}
use terraform_provider_scyll.Scylladb.Grant.{
  get_resource_name, create_grant, delete_grant, create_query, delete_query,
}
use terraform_provider_scyll.Scylladb.Authoritative.{
  AuthoritativeBinding, parse_identifier, apply_authoritative_grant, validate_bindings, validate,
  validate_privileges, add_bindings, add_current, add_privileges, get_all_role_permissions_per_id,
  revoke_roles, revoke_privileges, grant_roles, grant_privileges, collect_rows, close_map,
}
use terraform_provider_scyll.Scylladb.Authoritative.Requested.{requested}
use terraform_provider_scyll.Scylladb.Authoritative.Apply.{apply-exact}
use terraform_provider_scyll.Scylladb.Authoritative.Outcome.{apply-untouched, apply-refused}
use terraform_provider_scyll.Scylladb.Authoritative.Accepted.{apply-reconciles}
use terraform_provider_scyll.Tests.Ascii.{ascii, ascii_upper, in_order}
use terraform_provider_scyll.Tests.Memory.{
  memory-IsAccepting, Held, memory_session, memory_database, run_statement, read_roles, rows_of,
  memory_granted,
}
use terraform_provider_scyll.Tests.Fixtures.{
  cluster, before, bindings, app_IsRole, held_before, shop_orders_IsNamed, shop_orders_Denotes,
  allowed,
}

apply : List AuthoritativeBinding → Exec (List Held) (Unit {0})
unfolding apply_authoritative_grant validate_bindings validate validate_privileges add_bindings
    add_current add_privileges get_all_role_permissions_per_id revoke_roles revoke_privileges
    grant_roles grant_privileges collect_rows close_map create_grant delete_grant create_query
    delete_query get_resource_name parse_identifier to_upper ascii_upper split_n text_discrete
    run_statement read_roles rows_of parse tokens run finish parse_tokens resource_path Dict.lookup
    Dict.insert Dict.keys is_word is_upper_ascii
apply = apply_authoritative_grant memory_session in_order cluster (parse_identifier "shop.orders")

-- A revocation for each role, a privilege kept in another case, and one that was missing.
apply_run : apply bindings before ≡ (
  ok tt,
  record { role = "app"; path = "data/shop/orders"; privilege = "MODIFY" }
      ∷ record { role = "app"; path = "data/shop/orders"; privilege = "SELECT" }
      ∷ record { role = "old"; path = "data/shop"; privilege = "ALTER" }
      ∷ [],
)
unfolding apply
apply_run = refl

apply-exact_example :
    memory_granted (apply bindings before).1 "app" "data/shop/orders" "MODIFY" ≡ true
unfolding apply requested
apply-exact_example =
    apply-exact memory_session memory_database in_order cluster refl
      (parse_identifier "shop.orders") (table "shop" "orders") shop_orders_Denotes
      shop_orders_IsNamed bindings before (app_IsRole, tt)
      (λ r p. held_before r "data/shop/orders" p) refl "app" "data/shop/orders" "MODIFY"

apply-untouched_example :
    memory_granted (apply bindings before).1 "old" "data/shop" "ALTER"
    ≡ memory_granted before "old" "data/shop" "ALTER"
unfolding apply
apply-untouched_example =
    apply-untouched memory_session memory_database in_order cluster refl
      (parse_identifier "shop.orders") (table "shop" "orders") shop_orders_Denotes
      shop_orders_IsNamed bindings before (app_IsRole, tt)
      (λ r p. held_before r "data/shop/orders" p) "old" "data/shop" "ALTER" refl

apply-reconciles_example :
    ((apply bindings before).0 ≡ ok tt)
    × ((r path p : String)
        → memory_granted (apply bindings before).1 r path p ≡ (
            if path == "data/shop/orders"
            then requested bindings r p
            else memory_granted before r path p))
unfolding apply resource_path
apply-reconciles_example =
    apply-reconciles memory_session memory_database memory-IsAccepting in_order cluster refl
      (parse_identifier "shop.orders") (table "shop" "orders") shop_orders_Denotes
      shop_orders_IsNamed bindings before (app_IsRole, tt)
      (λ r p. held_before r "data/shop/orders" p) allowed

-- A binding that names a privilege of roles
abbrev refused : List AuthoritativeBinding
refused = record { privileges = "describe" ∷ []; role = "app" } ∷ []

apply-refused_example : (e : Error) × (apply refused before ≡ (err e, before))
unfolding apply requested
apply-refused_example =
    apply-refused memory_session in_order cluster (parse_identifier "shop.orders") refused before
      "app" "DESCRIBE" refl refl
