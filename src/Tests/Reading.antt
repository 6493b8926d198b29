-- ===== src/Tests/Reading.antt =====
-- What is read of the database in memory, and what does nothing or everything there.
use terraform_provider_scyll.Base.{
  String, ◌≡◌, refl, sym, ◌∙◌, true, false, List, [], ◌∷◌, text_discrete, arith, contains,
}
use terraform_provider_scyll.Base.Dict
use terraform_provider_scyll.Base.Exec.{Exec, ok}
use terraform_provider_scyll.Go.Strings.{to_upper, split_n}
use terraform_provider_scyll.Go.Slices.{sort, insert_sorted}
use terraform_provider_scyll.Go.Strings.Upper.{is_upper_ascii}
use terraform_provider_scyll.Cql.{table, resource_path, parse, parse_tokens}
use terraform_provider_scyll.Cql.Lexer.{is_word, tokens, run, finish}
use terraform_provider_scyll.Scylladb.Grant.{get_resource_name, delete_grant, delete_query}
use terraform_provider_scyll.Scylladb.Authoritative.{
  AuthoritativeBinding, valid_privileges, parse_identifier, apply_authoritative_grant,
  revoke_all_grants_on_identifier, revoke_all_roles, revoke_all_privileges,
  get_all_role_permissions_per_id, collect_rows, close_map,
}
use terraform_provider_scyll.Scylladb.Authoritative.Requested.{requested}
use terraform_provider_scyll.Scylladb.Authoritative.RevokeAll.{revoke_all-exact, revoke_all-returns}
use terraform_provider_scyll.Scylladb.Authoritative.Idle.{apply_idle}
use terraform_provider_scyll.Scylladb.Bindings.{get_all_role_bindings_per_id, bindings_of}
use terraform_provider_scyll.Scylladb.Bindings.Laws.{bindings-exact, apply-bindings_idle}
use terraform_provider_scyll.Tests.Ascii.{ascii, ascii_upper, in_order}
use terraform_provider_scyll.Tests.Memory.{
  Held, memory_session, memory_database, memory-IsAccepting, run_statement, read_roles, rows_of,
  memory_granted,
}
use terraform_provider_scyll.Tests.Fixtures.{
  cluster, before, bindings, held_before, shop_orders_IsNamed, shop_orders_Denotes,
}

revoke_all : Exec (List Held) (Unit {0})
unfolding revoke_all_grants_on_identifier revoke_all_roles revoke_all_privileges
    get_all_role_permissions_per_id collect_rows close_map delete_grant delete_query
    get_resource_name parse_identifier to_upper ascii_upper split_n text_discrete run_statement
    read_roles rows_of parse tokens run finish parse_tokens resource_path Dict.lookup Dict.insert
    Dict.keys is_word is_upper_ascii
revoke_all =
    revoke_all_grants_on_identifier memory_session in_order cluster (parse_identifier "shop.orders")

revoke_all_returned : (revoke_all before).0 ≡ ok tt
unfolding revoke_all
revoke_all_returned =
    revoke_all-returns memory_session memory_database (parse_identifier "shop.orders")
      (table "shop" "orders") shop_orders_Denotes shop_orders_IsNamed in_order cluster refl before
      (λ r p. held_before r "data/shop/orders" p) memory-IsAccepting

revoke_all_run : memory_granted (revoke_all before).1 "old" "data/shop/orders" "ALTER" ≡ false
unfolding revoke_all
revoke_all_run =
    revoke_all-exact memory_session memory_database (parse_identifier "shop.orders")
      (table "shop" "orders") shop_orders_Denotes shop_orders_IsNamed in_order cluster refl before
      (λ r p. held_before r "data/shop/orders" p) refl "old" "data/shop/orders" "ALTER"

-- The permissions that the bindings ask for
abbrev reached : List Held
reached =
    record { role = "app"; path = "data/shop/orders"; privilege = "MODIFY" }
    ∷ record { role = "app"; path = "data/shop/orders"; privilege = "SELECT" }
    ∷ record { role = "old"; path = "data/shop"; privilege = "ALTER" }
    ∷ []

abbrev seen : List AuthoritativeBinding
seen = record { role = "app"; privileges = "MODIFY" ∷ "SELECT" ∷ [] } ∷ []

read_all : Exec (List Held) (List AuthoritativeBinding)
unfolding get_all_role_bindings_per_id bindings_of sort insert_sorted
    get_all_role_permissions_per_id collect_rows close_map get_resource_name parse_identifier
    to_upper ascii_upper split_n text_discrete read_roles rows_of resource_path Dict.lookup
    Dict.insert Dict.keys is_word is_upper_ascii
read_all =
    get_all_role_bindings_per_id memory_session in_order cluster (parse_identifier "shop.orders")

read_all_run : read_all reached ≡ (ok seen, reached)
unfolding read_all
read_all_run = refl

select_seen :
    requested seen "app" "SELECT" ≡ memory_granted reached "app" "data/shop/orders" "SELECT"
unfolding read_all
select_seen =
    bindings-exact memory_session memory_database in_order cluster refl
      (parse_identifier "shop.orders") (table "shop" "orders") shop_orders_Denotes seen reached refl
      "app" "SELECT"

valid_reached :
    (r p : String)
    → memory_granted reached r "data/shop/orders" p ≡ true
    → contains valid_privileges p ≡ true
unfolding memory_granted
valid_reached r p h = ground arith

seen_idle :
    apply_authoritative_grant memory_session in_order cluster
      (parse_identifier "shop.orders")
      seen
      reached
    ≡ (ok tt, reached)
unfolding read_all
seen_idle =
    apply-bindings_idle memory_session memory_database in_order cluster refl
      (parse_identifier "shop.orders") (table "shop" "orders") shop_orders_Denotes seen reached refl
      in_order valid_reached

valid_bindings : (r p : String) → requested bindings r p ≡ true → contains valid_privileges p ≡ true
unfolding requested to_upper ascii_upper
valid_bindings r p h = ground arith

in_other_words : (r p : String) → requested seen r p ≡ requested bindings r p
unfolding requested to_upper ascii_upper
in_other_words r p = ground arith

same_reached :
    (r p : String) → memory_granted reached r "data/shop/orders" p ≡ requested bindings r p
unfolding read_all
same_reached r p =
    sym (
      bindings-exact memory_session memory_database in_order cluster refl
        (parse_identifier "shop.orders") (table "shop" "orders") shop_orders_Denotes seen reached
        refl r p)
    ∙ in_other_words r p

apply_idle_run :
    apply_authoritative_grant memory_session in_order cluster
      (parse_identifier "shop.orders")
      bindings
      reached
    ≡ (ok tt, reached)
unfolding read_all
apply_idle_run =
    apply_idle memory_session memory_database in_order cluster refl (parse_identifier "shop.orders")
      (table "shop" "orders") shop_orders_Denotes bindings reached refl valid_bindings same_reached
