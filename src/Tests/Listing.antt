-- ===== src/Tests/Listing.antt =====
-- The list of the permissions of a table of the database in memory
use terraform_provider_scyll.Base.{
  String, ◌≡◌, ◌↔◌, refl, true, List, [], ◌∷◌, contains, text_discrete,
}
use terraform_provider_scyll.Base.Dict
use terraform_provider_scyll.Base.Exec.{Exec}
use terraform_provider_scyll.Go.Slices.{sort, insert_sorted}
use terraform_provider_scyll.Go.Strings.{to_upper, split_n}
use terraform_provider_scyll.Go.Strings.Upper.{is_upper_ascii}
use terraform_provider_scyll.Cql.{table, resource_path}
use terraform_provider_scyll.Cql.Lexer.{is_word}
use terraform_provider_scyll.Scylladb.Grant.{get_resource_name}
use terraform_provider_scyll.Scylladb.Authoritative.{
  parse_identifier, get_all_role_permissions_per_id, collect_rows, close_map,
}
use terraform_provider_scyll.Scylladb.Bindings.{
  add_effective_roles, add_effective, get_effective_permissions,
}
use terraform_provider_scyll.Scylladb.Bindings.Effective
use terraform_provider_scyll.Scylladb.Bindings.Effective.{get_effective_permissions-exact}
use terraform_provider_scyll.Tests.Ascii.{ascii, ascii_upper, in_order}
use terraform_provider_scyll.Tests.Memory.{
  Held, memory_session, memory_database, read_roles, rows_of,
}
use terraform_provider_scyll.Tests.Fixtures.{cluster, before, shop_orders_Denotes}

abbrev sorted : List String
sorted = "shop.orders:app:DROP" ∷ "shop.orders:app:SELECT" ∷ "shop.orders:old:ALTER" ∷ []

list_all : Exec (List Held) (List String)
unfolding get_effective_permissions add_effective_roles add_effective sort insert_sorted
    get_all_role_permissions_per_id collect_rows close_map get_resource_name parse_identifier
    to_upper ascii_upper split_n text_discrete read_roles rows_of resource_path Dict.lookup
    Dict.insert Dict.keys is_word is_upper_ascii
list_all =
    get_effective_permissions memory_session in_order cluster (parse_identifier "shop.orders")

get_effective_permissions-exact_example :
    (contains sorted "shop.orders:app:SELECT" ≡ true)
    ↔ Effective.IsEntry memory_session memory_database in_order cluster refl
        (parse_identifier "shop.orders")
        (table "shop" "orders")
        shop_orders_Denotes
        before
        "shop.orders:app:SELECT"
unfolding list_all
get_effective_permissions-exact_example =
    get_effective_permissions-exact memory_session memory_database in_order cluster refl
      (parse_identifier "shop.orders") (table "shop" "orders") shop_orders_Denotes before sorted
      "shop.orders:app:SELECT" refl
