-- ===== src/Tests/Rendering.antt =====
-- Statements, resource names and identifiers on concrete names.
use terraform_provider_scyll.Base.{◌≡◌, refl, some}
use terraform_provider_scyll.Go.Strings.{lacks, split}
use terraform_provider_scyll.Cql.{grant, table, keyspace, resource_path, parse}
use terraform_provider_scyll.Cql.Lexer.{is_word}
use terraform_provider_scyll.Scylladb.Grant.{Grant, create_query, get_resource_name}
use terraform_provider_scyll.Scylladb.Grant.Render.{grant_for, parse-query}
use terraform_provider_scyll.Scylladb.Grant.Resource.{get_resource_name-grant_for}
use terraform_provider_scyll.Scylladb.Authoritative.{parse_identifier}
use terraform_provider_scyll.Scylladb.Authoritative.Identifier.{
  parse_identifier_keyspace, parse_identifier_table,
}
use terraform_provider_scyll.Provider.GrantResource.{grant_id, grant_of_parts}
use terraform_provider_scyll.Provider.GrantResource.Import.{grant_of_parts-grant_id}
use terraform_provider_scyll.Tests.Ascii.{ascii}

create_query_run :
    create_query (grant_for "SELECT" (table "shop" "orders") "app")
    ≡ "GRANT SELECT ON TABLE \"shop\".\"orders\" TO \"app\""
unfolding create_query grant_for
create_query_run = refl

parse-query_example :
    parse (create_query (grant_for "SELECT" (table "shop" "orders") "app"))
    ≡ some (record {
      verb = grant;
      privilege = "SELECT";
      resource = table "shop" "orders";
      grantee = "app";
    })
unfolding lacks is_word
parse-query_example =
    parse-query "SELECT" (table "shop" "orders") "app" (refl, refl) ((refl, refl), (refl, refl))
      refl grant

orders_named : get_resource_name (grant_for "SELECT" (keyspace "shop") "app") ≡ "data/shop"
unfolding resource_path
orders_named = get_resource_name-grant_for "SELECT" (keyspace "shop") "app"

keyspace_identified :
    parse_identifier "shop"
    ≡ record { resource_type = "KEYSPACE"; keyspace = "shop"; table = ""; original = "shop" }
unfolding lacks
keyspace_identified = parse_identifier_keyspace "shop" refl

-- A period in the name of a table is part of it.
table_identified : parse_identifier "shop.orders.old" ≡ record {
  resource_type = "TABLE";
  keyspace = "shop";
  table = "orders.old";
  original = "shop.orders.old";
}
unfolding lacks
table_identified = parse_identifier_table "shop" "orders.old" refl

abbrev select_orders : Grant
select_orders = record {
  role_name = "app";
  privilege = "SELECT";
  resource_type = "TABLE";
  keyspace = "shop";
  identifier = "orders";
}

grant_id_read_back : grant_of_parts (split "|" "app|SELECT|TABLE|shop|orders") ≡ some select_orders
unfolding lacks grant_id
grant_id_read_back = grant_of_parts-grant_id select_orders (refl, refl, refl, refl, refl)
