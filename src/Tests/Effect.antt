-- ===== src/Tests/Effect.antt =====
-- A grant created and deleted in the database in memory.
use terraform_provider_scyll.Base.{String, ◌≡◌, refl, true, false, List, [], ◌∷◌, text_discrete}
use terraform_provider_scyll.Base.Dict
use terraform_provider_scyll.Go.Strings.{to_upper}
use terraform_provider_scyll.Go.Strings.Upper.{is_upper_ascii}
use terraform_provider_scyll.Cql.{table, parse, parse_tokens, resource_path}
use terraform_provider_scyll.Cql.Lexer.{is_word, tokens, run, finish}
use terraform_provider_scyll.Scylladb.Grant.{
  create_grant, delete_grant, create_query, delete_query, get_resource_name, get_role_permissions,
  get_grant_permissions,
}
use terraform_provider_scyll.Scylladb.Grant.Render.{grant_for}
use terraform_provider_scyll.Scylladb.Database.{IsStored}
use terraform_provider_scyll.Provider.Framework.{Value, known, unknown, done, value_from}
use terraform_provider_scyll.Provider.GrantResource.{
  GrantResourceModel, grant_of, grant_id, create, delete,
}
use terraform_provider_scyll.Provider.GrantResource.Effect.{create-granted, delete-revoked}
use terraform_provider_scyll.Tests.Ascii.{ascii, ascii_upper}
use terraform_provider_scyll.Tests.Memory.{
  Held, memory_session, memory_database, memory_granted, run_statement, read_role, rows_of,
}
use terraform_provider_scyll.Tests.Fixtures.{cluster, app_IsRole, shop_orders_IsNamed}

abbrev model : Value String → Value (List (Value String)) → GrantResourceModel
model id permissions = record {
  id = id;
  role_name = known "app";
  privilege = known "SELECT";
  resource_type = known "TABLE";
  keyspace = known "shop";
  identifier = known "orders";
  permissions = permissions;
}

abbrev selected : GrantResourceModel
selected = model (known "app|SELECT|TABLE|shop|orders") (known (known "SELECT" ∷ []))

select-IsStored : IsStored "SELECT"
unfolding is_word is_upper_ascii
select-IsStored = ((refl, refl), refl)

stands :
    (id : Value String) (permissions : Value (List (Value String)))
    → grant_of (model id permissions) ≡ grant_for "SELECT" (table "shop" "orders") "app"
unfolding grant_of grant_for
stands id permissions = refl

create-granted_example :
    memory_granted
      (create memory_session cluster (done (model unknown unknown)) []).1
      "app"
      "data/shop/orders"
      "SELECT"
    ≡ true
unfolding create grant_of grant_id get_grant_permissions get_role_permissions get_resource_name
    create_grant create_query to_upper ascii_upper text_discrete run_statement read_role rows_of
    parse tokens run finish parse_tokens resource_path Dict.lookup Dict.insert is_word
    is_upper_ascii value_from
create-granted_example =
    create-granted memory_session memory_database (table "shop" "orders") shop_orders_IsNamed "app"
      "SELECT" app_IsRole select-IsStored (model unknown unknown) (stands unknown unknown) []
      cluster selected refl "app" "data/shop/orders" "SELECT"

abbrev held : List Held
held = record { role = "app"; path = "data/shop/orders"; privilege = "SELECT" } ∷ []

delete_run :
    memory_granted (delete memory_session (done selected) held).1 "app" "data/shop/orders" "SELECT"
    ≡ false
unfolding delete grant_of delete_grant delete_query text_discrete run_statement parse tokens run
    finish parse_tokens resource_path is_word is_upper_ascii
delete_run =
    delete-revoked memory_session memory_database (table "shop" "orders") shop_orders_IsNamed "app"
      "SELECT" app_IsRole select-IsStored selected
      (stands (known "app|SELECT|TABLE|shop|orders") (known (known "SELECT" ∷ []))) held refl "app"
      "data/shop/orders" "SELECT"
