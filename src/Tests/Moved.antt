-- ===== src/Tests/Moved.antt =====
-- A grant of SELECT that becomes one of ALTER in the database in memory.
use terraform_provider_scyll.Base.{◌≡◌, refl, false, text_discrete}
use terraform_provider_scyll.Base.Dict
use terraform_provider_scyll.Go.Strings.{to_upper}
use terraform_provider_scyll.Go.Strings.Upper.{is_upper_ascii}
use terraform_provider_scyll.Cql.{table, parse, parse_tokens, resource_path}
use terraform_provider_scyll.Cql.Lexer.{is_word, tokens, run, finish}
use terraform_provider_scyll.Scylladb.Grant.{
  create_grant, delete_grant, update_grant, create_query, delete_query, get_resource_name,
  get_role_permissions, get_grant_permissions,
}
use terraform_provider_scyll.Scylladb.Grant.Render.{grant_for}
use terraform_provider_scyll.Scylladb.Database.{IsStored}
use terraform_provider_scyll.Provider.Framework.{unknown, elements_as, value_from}
use terraform_provider_scyll.Provider.GrantResource.{grant_of, grant_id, update}
use terraform_provider_scyll.Provider.GrantResource.Moved.{Single, update-moved, update-elsewhere}
use terraform_provider_scyll.Tests.Ascii.{ascii, ascii_upper}
use terraform_provider_scyll.Tests.Memory.{
  memory_session, memory_database, memory_granted, run_statement, read_role, rows_of,
}
use terraform_provider_scyll.Tests.Fixtures.{cluster, app_IsRole, shop_orders_IsNamed}
use terraform_provider_scyll.Tests.Drift.{model, selected, altered, held, updated}

pub select-IsStored : IsStored "SELECT"
unfolding is_word is_upper_ascii
select-IsStored = ((refl, refl), refl)

pub alter-IsStored : IsStored "ALTER"
unfolding is_word is_upper_ascii
alter-IsStored = ((refl, refl), refl)

abbrev pub select : Single
select = record {
  res = table "shop" "orders";
  role = "app";
  privilege = "SELECT";
  named = shop_orders_IsNamed;
  plain = app_IsRole;
  stored = select-IsStored;
}

abbrev pub alter : Single
alter = record {
  res = table "shop" "orders";
  role = "app";
  privilege = "ALTER";
  named = shop_orders_IsNamed;
  plain = app_IsRole;
  stored = alter-IsStored;
}

update-moved_example : memory_granted updated.1 "app" "data/shop/orders" "SELECT" ≡ false
unfolding update grant_of grant_for grant_id get_grant_permissions get_role_permissions
    get_resource_name create_grant delete_grant update_grant create_query delete_query to_upper
    ascii_upper text_discrete run_statement read_role rows_of parse tokens run finish parse_tokens
    resource_path Dict.lookup Dict.insert is_word is_upper_ascii value_from elements_as
update-moved_example =
    update-moved memory_session memory_database select alter cluster selected
      (model unknown "ALTER" unknown) refl refl held altered refl "app" "data/shop/orders" "SELECT"

update-elsewhere_example :
    memory_granted updated.1 "app" "data/shop" "SELECT"
    ≡ memory_granted held "app" "data/shop" "SELECT"
unfolding update grant_of grant_for grant_id get_grant_permissions get_role_permissions
    get_resource_name create_grant delete_grant update_grant create_query delete_query to_upper
    ascii_upper text_discrete run_statement read_role rows_of parse tokens run finish parse_tokens
    resource_path Dict.lookup Dict.insert is_word is_upper_ascii value_from elements_as
update-elsewhere_example =
    update-elsewhere memory_session memory_database select alter cluster selected
      (model unknown "ALTER" unknown) refl refl held "app" "data/shop" "SELECT" refl refl
