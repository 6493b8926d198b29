-- ===== src/Tests/Drift.antt =====
-- `ModifyPlan` of the grant resource on the database in memory.
use terraform_provider_scyll.Base.{String, ◌≡◌, ◌≢◌, ◌⊎◌, refl, some, List, [], ◌∷◌, text_discrete}
use terraform_provider_scyll.Base.Dict
use terraform_provider_scyll.Go.Strings.{to_upper}
use terraform_provider_scyll.Go.Strings.Upper.{is_upper_ascii}
use terraform_provider_scyll.Cql.{parse, parse_tokens, resource_path}
use terraform_provider_scyll.Cql.Lexer.{is_word, tokens, run, finish}
use terraform_provider_scyll.Scylladb.Grant.{
  create_grant, delete_grant, update_grant, create_query, delete_query, get_resource_name,
  get_role_permissions, get_grant_permissions,
}
use terraform_provider_scyll.Provider.Framework.{
  Value, known, unknown, Fallible, done, elements_as, value_from,
}
use terraform_provider_scyll.Provider.GrantResource.{
  GrantResourceModel, grant_of, grant_id, plan_kept, permissions_replaced, create, update,
  modify_plan,
}
use terraform_provider_scyll.Provider.GrantResource.Drift.{
  create-modify_plan, update-modify_plan, modify_plan-drift,
}
use terraform_provider_scyll.Tests.Ascii.{ascii, ascii_upper}
use terraform_provider_scyll.Tests.Memory.{Held, memory_session, run_statement, read_role, rows_of}
use terraform_provider_scyll.Tests.Fixtures.{cluster}

abbrev pub model : Value String → String → Value (List (Value String)) → GrantResourceModel
model id privilege permissions = record {
  id = id;
  role_name = known "app";
  privilege = known privilege;
  resource_type = known "TABLE";
  keyspace = known "shop";
  identifier = known "orders";
  permissions = permissions;
}

abbrev pub selected : GrantResourceModel
selected = model (known "app|SELECT|TABLE|shop|orders") "SELECT" (known (known "SELECT" ∷ []))

abbrev pub altered : GrantResourceModel
altered = model (known "app|ALTER|TABLE|shop|orders") "ALTER" (known (known "ALTER" ∷ []))

abbrev created : Fallible GrantResourceModel × List Held
created = create memory_session cluster (done (model unknown "SELECT" unknown)) []

create-modify_plan_example :
    modify_plan memory_session cluster (some (done selected)) (some (done altered)) created.1
    ≡ (done plan_kept, created.1)
unfolding create grant_of grant_id get_grant_permissions get_role_permissions get_resource_name
    create_grant create_query to_upper ascii_upper text_discrete run_statement read_role rows_of
    parse tokens run finish parse_tokens resource_path Dict.lookup Dict.insert is_word
    is_upper_ascii value_from
create-modify_plan_example =
    create-modify_plan memory_session cluster (model unknown "SELECT" unknown) selected
      (done altered) [] refl

abbrev pub held : List Held
held = record { role = "app"; path = "data/shop/orders"; privilege = "SELECT" } ∷ []

abbrev pub updated : Fallible GrantResourceModel × List Held
updated = update memory_session cluster (done selected) (done (model unknown "ALTER" unknown)) held

update-modify_plan_example :
    modify_plan memory_session cluster (some (done altered)) (some (done selected)) updated.1
    ≡ (done plan_kept, updated.1)
unfolding update grant_of grant_id get_grant_permissions get_role_permissions get_resource_name
    create_grant delete_grant update_grant create_query delete_query to_upper ascii_upper
    text_discrete run_statement read_role rows_of parse tokens run finish parse_tokens resource_path
    Dict.lookup Dict.insert is_word is_upper_ascii value_from elements_as
update-modify_plan_example =
    update-modify_plan memory_session cluster selected (model unknown "ALTER" unknown) altered
      (done selected) held refl

abbrev there : List String
there = "SELECT" ∷ []

abbrev recorded : List String
recorded = "ALTER" ∷ []

-- The state recorded another permission than the one that is there.
modify_plan-drift_example :
    ((there ≡ recorded)
      × (modify_plan memory_session cluster (some (done altered)) (some (done altered)) held
          ≡ (done plan_kept, held)))
    ⊎ ((there ≢ recorded)
        × (modify_plan memory_session cluster (some (done altered)) (some (done altered)) held ≡ (
          done
              (permissions_replaced (record altered { permissions = known (known "SELECT" ∷ []) })),
          held,
        )))
unfolding grant_of get_grant_permissions get_role_permissions get_resource_name to_upper ascii_upper
    text_discrete read_role rows_of Dict.lookup Dict.insert is_word is_upper_ascii value_from
    elements_as
modify_plan-drift_example =
    modify_plan-drift memory_session cluster altered altered there recorded held refl refl
