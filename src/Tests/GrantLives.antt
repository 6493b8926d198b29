-- ===== src/Tests/GrantLives.antt =====
-- A grant of SELECT that becomes one of ALTER and is deleted, in the database in memory.
use terraform_provider_scyll.Base.{◌≡◌, refl, none, some, List, [], ◌⊎◌, inl, inr, text_discrete}
use terraform_provider_scyll.Base.Dict
use terraform_provider_scyll.Go.Strings.{to_upper}
use terraform_provider_scyll.Go.Strings.Upper.{is_upper_ascii}
use terraform_provider_scyll.Cql.{parse, parse_tokens, resource_path}
use terraform_provider_scyll.Cql.Lexer.{is_word, tokens, run, finish}
use terraform_provider_scyll.Scylladb.Grant.{
  create_grant, delete_grant, update_grant, create_query, delete_query, get_resource_name,
  get_role_permissions, get_grant_permissions,
}
use terraform_provider_scyll.Scylladb.Grant.Render.{grant_for}
use terraform_provider_scyll.Provider.Framework.{unknown, done, elements_as, value_from}
use terraform_provider_scyll.Provider.GrantResource.{
  GrantResourceModel, grant_of, grant_id, create, update,
}
use terraform_provider_scyll.Provider.GrantResource.Moved.{Single}
use terraform_provider_scyll.Provider.GrantResource.Life.{
  GrantLife, here, next, creates, updates, IsSole,
}
use terraform_provider_scyll.Provider.GrantResource.Life.Sole.{GrantLife-IsSole}
use terraform_provider_scyll.Provider.Lifecycle.{World}
use terraform_provider_scyll.Tests.Ascii.{ascii, ascii_upper}
use terraform_provider_scyll.Tests.Memory.{
  Held, memory_session, memory_database, run_statement, read_role, rows_of,
}
use terraform_provider_scyll.Tests.Fixtures.{cluster}
use terraform_provider_scyll.Tests.Drift.{model, selected, altered}
use terraform_provider_scyll.Tests.Moved.{select, alter}

-- The plans are of one of the two.
abbrev Planned : Single → Type 0
Planned g = (g ≡ select) ⊎ (g ≡ alter)

abbrev unmanaged : World GrantResourceModel (List Held)
unmanaged = record { managed = none; database = [] }

abbrev created : World GrantResourceModel (List Held)
created = record {
  managed = some selected;
  database = (create memory_session cluster (done (model unknown "SELECT" unknown)) []).1;
}

abbrev moved : World GrantResourceModel (List Held)
moved = record {
  managed = some altered;
  database =
      (update memory_session cluster (done selected) (done (model unknown "ALTER" unknown))
        created.database).1;
}

life : GrantLife memory_session cluster Planned unmanaged moved
unfolding create update grant_of grant_for grant_id get_grant_permissions get_role_permissions
    get_resource_name create_grant delete_grant update_grant create_query delete_query to_upper
    ascii_upper text_discrete run_statement read_role rows_of parse tokens run finish parse_tokens
    resource_path Dict.lookup Dict.insert is_word is_upper_ascii value_from elements_as
life =
    next
      (next here
        (creates select (model unknown "SELECT" unknown) selected (inl refl) refl refl refl))
      (updates alter (model unknown "ALTER" unknown) selected altered (inr refl) refl refl refl)

GrantLife-IsSole_example : IsSole memory_session memory_database Planned [] moved
GrantLife-IsSole_example =
    GrantLife-IsSole memory_session memory_database cluster Planned [] moved life
