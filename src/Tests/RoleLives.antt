-- ===== src/Tests/RoleLives.antt =====
-- A role that is created, made a superuser, read and deleted in the table in memory.
use terraform_provider_scyll.Base.{refl, true, false, none, some, [], ◌∷◌, text_discrete}
use terraform_provider_scyll.Base.Dict
use terraform_provider_scyll.Base.Dict.{Dict}
use terraform_provider_scyll.Go.Strings.{lacks, split_n}
use terraform_provider_scyll.Scylladb.Session.{RoleRow}
use terraform_provider_scyll.Scylladb.Role.{
  create_role, create_role_query, update_role, update_role_query, delete_role, delete_role_query,
  role_options, validate_role_name, get_role, role_of_scan,
}
use terraform_provider_scyll.Provider.Framework.{
  null, known, unknown, done, value_from, list_value_from,
}
use terraform_provider_scyll.Provider.RoleResource.{
  RoleResourceModel, plan_to_role, read_role_result, state_of_role, create, read, update, delete,
}
use terraform_provider_scyll.Provider.RoleResource.Found.{stored, plan, row_of}
use terraform_provider_scyll.Provider.RoleResource.Life.{
  RoleLife, here, next, creates, updates, refreshes, deletes, IsRecorded, RoleLife-IsRecorded,
}
use terraform_provider_scyll.Provider.Lifecycle.{World}
use terraform_provider_scyll.Tests.Ascii.{ascii}
use terraform_provider_scyll.Tests.Fixtures.{cluster}
use terraform_provider_scyll.Tests.RoleTable.{role_session, role_database, perform, alter, erase}

abbrev Table : Type 0
Table = World RoleResourceModel (Dict RoleRow)

abbrev dev : RoleRow
dev = row_of "dev" false false none

abbrev start : Dict RoleRow
start = ("dev", dev) ∷ []

abbrev unmanaged : Table
unmanaged = record { managed = none; database = start }

abbrev created : Table
created = record {
  managed = some (stored "app" true false (known []));
  database = (create role_session (done (plan "app" true false unknown unknown)) start).1;
}

abbrev raised : Table
raised = record {
  managed = some (stored "app" true true (known []));
  database =
      (update role_session (done (plan "app" true true unknown unknown))
        (done (stored "app" true false (known []))) created.database).1;
}

abbrev seen : Table
seen = record {
  managed = some (stored "app" true true null);
  database =
      (read role_session cluster (done (stored "app" true true (known []))) raised.database).1;
}

abbrev deleted : Table
deleted = record {
  managed = none;
  database = (delete role_session (done (stored "app" true true null)) seen.database).1;
}

life : RoleLife role_session cluster "app" unmanaged deleted
unfolding create update read delete plan_to_role create_role update_role delete_role get_role
    create_role_query update_role_query delete_role_query role_options validate_role_name split_n
    perform alter erase text_discrete Dict.insert Dict.lookup value_from list_value_from
    role_of_scan read_role_result state_of_role
life =
    next
      (next
        (next
          (next here
            (creates true false unknown unknown (stored "app" true false (known [])) refl refl))
          (updates true true unknown unknown (stored "app" true false (known []))
            (stored "app" true true (known [])) refl refl))
        (refreshes (stored "app" true true (known [])) (some (stored "app" true true null)) refl
          refl))
      (deletes (stored "app" true true null) refl refl)

RoleLife-IsRecorded_example : IsRecorded role_session role_database "app" start deleted
unfolding lacks
RoleLife-IsRecorded_example =
    RoleLife-IsRecorded role_session role_database cluster refl "app" refl start deleted life
