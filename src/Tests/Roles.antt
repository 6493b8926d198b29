-- ===== src/Tests/Roles.antt =====
-- The handlers of the role resource on the table in memory.
use terraform_provider_scyll.Base.{
  String, ◌≡◌, refl, Bool, true, false, none, some, List, [], ◌∷◌, ◌==◌, text_discrete, ◌⊎◌,
}
use terraform_provider_scyll.Base.Dict
use terraform_provider_scyll.Base.Dict.{Dict}
use terraform_provider_scyll.Base.Exec.{Error, err}
use terraform_provider_scyll.Go.Strings.{lacks, split_n}
use terraform_provider_scyll.Scylladb.Session.{RoleRow}
use terraform_provider_scyll.Scylladb.Role.{
  Role, get_role, role_of_scan, create_role, create_role_query, update_role, update_role_query,
  role_options,
}
use terraform_provider_scyll.Scylladb.Role.Names.{create_role_checked}
use terraform_provider_scyll.Provider.Framework.{
  Value, null, known, unknown, Fallible, done, value_from, list_value_from,
}
use terraform_provider_scyll.Provider.RoleResource.{
  RoleResourceModel, plan_to_role, read_role_result, state_of_role, appended, read, update,
  read_data_source,
}
use terraform_provider_scyll.Provider.RoleResource.Laws.{role_update-read}
use terraform_provider_scyll.Tests.Ascii.{ascii}
use terraform_provider_scyll.Tests.Fixtures.{cluster}
use terraform_provider_scyll.Tests.RoleTable.{role_session, role_database, perform, alter}

abbrev model : Value String → Bool → Value (List (Value String)) → RoleResourceModel
model id super members = record {
  id = id;
  role = known "app_1";
  can_login = known true;
  is_superuser = known super;
  member_of = members;
}

abbrev app_row : RoleRow
app_row = record {
  role = "app_1";
  can_login = true;
  is_superuser = false;
  member_of = some ("dev" ∷ []);
}

abbrev app_role : Role
app_role = record { role = "app_1"; can_login = true; is_superuser = false; member_of = none }

create_role_checked_example :
    (((e : Error) × (create_role role_session app_role [] ≡ (err e, []))))
    ⊎ ((lacks "'" "app_1" ≡ true)
        × (create_role role_session app_role []
            ≡ role_session.exec (create_role_query app_role) []))
create_role_checked_example = create_role_checked role_session app_role []

-- A role that is a member of none: the driver leaves the slice nil, and the list is null.
role_read_run :
    read role_session cluster
      (done (model (known "app_1") false unknown))
      (("app_1", record app_row { member_of = none }) ∷ [])
    ≡ (
      done (some (model (known "app_1") false null)),
      ("app_1", record app_row { member_of = none }) ∷ [],
    )
unfolding read get_role read_role_result role_of_scan state_of_role list_value_from Dict.lookup
    text_discrete
role_read_run = refl

-- The data source appends to a nil slice.
role_data_source_run :
    (read_data_source role_session cluster
      (done (record {
        id = known "app_1";
        role = null;
        can_login = null;
        is_superuser = null;
        member_of = none;
      }))
      (("app_1", app_row) ∷ [])).0
    ≡ done (record {
      id = known "app_1";
      role = known "app_1";
      can_login = known true;
      is_superuser = known false;
      member_of = some (known "dev" ∷ []);
    })
unfolding read_data_source get_role role_of_scan appended Dict.lookup text_discrete
role_data_source_run = refl

abbrev old : RoleResourceModel
old = model (known "app_1") false (known (known "dev" ∷ []))

abbrev run_update : Fallible RoleResourceModel × Dict RoleRow
run_update =
    update role_session (done (model unknown true unknown)) (done old) (("app_1", app_row) ∷ [])

role_update-read_example :
    (some (model (known "app_1") true (known (known "dev" ∷ [])))
      ≡ some (model (known "app_1") true (known (known "dev" ∷ []))))
    × ((read role_session cluster
          (done (model (known "app_1") true (known (known "dev" ∷ []))))
          run_update.1).1
        ≡ run_update.1)
    × ((other : String)
        → (other == "app_1") ≡ false
        → Dict.lookup other run_update.1 ≡ Dict.lookup other (("app_1", app_row) ∷ []))
unfolding update plan_to_role update_role update_role_query role_options split_n perform alter lacks
    read get_role read_role_result role_of_scan state_of_role list_value_from text_discrete
    Dict.insert Dict.lookup value_from
role_update-read_example =
    role_update-read role_session role_database cluster refl unknown "app_1" true true unknown
      (("app_1", app_row) ∷ []) old (model (known "app_1") true (known (known "dev" ∷ []))) app_row
      (some (model (known "app_1") true (known (known "dev" ∷ [])))) refl refl refl refl refl
