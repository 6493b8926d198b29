-- ===== src/Tests/Schema.antt =====
-- A plan that the schemas admit, and models of every kind.
use terraform_provider_scyll.Base.{
  subst, contains, String, ◌≡◌, refl, true, none, some, List, [], ◌∷◌, ◌==◌, All, text_discrete,
  if◌then◌else◌, map, arith,
}
use terraform_provider_scyll.Base.Dict
use terraform_provider_scyll.Base.Dict.{Dict}
use terraform_provider_scyll.Go.Strings.{equal_fold}
use terraform_provider_scyll.Cql.{resource_path}
use terraform_provider_scyll.Scylladb.Authoritative.Requested.{requested}
use terraform_provider_scyll.Provider.Framework.{known, unknown, Fallible, done}
use terraform_provider_scyll.Provider.Validators.{validate_set, check_roles, roles_of}
use terraform_provider_scyll.Provider.TableGrants
use terraform_provider_scyll.Provider.TableGrants.Admitted.{table_admitted-reconciles}
use terraform_provider_scyll.Provider.KeyspaceGrants
use terraform_provider_scyll.Provider.KeyspaceGrants.Admitted.{keyspace_admitted-reconciles}
use terraform_provider_scyll.Provider.Schema.{
  text_datum, set_datum, IsTyped, IsAdmitted, AreAdmitted, MeetsString, MeetsDatum, MeetsBlock,
  attribute, of_text, required, computed, size_at_least, unique_grant_roles,
  one_of_case_insensitive,
}
use terraform_provider_scyll.Provider.Schema.Grants.{
  grant_attributes, privileges_attribute, table_privileges, keyspace_privileges,
  table_grants_schema, keyspace_grants_schema, fields_of_grant, fields_of_table_grants,
  fields_of_keyspace_grants,
}
use terraform_provider_scyll.Provider.Schema.Role.{
  role_schema, role_data_source_schema, fields_of_role, fields_of_role_data_source,
}
use terraform_provider_scyll.Provider.Schema.Grant.{grant_schema, fields_of_grant_resource}
use terraform_provider_scyll.Provider.Schema.Configuration.{provider_schema, fields_of_provider}
use terraform_provider_scyll.Provider.Schema.Typed.{models-IsTyped}
use terraform_provider_scyll.Tests.Ascii.{ascii, ascii_upper, in_order}
use terraform_provider_scyll.Tests.Resources.{
  planned, planned-bindings, table_model, keyspace_model, lacks_period, shop_IsNamed,
}
use terraform_provider_scyll.Tests.Configure.{model}
use terraform_provider_scyll.Tests.Memory.{
  Held, memory_session, memory_database, memory-IsAccepting, memory_granted,
}
use terraform_provider_scyll.Tests.Fixtures.{
  cluster, before, bindings, app_IsRole, held_before, shop_orders_IsNamed,
}
use terraform_provider_scyll.Provider.RoleResource.{RoleResourceModel, RoleDataSourceModel}
use terraform_provider_scyll.Provider.GrantResource.{GrantResourceModel}
use terraform_provider_scyll.Provider.TableGrants.{TableGrantsResourceModel}
use terraform_provider_scyll.Provider.KeyspaceGrants.{KeyspaceGrantsResourceModel}

at_some : {A : Type 0} (P : A → Type 0) (x : A) → P x → (y : A) → some x ≡ some y → P y
at_some P x h y e = let same : x ≡ y = cc in subst P same h

at_known : {A : Type 0} (P : A → Type 0) (x : A) → P x → (y : A) → known x ≡ known y → P y
at_known P x h y e = let same : x ≡ y = cc in subst P same h

-- Select and modify in any case, where both are allowed
planned-AreAdmitted :
    (allowed : List String)
    → contains allowed "SELECT" ≡ true
    → contains allowed "MODIFY" ≡ true
    → All (λ d. AreAdmitted d (grant_attributes allowed)) (map fields_of_grant planned)
unfolding equal_fold ascii_upper Dict.lookup text_discrete
planned-AreAdmitted allowed select modify = (
  (
    at_some (MeetsDatum (attribute "role" of_text required "Role to receive the privileges."))
        (text_datum (known "app")) ((λ e. cc), tt),
    (
      at_some (MeetsDatum (privileges_attribute allowed))
          (set_datum (known (known "select" ∷ known "Modify" ∷ [])))
          (
            (λ e. cc),
            (
              at_known (All (λ v. MeetsString v (one_of_case_insensitive allowed)))
                  (known "select" ∷ known "Modify" ∷ [])
                  (
                    at_known
                        (λ s. (p : String) × (contains allowed p ≡ true) × (equal_fold s p ≡ true))
                        "select" ("SELECT", select, refl),
                    (
                      at_known
                          (λ s.
                            (p : String) × (contains allowed p ≡ true) × (equal_fold s p ≡ true))
                          "Modify" ("MODIFY", modify, refl),
                      tt,
                    ),
                  ),
              tt,
            ),
          ),
      tt,
    ),
  ),
  tt,
)

-- The one role of the plan is unique.
planned-MeetsBlock : All (MeetsBlock planned) (size_at_least 1 ∷ unique_grant_roles ∷ [])
unfolding validate_set check_roles roles_of Dict.lookup
planned-MeetsBlock = (omega arith, (refl, tt))

pub table_model-IsAdmitted :
    IsAdmitted table_grants_schema (fields_of_table_grants (table_model unknown planned)) planned
unfolding Dict.lookup text_discrete
table_model-IsAdmitted = (
  (
    at_some (MeetsDatum (attribute "id" of_text computed "")) (text_datum unknown) (tt, tt),
    (
      at_some (MeetsDatum (attribute "keyspace" of_text required "")) (text_datum (known "shop"))
          ((λ e. cc), tt),
      (
        at_some (MeetsDatum (attribute "table" of_text required "")) (text_datum (known "orders"))
            ((λ e. cc), tt),
        tt,
      ),
    ),
  ),
  (
    at_some _ (map fields_of_grant planned)
        (planned-AreAdmitted table_privileges refl refl, planned-MeetsBlock),
    tt,
  ),
)

pub keyspace_model-IsAdmitted :
    IsAdmitted keyspace_grants_schema
      (fields_of_keyspace_grants (keyspace_model unknown planned))
      planned
unfolding Dict.lookup text_discrete
keyspace_model-IsAdmitted = (
  (
    at_some (MeetsDatum (attribute "id" of_text computed "")) (text_datum unknown) (tt, tt),
    (
      at_some (MeetsDatum (attribute "keyspace" of_text required "")) (text_datum (known "shop"))
          ((λ e. cc), tt),
      tt,
    ),
  ),
  (
    at_some _ (map fields_of_grant planned)
        (planned-AreAdmitted keyspace_privileges refl refl, planned-MeetsBlock),
    tt,
  ),
)

abbrev table_created : Fallible TableGrantsResourceModel × List Held
table_created =
    TableGrants.create memory_session in_order in_order in_order cluster
      (done (table_model unknown planned)) before

table_admitted-reconciles_example :
    (table_created.0 ≡ done (table_model (known "shop.orders") planned))
    × (TableGrants.update memory_session in_order in_order in_order cluster
          (done (table_model unknown planned))
          before
        ≡ table_created)
    × ((r path p : String)
        → memory_granted table_created.1 r path p ≡ (
            if path == "data/shop/orders"
            then requested bindings r p
            else memory_granted before r path p))
unfolding resource_path
table_admitted-reconciles_example =
    table_admitted-reconciles memory_session memory_database in_order in_order in_order cluster refl
      "shop" "orders" lacks_period shop_orders_IsNamed before memory-IsAccepting unknown planned
      bindings table_model-IsAdmitted planned-bindings (app_IsRole, tt)
      (λ r p. held_before r "data/shop/orders" p)

abbrev keyspace_created : Fallible KeyspaceGrantsResourceModel × List Held
keyspace_created =
    KeyspaceGrants.create memory_session in_order in_order in_order cluster
      (done (keyspace_model unknown planned)) before

keyspace_admitted-reconciles_example :
    (keyspace_created.0 ≡ done (keyspace_model (known "shop") planned))
    × (KeyspaceGrants.update memory_session in_order in_order in_order cluster
          (done (keyspace_model unknown planned))
          before
        ≡ keyspace_created)
    × ((r path p : String)
        → memory_granted keyspace_created.1 r path p ≡ (
            if path == "data/shop" then requested bindings r p else memory_granted before r path p))
unfolding resource_path
keyspace_admitted-reconciles_example =
    keyspace_admitted-reconciles memory_session memory_database in_order in_order in_order cluster
      refl "shop" lacks_period shop_IsNamed before memory-IsAccepting unknown planned bindings
      keyspace_model-IsAdmitted planned-bindings (app_IsRole, tt)
      (λ r p. held_before r "data/shop" p)

abbrev some_source : RoleDataSourceModel
some_source = record {
  id = known "app";
  role = unknown;
  can_login = unknown;
  is_superuser = unknown;
  member_of = none;
}

abbrev some_role : RoleResourceModel
some_role = record {
  id = known "app";
  role = known "app";
  can_login = known true;
  is_superuser = unknown;
  member_of = unknown;
}

abbrev some_grant : GrantResourceModel
some_grant = record {
  id = unknown;
  role_name = known "app";
  privilege = known "SELECT";
  resource_type = known "KEYSPACE";
  keyspace = known "shop";
  identifier = unknown;
  permissions = unknown;
}

models-IsTyped_example :
    IsTyped provider_schema (fields_of_provider model)
    × IsTyped role_schema (fields_of_role some_role)
    × IsTyped role_data_source_schema (fields_of_role_data_source some_source)
    × IsTyped grant_schema (fields_of_grant_resource some_grant)
    × IsTyped table_grants_schema (fields_of_table_grants (table_model unknown planned))
    × IsTyped keyspace_grants_schema (fields_of_keyspace_grants (keyspace_model unknown planned))
models-IsTyped_example =
    models-IsTyped model some_role some_source some_grant (table_model unknown planned)
      (keyspace_model unknown planned)
