-- ===== src/Provider/Schema/Typed.antt =====
-- The models have the fields of their schemas.
use terraform_provider_scyll.Base.{
  String, refl, Option, none, some, List, [], ◌∷◌, map, All, text_discrete, arith,
}
use terraform_provider_scyll.Base.Dict
use terraform_provider_scyll.Base.Dict.{Dict}
use terraform_provider_scyll.Provider.Domains.{GrantModel}
use terraform_provider_scyll.Provider.TableGrants.{TableGrantsResourceModel}
use terraform_provider_scyll.Provider.KeyspaceGrants.{KeyspaceGrantsResourceModel}
use terraform_provider_scyll.Provider.RoleResource.{RoleResourceModel, RoleDataSourceModel}
use terraform_provider_scyll.Provider.GrantResource.{GrantResourceModel}
use terraform_provider_scyll.Provider.Configure.{
  AuthLoginUserPassModel, AuthTlsModel, ScylladbProviderModel,
}
use terraform_provider_scyll.Provider.Schema.{AreTyped, IsTyped, Block, IsSingle, Datum}
use terraform_provider_scyll.Provider.Schema.Grants.{
  grant_attributes, fields_of_grant, table_privileges, table_grants_schema, keyspace_privileges,
  keyspace_grants_schema, fields_of_table_grants, fields_of_keyspace_grants,
}
use terraform_provider_scyll.Provider.Schema.Role.{
  role_schema, role_data_source_schema, fields_of_role, fields_of_role_data_source,
}
use terraform_provider_scyll.Provider.Schema.Grant.{grant_schema, fields_of_grant_resource}
use terraform_provider_scyll.Provider.Schema.Configuration.{
  login_block, tls_block, provider_schema, fields_of_login, fields_of_tls, fields_of_provider,
}

grants-AreTyped :
    (allowed : List String) (gs : List GrantModel)
    → All (AreTyped (grant_attributes allowed)) (map fields_of_grant gs)
unfolding Dict.lookup Dict.keys text_discrete
grants-AreTyped allowed [] = tt
grants-AreTyped allowed (g ∷ gs) =
    ((((_, refl, refl), ((_, refl, refl), tt)), (refl, (refl, tt))), grants-AreTyped allowed gs)

table_grants-IsTyped :
    (m : TableGrantsResourceModel) → IsTyped table_grants_schema (fields_of_table_grants m)
unfolding Dict.lookup Dict.keys text_discrete
table_grants-IsTyped m = (
  (((_, refl, refl), ((_, refl, refl), ((_, refl, refl), tt))), (refl, (refl, (refl, tt)))),
  ((_, refl, tt, grants-AreTyped table_privileges m.grants), tt),
  (refl, tt),
)

keyspace_grants-IsTyped :
    (m : KeyspaceGrantsResourceModel) → IsTyped keyspace_grants_schema (fields_of_keyspace_grants m)
unfolding Dict.lookup Dict.keys text_discrete
keyspace_grants-IsTyped m = (
  (((_, refl, refl), ((_, refl, refl), tt)), (refl, (refl, tt))),
  ((_, refl, tt, grants-AreTyped keyspace_privileges m.grants), tt),
  (refl, tt),
)

role-IsTyped : (m : RoleResourceModel) → IsTyped role_schema (fields_of_role m)
unfolding Dict.lookup Dict.keys text_discrete
role-IsTyped m = (
  (
    (
      (_, refl, refl),
      ((_, refl, refl), ((_, refl, refl), ((_, refl, refl), ((_, refl, refl), tt)))),
    ),
    (refl, (refl, (refl, (refl, (refl, tt))))),
  ),
  tt,
  tt,
)

role_data_source-IsTyped :
    (m : RoleDataSourceModel) → IsTyped role_data_source_schema (fields_of_role_data_source m)
unfolding Dict.lookup Dict.keys text_discrete
role_data_source-IsTyped m = (
  (
    (
      (_, refl, refl),
      ((_, refl, refl), ((_, refl, refl), ((_, refl, refl), ((_, refl, refl), tt)))),
    ),
    (refl, (refl, (refl, (refl, (refl, tt))))),
  ),
  tt,
  tt,
)

grant-IsTyped : (m : GrantResourceModel) → IsTyped grant_schema (fields_of_grant_resource m)
unfolding Dict.lookup Dict.keys text_discrete
grant-IsTyped m = (
  (
    (
      (_, refl, refl),
      (
        (_, refl, refl),
        (
          (_, refl, refl),
          ((_, refl, refl), ((_, refl, refl), ((_, refl, refl), ((_, refl, refl), tt)))),
        ),
      ),
    ),
    (refl, (refl, (refl, (refl, (refl, (refl, (refl, tt))))))),
  ),
  tt,
  tt,
)

abbrev BlockTyped : Block → List (Dict Datum) → Type 0
BlockTyped b ds = IsSingle b.single ds × All (AreTyped b.attributes) ds

login-BlockTyped : (o : Option AuthLoginUserPassModel) → BlockTyped login_block (fields_of_login o)
unfolding Dict.lookup Dict.keys text_discrete
login-BlockTyped none = (omega arith, tt)
login-BlockTyped (some l) =
    (omega arith, ((((_, refl, refl), ((_, refl, refl), tt)), (refl, (refl, tt))), tt))

tls-BlockTyped : (o : Option AuthTlsModel) → BlockTyped tls_block (fields_of_tls o)
unfolding Dict.lookup Dict.keys text_discrete
tls-BlockTyped none = (omega arith, tt)
tls-BlockTyped (some t) =
    (omega arith, ((((_, refl, refl), ((_, refl, refl), tt)), (refl, (refl, tt))), tt))

provider-IsTyped : (m : ScylladbProviderModel) → IsTyped provider_schema (fields_of_provider m)
unfolding Dict.lookup Dict.keys text_discrete
provider-IsTyped m =
    let (one_login, login) = login-BlockTyped m.auth_login_userpass in
    let (one_tls, tls) = tls-BlockTyped m.auth_tls in
    (
      (
        (
          (_, refl, refl),
          ((_, refl, refl), ((_, refl, refl), ((_, refl, refl), ((_, refl, refl), tt)))),
        ),
        (refl, (refl, (refl, (refl, (refl, tt))))),
      ),
      ((_, refl, one_login, login), ((_, refl, one_tls, tls), tt)),
      (refl, (refl, tt)),
    )

-- The fields of each model, under their tags, are the attributes and blocks of its schema, with
-- their types, and a single block has at most one element.
pub models-IsTyped :
    (provider : ScylladbProviderModel) (role : RoleResourceModel) (source : RoleDataSourceModel)
    (grant : GrantResourceModel) (table : TableGrantsResourceModel)
    (keyspace : KeyspaceGrantsResourceModel)
    → IsTyped provider_schema (fields_of_provider provider)
      × IsTyped role_schema (fields_of_role role)
      × IsTyped role_data_source_schema (fields_of_role_data_source source)
      × IsTyped grant_schema (fields_of_grant_resource grant)
      × IsTyped table_grants_schema (fields_of_table_grants table)
      × IsTyped keyspace_grants_schema (fields_of_keyspace_grants keyspace)
models-IsTyped provider role source grant table keyspace = (
  provider-IsTyped provider,
  role-IsTyped role,
  role_data_source-IsTyped source,
  grant-IsTyped grant,
  table_grants-IsTyped table,
  keyspace_grants-IsTyped keyspace,
)
