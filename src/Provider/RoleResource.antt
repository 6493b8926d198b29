-- ===== src/Provider/RoleResource.antt =====
-- internal/provider/scylla_resource_role.go and scylla_data_source.go
pub mod Found
pub mod Laws
pub mod Life
use terraform_provider_scyll.Base.{
  String, ◌<>◌, Bool, false, Option, none, some, List, [], ◌∷◌, ◌++◌,
}
use terraform_provider_scyll.Base.Exec.{Error, role_not_found, Result, ok, err}
use terraform_provider_scyll.Go.Strings.{Unicode}
use terraform_provider_scyll.Scylladb.Cluster.{Cluster}
use terraform_provider_scyll.Scylladb.Session.{Session}
use terraform_provider_scyll.Scylladb.Role.{
  Role, slice, get_role, create_role, update_role, delete_role,
}
use terraform_provider_scyll.Provider.Framework.{
  Value, null, known, value_string, value_bool, Diagnostic, caused, Fallible, done, failed, Handler,
  return, check, call, with_summary, follow, ◌>>=◌, ◌>>◌, list_value_from,
}

pub record RoleResourceModel : Type 0 where
  pub id : Value String
  pub role : Value String
  pub can_login : Value Bool
  pub is_superuser : Value Bool
  pub member_of : Value (List (Value String))

-- The model of the data source: its list is a slice, which can be nil.
pub record RoleDataSourceModel : Type 0 where
  pub id : Value String
  pub role : Value String
  pub can_login : Value Bool
  pub is_superuser : Value Bool
  pub member_of : Option (List (Value String))

unfoldable pub plan_to_role : RoleResourceModel → Role
plan_to_role plan = record {
  role = value_string plan.role;
  can_login = value_bool plan.can_login;
  is_superuser = value_bool plan.is_superuser;
  member_of = none;
}

-- The state that `Read` sets from a role.
unfoldable pub state_of_role : Role → RoleResourceModel
state_of_role r = record {
  id = known r.role;
  role = known r.role;
  can_login = known r.can_login;
  is_superuser = known r.is_superuser;
  member_of = list_value_from r.member_of;
}

-- `Read` behind the query: a role that is not there is removed from the state.
unfoldable pub read_role_result : Result Role → Fallible (Option RoleResourceModel)
unfolding state_of_role
read_role_result (ok r) = done (some (state_of_role r))
read_role_result (err role_not_found) = done none
read_role_result (err e) = failed (caused "Unable to read the role" e ∷ [])

-- The loop of the data source: the texts are appended to a slice that is nil at first.
unfoldable pub appended : Option (List (Value String)) → List String → Option (List (Value String))
appended vs [] = vs
appended none (x ∷ xs) = appended (some (known x ∷ [])) xs
appended (some vs) (x ∷ xs) = appended (some (vs ++ (known x ∷ []))) xs

-- The arguments are what the framework decodes: `req.Plan.Get` and `req.State.Get`.
module _ (S : Session) where
  unfoldable pub create :
      ⦃u : Unicode⦄ → Fallible RoleResourceModel → Handler S.State RoleResourceModel
  create plan_get = do
    plan ← check plan_get
    let role = plan_to_role plan
    call "Unable to create the role" (create_role S role)
    return record plan { id = known role.role; member_of = list_value_from (some []) }

  unfoldable pub read :
      Cluster → Fallible RoleResourceModel → Handler S.State (Option RoleResourceModel)
  unfolding read_role_result
  read c state_get = do
    state ← check state_get
    λ t. let m = get_role S c (value_string state.id) t in (read_role_result m.0, m.1)

  unfoldable pub update :
      Fallible RoleResourceModel → Fallible RoleResourceModel → Handler S.State RoleResourceModel
  update plan_get state_get = do
    plan ← check plan_get
    let role = plan_to_role plan
    call "Unable to update the role" (update_role S role)
    state ← check state_get
    return record plan { id = known role.role; member_of = state.member_of }

  unfoldable pub delete : Fallible RoleResourceModel → Handler S.State (Unit {0})
  delete state_get = do
    state ← check state_get
    call "Unable to delete the role" (
        delete_role S (record {
          role = value_string state.role;
          can_login = false;
          is_superuser = false;
          member_of = none;
        }))

  -- The data source: a role that is not there is an error.
  unfoldable pub read_data_source :
      Cluster → Fallible RoleDataSourceModel → Handler S.State RoleDataSourceModel
  unfolding appended
  read_data_source c config_get = do
    config ← check config_get
    role ← call "Unable to read the role" (get_role S c (value_string config.id))
    return record {
      id = config.id;
      role = known role.role;
      can_login = known role.can_login;
      is_superuser = known role.is_superuser;
      member_of = appended none (slice role.member_of);
    }

-- `ImportStatePassthroughID`: the identifier alone is set, for `Read` to look up.
unfoldable pub import_state : String → RoleResourceModel
import_state id = record {
  id = known id;
  role = null;
  can_login = null;
  is_superuser = null;
  member_of = null;
}
