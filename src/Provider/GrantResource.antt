-- ===== src/Provider/GrantResource.antt =====
-- internal/provider/scylla_resource_grant.go
pub mod Import
pub mod Drift
pub mod Effect
pub mod Moved
pub mod Life
use terraform_provider_scyll.Base.{
  String, ◌<>◌, Bool, true, false, ◌&&◌, Option, none, some, List, [], ◌∷◌, ◌==◌, if◌then◌else◌,
}
use terraform_provider_scyll.Go.Strings.{Unicode, split}
use terraform_provider_scyll.Scylladb.Cluster.{Cluster}
use terraform_provider_scyll.Scylladb.Session.{Session}
use terraform_provider_scyll.Scylladb.Grant.{
  Grant, create_grant, delete_grant, update_grant, get_grant_permissions,
}
use terraform_provider_scyll.Provider.Framework.{
  Value, null, known, value_string, Diagnostic, explained, Fallible, done, failed, Handler, return,
  stop, check, call, with_summary, follow, ◌>>=◌, ◌>>◌, elements_as, value_from,
}

pub record GrantResourceModel : Type 0 where
  pub id : Value String
  pub role_name : Value String
  pub privilege : Value String
  pub resource_type : Value String
  pub keyspace : Value String
  pub identifier : Value String
  pub permissions : Value (List (Value String))

-- The grant that `Create`, `Update`, `Delete` and `ModifyPlan` take from a plan or a state.
unfoldable pub grant_of : GrantResourceModel → Grant
grant_of m = record {
  role_name = value_string m.role_name;
  privilege = value_string m.privilege;
  resource_type = value_string m.resource_type;
  keyspace = value_string m.keyspace;
  identifier = value_string m.identifier;
}

-- `fmt.Sprintf("%s|%s|%s|%s|%s", ...)`
unfoldable pub grant_id : Grant → String
grant_id g =
    g.role_name <> "|" <> g.privilege <> "|" <> g.resource_type <> "|" <> g.keyspace <> "|"
    <> g.identifier

-- Five parts are a grant.
unfoldable pub grant_of_parts : List String → Option Grant
grant_of_parts (r ∷ p ∷ t ∷ k ∷ i ∷ []) =
    some (record { role_name = r; privilege = p; resource_type = t; keyspace = k; identifier = i })
grant_of_parts _ = none

-- `slices.Compare(a, b) == 0`
unfoldable pub same_texts : List String → List String → Bool
same_texts [] [] = true
same_texts (x ∷ xs) (y ∷ ys) = x == y && same_texts xs ys
same_texts _ _ = false

-- An attribute that stays null where the part is empty
abbrev pub unless_empty : String → Value String
unless_empty s = if s == "" then null else known s

-- The state that `ImportState` sets: the keyspace, and behind it the identifier, only where it is
-- not empty.
unfoldable pub imported : String → Grant → List String → GrantResourceModel
imported id g permissions = record {
  id = known id;
  role_name = known g.role_name;
  privilege = known g.privilege;
  resource_type = known g.resource_type;
  keyspace = unless_empty g.keyspace;
  identifier = if g.keyspace == "" then null else unless_empty g.identifier;
  permissions = known (value_from permissions);
}

-- What `ModifyPlan` answers: the plan it sets, if any, with `permissions` requiring replacement.
pub data PlanChange : Type 0 where
  plan_kept : PlanChange
  permissions_replaced : GrantResourceModel → PlanChange

-- The arguments are what the framework decodes: `req.Plan.Get` and `req.State.Get`.
module _ (S : Session) where
  module _ ⦃u : Unicode⦄ (c : Cluster) where
    -- The plan with its computed attributes
    abbrev complete : GrantResourceModel → Grant → Handler S.State GrantResourceModel
    complete plan g = do
      permissions ← call "Error Getting Grant Permissions" (get_grant_permissions S c g)
      return record plan { permissions = known (value_from permissions); id = known (grant_id g) }

    unfoldable pub create : Fallible GrantResourceModel → Handler S.State GrantResourceModel
    create plan_get = do
      plan ← check plan_get
      let g = grant_of plan
      call "Error Creating Grant" (create_grant S g)
      complete plan g

    unfoldable pub update :
        Fallible GrantResourceModel
        → Fallible GrantResourceModel
        → Handler S.State GrantResourceModel
    update state_get plan_get = do
      state ← check state_get
      let from_grant = grant_of state
      from_permissions ← check (elements_as state.permissions)
      plan ← check plan_get
      let to_grant = grant_of plan
      call "Error Updating Grant" (update_grant S from_grant to_grant)
      complete plan to_grant

    import_grant : String → Option Grant → Handler S.State GrantResourceModel
    import_grant id none = stop (
        explained "Invalid Import ID"
          ("Expected ID format: RoleName|Privilege|ResourceType|Keyspace|Identifier, got: " <> id))
    import_grant id (some g) = do
      permissions ← call "Error Reading Grant" (get_grant_permissions S c g)
      return (imported id g permissions)

    unfoldable pub import_state : String → Handler S.State GrantResourceModel
    unfolding import_grant
    import_state id = import_grant id (grant_of_parts (split "|" id))

    -- Behind the test on the two lists of permissions
    compare_permissions :
        List String → List String → Fallible GrantResourceModel → Handler S.State PlanChange
    compare_permissions db_permissions state_permissions plan_get =
        if same_texts db_permissions state_permissions then return plan_kept else do
          plan ← check plan_get
          return
              (permissions_replaced record plan { permissions = known (value_from db_permissions) })

    -- Without a state the resource is being created, without a plan destroyed.
    unfoldable pub modify_plan :
        Option (Fallible GrantResourceModel)
        → Option (Fallible GrantResourceModel)
        → Handler S.State PlanChange
    unfolding compare_permissions
    modify_plan (some state_get) (some plan_get) = do
      state ← check state_get
      db_permissions ← call "Error Reading Grant" (get_grant_permissions S c (grant_of state))
      state_permissions ← check (elements_as state.permissions)
      compare_permissions db_permissions state_permissions plan_get
    modify_plan _ _ = return plan_kept

  unfoldable pub delete : Fallible GrantResourceModel → Handler S.State (Unit {0})
  delete state_get = do
    state ← check state_get
    call "Error Deleting Grant" (delete_grant S (grant_of state))
