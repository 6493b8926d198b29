-- ===== src/Provider/TableGrants.antt =====
-- internal/provider/scylla_resource_table_grants.go
pub mod Laws
pub mod Admitted
pub mod Imported
pub mod Lifecycle
use terraform_provider_scyll.Base.{
  String, ◌<>◌, Bool, true, false, not, List, [], ◌∷◌, ◌==◌, if◌then◌else◌,
}
use terraform_provider_scyll.Base.Dict
use terraform_provider_scyll.Base.Dict.{Dict}
use terraform_provider_scyll.Go.Maps.{RangeOrder}
use terraform_provider_scyll.Go.Strings.{Unicode}
use terraform_provider_scyll.Scylladb.Cluster.{Cluster}
use terraform_provider_scyll.Scylladb.Session.{Session}
use terraform_provider_scyll.Scylladb.Authoritative.{
  ParsedIdentifier, AuthoritativeBinding, Loop, parse_identifier, get_all_role_permissions_per_id,
  apply_authoritative_grant, revoke_all_grants_on_identifier,
}
use terraform_provider_scyll.Scylladb.Bindings.{Reading, bindings_of, get_all_role_bindings_per_id}
use terraform_provider_scyll.Provider.Framework.{
  Value, null, known, value_string, Diagnostic, explained, Fallible, done, failed, Handler, return,
  stop, check, call, with_summary, follow, ◌>>=◌, ◌>>◌,
}
use terraform_provider_scyll.Provider.Domains.{
  GrantModel, get_grants_from_role_bindings, bindings_from_grants,
}

pub record TableGrantsResourceModel : Type 0 where
  pub id : Value String
  pub keyspace : Value String
  pub table : Value String
  pub grants : List GrantModel

-- `extractPlanData`
unfoldable pub extract_plan_data :
    TableGrantsResourceModel → ParsedIdentifier × Fallible (List AuthoritativeBinding)
extract_plan_data plan = (
  parse_identifier (value_string plan.keyspace <> "." <> value_string plan.table),
  bindings_from_grants plan.grants,
)

unfoldable pub import_error : ⦃u : Unicode⦄ → String → Diagnostic
import_error ⦃u⦄ id =
    explained "Invalid Import ID"
      ("Expected a table identifier in the format 'keyspace.table', got " <> u.quote id)

unfoldable pub no_grants_error : ⦃u : Unicode⦄ → String → Diagnostic
no_grants_error ⦃u⦄ id = explained "No Grants Found to Import" (
    "No grants were found on "
    <> u.quote id
    <> ". Only identifiers with existing grants can be imported.")

module _ (S : Session) ⦃u : Unicode⦄ (order : RangeOrder Loop) (readings : RangeOrder Reading)
    (imports : RangeOrder (Unit {0})) (c : Cluster) where
  unfoldable pub apply_plan_data :
      TableGrantsResourceModel → Handler S.State TableGrantsResourceModel
  unfolding extract_plan_data
  apply_plan_data plan = do
    let id = (extract_plan_data plan).0
    bindings ← check (extract_plan_data plan).1
    call "Error Applying Table Grants" (apply_authoritative_grant S order c id bindings)
    return record plan { id = known id.original }

  -- The arguments are what the framework decodes: `req.Plan.Get` and `req.State.Get`.
  unfoldable pub create :
      Fallible TableGrantsResourceModel → Handler S.State TableGrantsResourceModel
  create plan_get = do plan ← check plan_get; apply_plan_data plan

  unfoldable pub read : Fallible TableGrantsResourceModel → Handler S.State TableGrantsResourceModel
  read state_get = do
    state ← check state_get
    let id = parse_identifier (value_string state.id)
    role_bindings ← call "Error Reading Table Grants" (get_all_role_bindings_per_id S readings c id)
    return record state { grants = get_grants_from_role_bindings role_bindings }

  unfoldable pub update :
      Fallible TableGrantsResourceModel → Handler S.State TableGrantsResourceModel
  update plan_get = do plan ← check plan_get; apply_plan_data plan

  unfoldable pub delete : Fallible TableGrantsResourceModel → Handler S.State (Unit {0})
  delete state_get = do
    state ← check state_get
    let id = parse_identifier (value_string state.id)
    call "Error Revoking Table Grants" (revoke_all_grants_on_identifier S order c id)

  -- `ImportState` behind the read: the grants stand in the order of the range over the map.
  imported : ParsedIdentifier → Dict (List String) → Handler S.State TableGrantsResourceModel
  imported id [] = stop (no_grants_error id.original)
  imported id (entry ∷ rest) =
      let perms = entry ∷ rest in
      return (record {
        id = known id.original;
        keyspace = known id.keyspace;
        table = known id.table;
        grants =
            get_grants_from_role_bindings (bindings_of perms (imports.visit tt (Dict.keys perms)));
      })

  -- `ImportState` behind the parsing of the identifier
  import_parsed : String → ParsedIdentifier → Handler S.State TableGrantsResourceModel
  unfolding imported
  import_parsed text id = if not (id.resource_type == "TABLE") then stop (import_error text) else do
    permission_map ← call "Error Importing Table Grants" (get_all_role_permissions_per_id S c id)
    imported id permission_map

  unfoldable pub import_state : String → Handler S.State TableGrantsResourceModel
  unfolding import_parsed
  import_state text = import_parsed text (parse_identifier text)
