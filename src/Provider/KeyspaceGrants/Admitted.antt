-- ===== src/Provider/KeyspaceGrants/Admitted.antt =====
-- What `Create` and `Update` do with a plan that the schema of the resource admits.
use terraform_provider_scyll.Base.{
  String, ◌≡◌, refl, true, List, ◌==◌, All, if◌then◌else◌, text_discrete, map,
}
use terraform_provider_scyll.Base.Dict
use terraform_provider_scyll.Go.Maps.{RangeOrder}
use terraform_provider_scyll.Go.Strings.{Unicode, lacks}
use terraform_provider_scyll.Cql.{keyspace, resource_path}
use terraform_provider_scyll.Scylladb.Cluster.{Cluster}
use terraform_provider_scyll.Scylladb.Session.{Session}
use terraform_provider_scyll.Scylladb.Grant.Render.{IsNamed}
use terraform_provider_scyll.Scylladb.Database.{IsDatabase}
use terraform_provider_scyll.Scylladb.Authoritative.{AuthoritativeBinding, Loop}
use terraform_provider_scyll.Scylladb.Authoritative.Requested.{requested, requested-valid}
use terraform_provider_scyll.Scylladb.Authoritative.Steps.{IsRole}
use terraform_provider_scyll.Scylladb.Authoritative.Accepted.{IsAccepting}
use terraform_provider_scyll.Scylladb.Bindings.{Reading}
use terraform_provider_scyll.Provider.Framework.{Value, known, Fallible, done}
use terraform_provider_scyll.Provider.Domains.{GrantModel, bindings_from_grants}
use terraform_provider_scyll.Provider.KeyspaceGrants.{KeyspaceGrantsResourceModel, create, update}
use terraform_provider_scyll.Provider.KeyspaceGrants.Laws.{keyspace_create-reconciles}
use terraform_provider_scyll.Provider.Schema.{IsAdmitted}
use terraform_provider_scyll.Provider.Schema.Grants.{
  keyspace_privileges, keyspace_grants_schema, fields_of_grant, fields_of_keyspace_grants,
}
use terraform_provider_scyll.Provider.Schema.Admitted.{
  keyspace_privileges_usable, admitted_bindings_valid,
}

module _ (S : Session) (D : IsDatabase S) ⦃u : Unicode⦄ (order : RangeOrder Loop)
    (readings : RangeOrder Reading) (imports : RangeOrder (Unit {0})) (c : Cluster)
    (own : c.system_auth_keyspace_name ≡ D.auth_keyspace) (k : String) (plain : lacks "." k ≡ true)
    (named : IsNamed (keyspace k)) (s : S.State) where
  abbrev plan : Value String → List GrantModel → KeyspaceGrantsResourceModel
  plan id grants = record { id = id; keyspace = known k; grants = grants }

  abbrev created : KeyspaceGrantsResourceModel → Fallible KeyspaceGrantsResourceModel × S.State
  created m = create S order readings imports c (done m) s

  -- On a database that answers and accepts, `Create` and `Update` of a plan that the resource's
  -- schema admits end without an error: the state is the plan with the identifier, every role has
  -- on the keyspace exactly the privileges planned for it, in upper case, and nothing else has
  -- changed. So no plan passes the schema and is then refused for its privileges, whatever the case
  -- they are written in. No privilege element is null or unknown, the keyspace has no period, the
  -- cluster's keyspace is the one that holds the permissions, no name has a quotation mark, and
  -- that of the resource is not empty.
  pub keyspace_admitted-reconciles :
      (acc : IsAccepting S) (id : Value String) (grants : List GrantModel)
      (bs : List AuthoritativeBinding)
      → IsAdmitted keyspace_grants_schema (fields_of_keyspace_grants (plan id grants)) grants
      → bindings_from_grants grants ≡ done bs
      → All (λ b. IsRole b.role) bs
      → ((r p : String) → D.granted s r (resource_path (keyspace k)) p ≡ true → IsRole r)
      → ((created (plan id grants)).0 ≡ done (plan (known k) grants))
        × (update S order readings imports c (done (plan id grants)) s ≡ created (plan id grants))
        × ((r path p : String)
            → D.granted (created (plan id grants)).1 r path p ≡ (
                if path == resource_path (keyspace k)
                then requested bs r p
                else D.granted s r path p))
  unfolding Dict.lookup text_discrete
  keyspace_admitted-reconciles acc id grants bs (attributes, (blocks, _)) planned writable held =
      let (inner, validators) = blocks (map fields_of_grant grants) refl in
      let valid =
        admitted_bindings_valid keyspace_privileges keyspace_privileges_usable grants bs inner
          planned in
      keyspace_create-reconciles S D order readings imports c own k plain named s acc id grants bs
        planned writable held (λ r p. requested-valid bs r p valid)
