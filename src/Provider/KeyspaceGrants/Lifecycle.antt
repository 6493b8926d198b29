-- ===== src/Provider/KeyspaceGrants/Lifecycle.antt =====
-- The life of one keyspace grants resource: the calls that Terraform makes of its handlers, in any order
-- that the state allows, and what holds behind each of them.
use terraform_provider_scyll.Base.{String, ◌≡◌, ◌∙◌, refl, sym, ap, true, none, List}
use terraform_provider_scyll.Go.Maps.{RangeOrder}
use terraform_provider_scyll.Go.Strings.{Unicode, lacks}
use terraform_provider_scyll.Cql.{keyspace, resource_path}
use terraform_provider_scyll.Scylladb.Cluster.{Cluster}
use terraform_provider_scyll.Scylladb.Session.{Session}
use terraform_provider_scyll.Scylladb.Grant.Render.{IsNamed}
use terraform_provider_scyll.Scylladb.Database.{IsDatabase}
use terraform_provider_scyll.Scylladb.Authoritative.{AuthoritativeBinding, Loop, parse_identifier}
use terraform_provider_scyll.Scylladb.Authoritative.Identifier.{Denotes-keyspace}
use terraform_provider_scyll.Scylladb.Authoritative.Requested.{requested}
use terraform_provider_scyll.Scylladb.Authoritative.Accepted.{IsAccepting}
use terraform_provider_scyll.Scylladb.Bindings.Laws.{get_bindings_state}
use terraform_provider_scyll.Scylladb.Bindings.{Reading, get_all_role_bindings_per_id}
use terraform_provider_scyll.Provider.Framework.{Value, known, done, with_summary}
use terraform_provider_scyll.Provider.Framework.Laws.{follow-done, done-injective}
use terraform_provider_scyll.Provider.Domains.{
  GrantModel, bindings_from_grants, get_grants_from_role_bindings,
}
use terraform_provider_scyll.Provider.KeyspaceGrants.{
  KeyspaceGrantsResourceModel, create, read, update, delete,
}
use terraform_provider_scyll.Provider.KeyspaceGrants.Laws.{
  keyspace_read-exact, keyspace_delete-exact,
}
use terraform_provider_scyll.Provider.KeyspaceGrants.Admitted.{keyspace_admitted-reconciles}
use terraform_provider_scyll.Provider.Schema.{IsAdmitted}
use terraform_provider_scyll.Provider.Schema.Grants.{
  keyspace_grants_schema, fields_of_keyspace_grants,
}
use terraform_provider_scyll.Provider.Lifecycle.{
  World, GrantsResource, Lifecycle, IsWritable, IsExact, IsManaged,
}
use terraform_provider_scyll.Provider.Lifecycle.Managed.{life-IsManaged}

module _ (S : Session) ⦃u : Unicode⦄ (order : RangeOrder Loop) (readings : RangeOrder Reading)
    (imports : RangeOrder (Unit {0})) (c : Cluster) (k : String) where
  abbrev plan : Value String → List GrantModel → KeyspaceGrantsResourceModel
  plan id grants = record { id = id; keyspace = known k; grants = grants }

  -- The resource of one keyspace
  abbrev pub keyspace_life : GrantsResource S.State
  keyspace_life = record {
    Model = KeyspaceGrantsResourceModel;
    plan = plan;
    IsAdmitted = λ id grants.
        IsAdmitted keyspace_grants_schema (fields_of_keyspace_grants (plan id grants)) grants;
    identifier = k;
    path = resource_path (keyspace k);
    create = λ m. create S order readings imports c (done m);
    read = λ m. read S order readings imports c (done m);
    update = λ m. update S order readings imports c (done m);
    delete = λ m. delete S order readings imports c (done m);
  }

module _ (S : Session) (D : IsDatabase S) ⦃u : Unicode⦄ (order : RangeOrder Loop)
    (readings : RangeOrder Reading) (imports : RangeOrder (Unit {0})) (c : Cluster)
    (own : c.system_auth_keyspace_name ≡ D.auth_keyspace) (k : String) (plain : lacks "." k ≡ true)
    (named : IsNamed (keyspace k)) (acc : IsAccepting S) where
  -- `Read` changes the grants of the state alone.
  read-exact :
      (grants : List GrantModel) (s : S.State) (st : KeyspaceGrantsResourceModel)
      → (read S order readings imports c
          (done (plan S order readings imports c k (known (k)) grants))
          s).0
        ≡ done st
      → (found : List GrantModel) × (bs : List AuthoritativeBinding) × (st
          ≡ plan S order readings imports c k (known (k)) found)
        × (bindings_from_grants found ≡ done bs)
        × ((r p : String) → requested bs r p ≡ D.granted s r (resource_path (keyspace k)) p)
        × ((read S order readings imports c
              (done (plan S order readings imports c k (known (k)) grants))
              s).1
            ≡ s)
  unfolding read
  read-exact grants s st h =
      let ident = parse_identifier (k) in
      let run = get_all_role_bindings_per_id S readings c ident s in
      let (bs, ran, rest, end) =
        follow-done (with_summary "Error Reading Keyspace Grants" run.0) _ run.1 st h in
      let (bs2, converts, exact) =
        keyspace_read-exact S D order readings imports c own k plain named s (known (k)) grants st
          h in
      let form = done-injective _ st rest in
      (
        get_grants_from_role_bindings bs,
        bs2,
        sym form,
        ap (λ x. bindings_from_grants x.grants) form ∙ converts,
        exact,
        ap (λ o. o.1) end
            ∙ get_bindings_state S D readings c own ident (keyspace k) (Denotes-keyspace k plain) s,
      )

  keyspace_life-IsExact : IsExact S D (keyspace_life S order readings imports c k)
  unfolding create update
  keyspace_life-IsExact = record {
    create-exact = λ id grants bs s admitted converts roles writable.
        let (state, _, exact) =
          keyspace_admitted-reconciles S D order readings imports c own k plain named s acc id
            grants bs admitted converts roles writable in
        (state, exact);
    update-create = λ m s. refl;
    read-exact = read-exact;
    delete-exact = λ grants s writable.
        (keyspace_delete-exact S D order readings imports c own k plain named s acc (known (k))
          grants writable).1;
  }

  -- Behind any sequence of `Create`, `Update`, `Read` and `Delete` of a keyspace grants resource,
  -- each of which ends without an error and whose plans the schema admits, the recorded state, if
  -- there is one, has the identifier of the keyspace and grants that ask for exactly the
  -- permissions that the database holds on it; the permissions on every other resource are as they
  -- were at the start; and the roles that hold permissions on the keyspace have names without a
  -- quotation mark, if they had at the start. The database answers and accepts, the keyspace has no
  -- period, the cluster's keyspace is the one that holds the permissions, no name that is planned
  -- has a quotation mark, and that of the keyspace is not empty.
  pub keyspace_life-IsManaged :
      (start : S.State) (w : World KeyspaceGrantsResourceModel S.State)
      → IsWritable S D (keyspace_life S order readings imports c k) start
      → Lifecycle S.State
          (keyspace_life S order readings imports c k)
          (record { managed = none; database = start })
          w
      → IsManaged S D (keyspace_life S order readings imports c k) start w
  keyspace_life-IsManaged start =
      life-IsManaged S D (keyspace_life S order readings imports c k) keyspace_life-IsExact start
