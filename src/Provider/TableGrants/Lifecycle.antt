-- ===== src/Provider/TableGrants/Lifecycle.antt =====
-- The life of one table grants resource: the calls that Terraform makes of its handlers, in any order
-- that the state allows, and what holds behind each of them.
use terraform_provider_scyll.Base.{String, ◌<>◌, ◌≡◌, ◌∙◌, refl, sym, ap, true, none, List}
use terraform_provider_scyll.Go.Maps.{RangeOrder}
use terraform_provider_scyll.Go.Strings.{Unicode, lacks}
use terraform_provider_scyll.Cql.{table, resource_path}
use terraform_provider_scyll.Scylladb.Cluster.{Cluster}
use terraform_provider_scyll.Scylladb.Session.{Session}
use terraform_provider_scyll.Scylladb.Grant.Render.{IsNamed}
use terraform_provider_scyll.Scylladb.Database.{IsDatabase}
use terraform_provider_scyll.Scylladb.Authoritative.{AuthoritativeBinding, Loop, parse_identifier}
use terraform_provider_scyll.Scylladb.Authoritative.Identifier.{Denotes-table}
use terraform_provider_scyll.Scylladb.Authoritative.Requested.{requested}
use terraform_provider_scyll.Scylladb.Authoritative.Accepted.{IsAccepting}
use terraform_provider_scyll.Scylladb.Bindings.Laws.{get_bindings_state}
use terraform_provider_scyll.Scylladb.Bindings.{Reading, get_all_role_bindings_per_id}
use terraform_provider_scyll.Provider.Framework.{Value, known, done, with_summary}
use terraform_provider_scyll.Provider.Framework.Laws.{follow-done, done-injective}
use terraform_provider_scyll.Provider.Domains.{
  GrantModel, bindings_from_grants, get_grants_from_role_bindings,
}
use terraform_provider_scyll.Provider.TableGrants.{
  TableGrantsResourceModel, create, read, update, delete,
}
use terraform_provider_scyll.Provider.TableGrants.Laws.{table_read-exact, table_delete-exact}
use terraform_provider_scyll.Provider.TableGrants.Admitted.{table_admitted-reconciles}
use terraform_provider_scyll.Provider.Schema.{IsAdmitted}
use terraform_provider_scyll.Provider.Schema.Grants.{table_grants_schema, fields_of_table_grants}
use terraform_provider_scyll.Provider.Lifecycle.{
  World, GrantsResource, Lifecycle, IsWritable, IsExact, IsManaged,
}
use terraform_provider_scyll.Provider.Lifecycle.Managed.{life-IsManaged}

module _ (S : Session) ⦃u : Unicode⦄ (order : RangeOrder Loop) (readings : RangeOrder Reading)
    (imports : RangeOrder (Unit {0})) (c : Cluster) (k t : String) where
  abbrev plan : Value String → List GrantModel → TableGrantsResourceModel
  plan id grants = record { id = id; keyspace = known k; table = known t; grants = grants }

  -- The resource of one table
  abbrev pub table_life : GrantsResource S.State
  table_life = record {
    Model = TableGrantsResourceModel;
    plan = plan;
    IsAdmitted = λ id grants.
        IsAdmitted table_grants_schema (fields_of_table_grants (plan id grants)) grants;
    identifier = k <> "." <> t;
    path = resource_path (table k t);
    create = λ m. create S order readings imports c (done m);
    read = λ m. read S order readings imports c (done m);
    update = λ m. update S order readings imports c (done m);
    delete = λ m. delete S order readings imports c (done m);
  }

module _ (S : Session) (D : IsDatabase S) ⦃u : Unicode⦄ (order : RangeOrder Loop)
    (readings : RangeOrder Reading) (imports : RangeOrder (Unit {0})) (c : Cluster)
    (own : c.system_auth_keyspace_name ≡ D.auth_keyspace) (k t : String)
    (plain : lacks "." k ≡ true) (named : IsNamed (table k t)) (acc : IsAccepting S) where
  -- `Read` changes the grants of the state alone.
  read-exact :
      (grants : List GrantModel) (s : S.State) (st : TableGrantsResourceModel)
      → (read S order readings imports c
          (done (plan S order readings imports c k t (known (k <> "." <> t)) grants))
          s).0
        ≡ done st
      → (found : List GrantModel) × (bs : List AuthoritativeBinding) × (st
          ≡ plan S order readings imports c k t (known (k <> "." <> t)) found)
        × (bindings_from_grants found ≡ done bs)
        × ((r p : String) → requested bs r p ≡ D.granted s r (resource_path (table k t)) p)
        × ((read S order readings imports c
              (done (plan S order readings imports c k t (known (k <> "." <> t)) grants))
              s).1
            ≡ s)
  unfolding read
  read-exact grants s st h =
      let ident = parse_identifier (k <> "." <> t) in
      let run = get_all_role_bindings_per_id S readings c ident s in
      let (bs, ran, rest, end) =
        follow-done (with_summary "Error Reading Table Grants" run.0) _ run.1 st h in
      let (bs2, converts, exact) =
        table_read-exact S D order readings imports c own k t plain named s (known (k <> "." <> t))
          grants st h in
      let form = done-injective _ st rest in
      (
        get_grants_from_role_bindings bs,
        bs2,
        sym form,
        ap (λ x. bindings_from_grants x.grants) form ∙ converts,
        exact,
        ap (λ o. o.1) end
            ∙ get_bindings_state S D readings c own ident (table k t) (Denotes-table k t plain) s,
      )

  table_life-IsExact : IsExact S D (table_life S order readings imports c k t)
  unfolding create update
  table_life-IsExact = record {
    create-exact = λ id grants bs s admitted converts roles writable.
        let (state, _, exact) =
          table_admitted-reconciles S D order readings imports c own k t plain named s acc id grants
            bs admitted converts roles writable in
        (state, exact);
    update-create = λ m s. refl;
    read-exact = read-exact;
    delete-exact = λ grants s writable.
        (table_delete-exact S D order readings imports c own k t plain named s acc (known (""))
          grants writable).1;
  }

  -- Behind any sequence of `Create`, `Update`, `Read` and `Delete` of a table grants resource, each
  -- of which ends without an error and whose plans the schema admits, the recorded state, if there
  -- is one, has the identifier of the table and grants that ask for exactly the permissions that
  -- the database holds on it; the permissions on every other resource are as they were at the
  -- start; and the roles that hold permissions on the table have names without a quotation mark, if
  -- they had at the start. The database answers and accepts, the keyspace has no period, the
  -- cluster's keyspace is the one that holds the permissions, no name that is planned has a
  -- quotation mark, and that of the table is not empty.
  pub Lifecycle-IsManaged :
      (start : S.State) (w : World TableGrantsResourceModel S.State)
      → IsWritable S D (table_life S order readings imports c k t) start
      → Lifecycle S.State
          (table_life S order readings imports c k t)
          (record { managed = none; database = start })
          w
      → IsManaged S D (table_life S order readings imports c k t) start w
  Lifecycle-IsManaged start =
      life-IsManaged S D (table_life S order readings imports c k t) table_life-IsExact start
