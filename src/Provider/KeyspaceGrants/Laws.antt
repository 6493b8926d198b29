-- ===== src/Provider/KeyspaceGrants/Laws.antt =====
-- What the handlers of the keyspace grants resource do to the database and to the state.
use terraform_provider_scyll.Base.{
  String, ◌≡◌, ◌∙◌, refl, sym, ap, subst, true, false, List, ◌==◌, contains, All, if◌then◌else◌,
}
use terraform_provider_scyll.Go.Maps.{RangeOrder}
use terraform_provider_scyll.Go.Strings.{Unicode, lacks}
use terraform_provider_scyll.Cql.{keyspace, resource_path}
use terraform_provider_scyll.Scylladb.Cluster.{Cluster}
use terraform_provider_scyll.Scylladb.Session.{Session}
use terraform_provider_scyll.Scylladb.Grant.Render.{IsNamed}
use terraform_provider_scyll.Scylladb.Database.{IsDatabase}
use terraform_provider_scyll.Scylladb.Authoritative.{
  AuthoritativeBinding, Loop, valid_privileges, parse_identifier,
}
use terraform_provider_scyll.Scylladb.Authoritative.Identifier.{
  parse_identifier_keyspace, Denotes-keyspace,
}
use terraform_provider_scyll.Scylladb.Authoritative.Requested.{requested}
use terraform_provider_scyll.Scylladb.Authoritative.Steps.{IsRole}
use terraform_provider_scyll.Scylladb.Authoritative.Accepted.{IsAccepting, apply-reconciles}
use terraform_provider_scyll.Scylladb.Authoritative.RevokeAll.{revoke_all-exact, revoke_all-returns}
use terraform_provider_scyll.Scylladb.Bindings.{Reading, get_all_role_bindings_per_id}
use terraform_provider_scyll.Scylladb.Bindings.Laws.{bindings-exact, apply-bindings_idle}
use terraform_provider_scyll.Provider.Framework.{Value, known, Fallible, done, with_summary}
use terraform_provider_scyll.Provider.Framework.Laws.{
  follow-done, done-injective, with_summary-done,
}
use terraform_provider_scyll.Provider.Domains.{GrantModel, bindings_from_grants}
use terraform_provider_scyll.Provider.Domains.RoundTrip.{bindings_from_grants-get_grants}
use terraform_provider_scyll.Provider.KeyspaceGrants.{
  KeyspaceGrantsResourceModel, extract_plan_data, apply_plan_data, create, read, update, delete,
}

module _ (S : Session) (D : IsDatabase S) ⦃u : Unicode⦄ (order : RangeOrder Loop)
    (readings : RangeOrder Reading) (imports : RangeOrder (Unit {0})) (c : Cluster)
    (own : c.system_auth_keyspace_name ≡ D.auth_keyspace) (k : String) (plain : lacks "." k ≡ true)
    (named : IsNamed (keyspace k)) (s : S.State) where
  abbrev model : Value String → List GrantModel → KeyspaceGrantsResourceModel
  model id grants = record { id = id; keyspace = known k; grants = grants }

  abbrev handle : KeyspaceGrantsResourceModel → Fallible KeyspaceGrantsResourceModel × S.State
  handle plan = create S order readings imports c (done plan) s

  -- On a database that answers and accepts, `Create` and `Update` of a plan end without an error:
  -- the state is the plan with the identifier, every role has on the keyspace exactly the
  -- privileges planned for it, and nothing else has changed. The privileges planned are allowed,
  -- the keyspace has no period, the cluster's keyspace is the one that holds the permissions, no
  -- name has a quotation mark, and that of the resource is not empty.
  pub keyspace_create-reconciles :
      (acc : IsAccepting S) (id : Value String) (grants : List GrantModel)
      (bs : List AuthoritativeBinding)
      → bindings_from_grants grants ≡ done bs
      → All (λ b. IsRole b.role) bs
      → ((r p : String) → D.granted s r (resource_path (keyspace k)) p ≡ true → IsRole r)
      → ((r p : String) → requested bs r p ≡ true → contains valid_privileges p ≡ true)
      → ((handle (model id grants)).0 ≡ done (model (known (k)) grants))
        × (update S order readings imports c (done (model id grants)) s ≡ handle (model id grants))
        × ((r path p : String)
            → D.granted (handle (model id grants)).1 r path p ≡ (
                if path == resource_path (keyspace k)
                then requested bs r p
                else D.granted s r path p))
  unfolding create update apply_plan_data extract_plan_data
  keyspace_create-reconciles acc id grants bs planned writable held allowed =
      let (returned, exact) =
        apply-reconciles S D acc order c own (parse_identifier (k)) (keyspace k)
          (Denotes-keyspace k plain) named bs s writable held allowed in
      let original = ap (λ i. i.original) (parse_identifier_keyspace k plain) in
      (rw (planned, returned, original) refl, refl, rw (planned, returned) exact)

  -- If `Read` ends without an error, then the grants of its state are taken out, by
  -- `extractPlanData`, as bindings that ask for exactly the permissions that the database holds on
  -- the keyspace. The keyspace has no period, the cluster's keyspace is the one that holds the
  -- permissions, no name has a quotation mark, and that of the resource is not empty.
  pub keyspace_read-exact :
      (id : Value String) (grants : List GrantModel) (st : KeyspaceGrantsResourceModel)
      → (read S order readings imports c (done (model id grants)) s).0 ≡ done st
      → (bs : List AuthoritativeBinding) × (bindings_from_grants st.grants ≡ done bs)
        × ((r p : String) → requested bs r p ≡ D.granted s r (resource_path (keyspace k)) p)
  unfolding read
  keyspace_read-exact id grants st h =
      let ident = parse_identifier (k) in
      let run = get_all_role_bindings_per_id S readings c ident s in
      let (bs, ran, rest, end) =
        follow-done (with_summary "Error Reading Keyspace Grants" run.0) _ run.1 st h in
      let got = with_summary-done "Error Reading Keyspace Grants" run.0 bs ran in
      (
        bs,
        ap (λ m. bindings_from_grants m.grants) (sym (done-injective _ st rest))
            ∙ bindings_from_grants-get_grants bs,
        bindings-exact S D readings c own ident (keyspace k) (Denotes-keyspace k plain) bs s got,
      )

  -- On a database that answers and accepts, `Delete` ends without an error, no role has a
  -- permission on the keyspace, and nothing else has changed. The keyspace has no period, the
  -- cluster's keyspace is the one that holds the permissions, no name has a quotation mark, and
  -- that of the resource is not empty.
  pub keyspace_delete-exact :
      (acc : IsAccepting S) (id : Value String) (grants : List GrantModel)
      → ((r p : String) → D.granted s r (resource_path (keyspace k)) p ≡ true → IsRole r)
      → ((delete S order readings imports c (done (model id grants)) s).0 ≡ done tt)
        × ((r path p : String)
            → D.granted (delete S order readings imports c (done (model id grants)) s).1 r path p
              ≡ (if path == resource_path (keyspace k) then false else D.granted s r path p))
  unfolding delete
  keyspace_delete-exact acc id grants held =
      let ident = parse_identifier (k) in
      let den = Denotes-keyspace k plain in
      let returned = revoke_all-returns S D ident (keyspace k) den named order c own s held acc in
      (
        rw returned refl,
        revoke_all-exact S D ident (keyspace k) den named order c own s held returned,
      )

  -- Right behind a `Read` that ends without an error, an `Update` to the state that was read
  -- changes nothing in the database and sets that state again, if the privileges on the keyspace
  -- are ones that may be planned. The keyspace has no period, the cluster's keyspace is the one
  -- that holds the permissions, no name has a quotation mark, and that of the resource is not
  -- empty.
  pub keyspace_read-update_idle :
      (grants : List GrantModel) (st : KeyspaceGrantsResourceModel)
      → (read S order readings imports c (done (model (known k) grants)) s).0 ≡ done st
      → ((r p : String)
          → D.granted s r (resource_path (keyspace k)) p ≡ true
          → contains valid_privileges p ≡ true)
      → update S order readings imports c (done st) s ≡ (done st, s)
  unfolding read update apply_plan_data extract_plan_data
  keyspace_read-update_idle grants st h allowed =
      let ident = parse_identifier (k) in
      let run = get_all_role_bindings_per_id S readings c ident s in
      let (bs, ran, rest, end) =
        follow-done (with_summary "Error Reading Keyspace Grants" run.0) _ run.1 st h in
      let got = with_summary-done "Error Reading Keyspace Grants" run.0 bs ran in
      let idle =
        apply-bindings_idle S D readings c own ident (keyspace k) (Denotes-keyspace k plain) bs s
          got order allowed in
      let original = ap (λ i. i.original) (parse_identifier_keyspace k plain) in
      subst (λ x. update S order readings imports c (done x) s ≡ (done x, s))
        (done-injective _ st rest) (rw (bindings_from_grants-get_grants bs, idle, original) refl)
