-- ===== src/Provider/KeyspaceGrants/Imported.antt =====
-- What `ImportState` of the keyspace grants resource imports.
use terraform_provider_scyll.Base.{
  String, ◌<>◌, ◌≡◌, sym, ap, subst, true, List, [], ◌∷◌, text_discrete,
}
use terraform_provider_scyll.Base.Dict
use terraform_provider_scyll.Base.Dict.{Dict}
use terraform_provider_scyll.Go.Maps.{RangeOrder}
use terraform_provider_scyll.Go.Strings.{Unicode, lacks}
use terraform_provider_scyll.Cql.{keyspace, resource_path}
use terraform_provider_scyll.Scylladb.Cluster.{Cluster}
use terraform_provider_scyll.Scylladb.Session.{Session}
use terraform_provider_scyll.Scylladb.Database.{IsDatabase}
use terraform_provider_scyll.Scylladb.Authoritative.{
  ParsedIdentifier, AuthoritativeBinding, Loop, get_all_role_permissions_per_id,
}
use terraform_provider_scyll.Scylladb.Authoritative.Identifier.{
  parse_identifier_table, parse_identifier_keyspace, Denotes, Denotes-keyspace,
}
use terraform_provider_scyll.Scylladb.Authoritative.Requested.{requested}
use terraform_provider_scyll.Scylladb.Bindings.{Reading, bindings_of}
use terraform_provider_scyll.Scylladb.Bindings.Laws.{bindings_of-exact}
use terraform_provider_scyll.Provider.Framework.{known, done, failed, with_summary}
use terraform_provider_scyll.Provider.Framework.Laws.{
  follow-done, done-injective, with_summary-done,
}
use terraform_provider_scyll.Provider.Domains.{
  GrantModel, get_grants_from_role_bindings, bindings_from_grants,
}
use terraform_provider_scyll.Provider.Domains.RoundTrip.{bindings_from_grants-get_grants}
use terraform_provider_scyll.Provider.KeyspaceGrants.{
  KeyspaceGrantsResourceModel, import_error, imported, import_parsed, import_state,
}

module _ (S : Session) (D : IsDatabase S) ⦃u : Unicode⦄ (order : RangeOrder Loop)
    (readings : RangeOrder Reading) (imports : RangeOrder (Unit {0})) (c : Cluster)
    (own : c.system_auth_keyspace_name ≡ D.auth_keyspace) (s : S.State) where
  -- The state that is set, if one is.
  imported-done :
      (id : ParsedIdentifier) (perms : Dict (List String)) (s' : S.State)
      (st : KeyspaceGrantsResourceModel)
      → (imported S order readings imports c id perms s').0 ≡ done st
      → record {
        id = known id.original;
        keyspace = known id.keyspace;
        grants =
            get_grants_from_role_bindings (bindings_of perms (imports.visit tt (Dict.keys perms)));
      }
        ≡ st
  unfolding imported
  imported-done id [] s' st h = cc
  imported-done id (entry ∷ rest) s' st h = done-injective _ st h

  module _ (k : String) (plain : lacks "." k ≡ true) where
    abbrev pub IsImported : KeyspaceGrantsResourceModel → Type 0
    IsImported st =
        (grants : List GrantModel) × (bs : List AuthoritativeBinding) × (st
          ≡ record { id = known k; keyspace = known k; grants = grants })
        × (bindings_from_grants grants ≡ done bs)
        × ((r p : String) → requested bs r p ≡ D.granted s r (resource_path (keyspace k)) p)

    abbrev ident : ParsedIdentifier
    ident = record { resource_type = "KEYSPACE"; keyspace = k; table = ""; original = k }

    parsed-IsImported :
        (st : KeyspaceGrantsResourceModel)
        → (import_parsed S order readings imports c k ident s).0 ≡ done st
        → IsImported st
    unfolding import_parsed text_discrete
    parsed-IsImported st h =
        let run = get_all_role_permissions_per_id S c ident s in
        let (perms, ran, rest, end) =
          follow-done (with_summary "Error Importing Keyspace Grants" run.0)
            (imported S order readings imports c ident) run.1 st h in
        let read = with_summary-done "Error Importing Keyspace Grants" run.0 perms ran in
        let roles = imports.visit tt (Dict.keys perms) in
        let denotes =
          subst (λ i. Denotes i (keyspace k)) (parse_identifier_keyspace k plain)
            (Denotes-keyspace k plain) in
        (
          get_grants_from_role_bindings (bindings_of perms roles),
          bindings_of perms roles,
          sym (imported-done ident perms run.1 st rest),
          bindings_from_grants-get_grants (bindings_of perms roles),
          bindings_of-exact S D c own ident (keyspace k) denotes s perms roles read
              (imports.contains-visit tt (Dict.keys perms)),
        )

    -- If `ImportState` of the identifier of a keyspace ends without an error, the state has that
    -- identifier and the keyspace, and grants that are taken out, by `extractPlanData`, as bindings
    -- that ask for exactly the permissions that the database holds on the keyspace, in whatever
    -- order the map is visited. The keyspace has no period, and the cluster's keyspace is the one
    -- that holds the permissions.
    pub keyspace_import-exact :
        (st : KeyspaceGrantsResourceModel)
        → (import_state S order readings imports c k s).0 ≡ done st
        → IsImported st
    unfolding import_state
    keyspace_import-exact st h = parsed-IsImported st (
        subst (λ i. (import_parsed S order readings imports c k i s).0 ≡ done st)
          (parse_identifier_keyspace k plain) h)

  -- `ImportState` of the keyspace grants resource refuses an identifier with a period with one
  -- error that names it, sets no state and leaves the database as it is.
  pub keyspace_import_refused :
      (k t : String)
      → lacks "." k ≡ true
      → let text = k <> "." <> t in
        import_state S order readings imports c text s ≡ (failed (import_error text ∷ []), s)
  unfolding import_state import_parsed text_discrete
  keyspace_import_refused k t plain =
      ap (λ i. import_parsed S order readings imports c (k <> "." <> t) i s)
        (parse_identifier_table k t plain)
