-- ===== src/Scylladb/Authoritative/Reads.antt =====
-- What `GetAllRolePermissionsPerId` reads.
use terraform_provider_scyll.Base.{
  String, ◌<>◌, ◌≡◌, ◌∙◌, refl, ap, Option, none, some, List, [], ◌∷◌, ◌==◌, contains, arith,
  Distinct, if◌then◌else◌, Bool-cases, inl, inr,
}
use terraform_provider_scyll.Base.Dict
use terraform_provider_scyll.Base.Dict.{Dict, lookup-insert, lookup-eq-none}
use terraform_provider_scyll.Base.Exec.{Error, ok}
use terraform_provider_scyll.Go.Strings.{Unicode}
use terraform_provider_scyll.Cql.{Resource, resource_path}
use terraform_provider_scyll.Scylladb.Cluster.{Cluster}
use terraform_provider_scyll.Scylladb.Session.{Session, Rows}
use terraform_provider_scyll.Scylladb.Grant.{get_resource_name}
use terraform_provider_scyll.Scylladb.Grant.Resource.{get_resource_name-grant_for}
use terraform_provider_scyll.Scylladb.Database.{IsDatabase}
use terraform_provider_scyll.Scylladb.Authoritative.{
  ParsedIdentifier, grant_on, collect_rows, close_map, get_all_role_permissions_per_id,
}
use terraform_provider_scyll.Scylladb.Authoritative.Identifier.{Denotes}

lookup-collect_rows :
    (S : Session) (d : Dict (List String)) (rows : List (String × List String)) (r : String)
    → Distinct (Dict.keys rows)
    → Dict.lookup r (collect_rows S d rows)
      ≡ (if contains (Dict.keys rows) r then Dict.lookup r rows else Dict.lookup r d)
unfolding collect_rows Dict.lookup Dict.keys
lookup-collect_rows S d [] r h = refl
lookup-collect_rows S d ((q, ps) ∷ rows) r (fresh, h) =
    ground (arith, lookup-collect_rows S (Dict.insert q ps d) rows r h, lookup-insert r q ps d)

close_map-ok :
    (S : Session) (d perms : Dict (List String)) (close : Option Error)
    → close_map S d close ≡ ok perms
    → (close ≡ none) × (d ≡ perms)
unfolding close_map
close_map-ok S d perms none h = (refl, ground arith)
close_map-ok S d perms (some e) h = cc

abbrev pub select : String → String
select ks = "SELECT role, permissions FROM " <> ks <> ".role_permissions WHERE resource = ?"

module _ (S : Session) (D : IsDatabase S) ⦃u : Unicode⦄ (c : Cluster)
    (own : c.system_auth_keyspace_name ≡ D.auth_keyspace) (id : ParsedIdentifier) (res : Resource)
    (den : Denotes id res) where
  abbrev answer : S.State → Rows (String × List String)
  answer s = S.iter_role_permissions (select D.auth_keyspace) (resource_path res) s

  answer_lem :
      (s : S.State)
      → S.iter_role_permissions
          (select c.system_auth_keyspace_name)
          (get_resource_name (grant_on id "" ""))
          s
        ≡ answer s
  answer_lem s = λ i.
      S.iter_role_permissions (select (own i))
        ((ap get_resource_name (den "" "") ∙ get_resource_name-grant_for "" res "") i) s

  -- A read that succeeds has collected all the rows.
  read_rows :
      (s : S.State) (perms : Dict (List String))
      → (get_all_role_permissions_per_id S c id s).0 ≡ ok perms
      → ((answer s).close ≡ none) × (collect_rows S [] (answer s).rows ≡ perms)
  unfolding get_all_role_permissions_per_id
  read_rows s perms h = elim (Bool-cases (get_resource_name (grant_on id "" "") == "")) [
    | inl empty ↦ cc (rw empty at h)
    | inr named ↦ rw (← answer_lem s) (close_map-ok S _ perms _ (rw named at h))
  ]

  -- A read that succeeds gives the permissions of the resource, and changes nothing.
  pub read-ok :
      (s : S.State) (perms : Dict (List String))
      → (get_all_role_permissions_per_id S c id s).0 ≡ ok perms
      → (r p : String) → contains (Dict.get_or r perms []) p ≡ D.granted s r (resource_path res) p
  unfolding Dict.lookup
  read-ok s perms h r p =
      let (closed, collected) = read_rows s perms h in
      let rows = (answer s).rows in
      rw (← collected) (
        ground (
          arith,
          lookup-collect_rows S [] rows r (D.rows-Distinct s (resource_path res) closed),
          lookup-eq-none rows r,
          D.rows-granted s (resource_path res) closed r p,
        ))

  pub read_state : (s : S.State) → (get_all_role_permissions_per_id S c id s).1 ≡ s
  unfolding get_all_role_permissions_per_id
  read_state s = ground arith
