-- ===== src/Scylladb/Authoritative/RevokeAll.antt =====
-- `RevokeAllGrantsOnIdentifier`, which a resource's `Delete` calls.
use terraform_provider_scyll.Base.{
  String, ◌≡◌, ◌∙◌, refl, sym, ap, true, false, ◌&&◌, List, [], ◌∷◌, ◌==◌, contains, arith,
  if◌then◌else◌,
}
use terraform_provider_scyll.Base.Dict
use terraform_provider_scyll.Base.Dict.{Dict, lookup-eq-none}
use terraform_provider_scyll.Base.Exec.{ok}
use terraform_provider_scyll.Go.Maps.{RangeOrder}
use terraform_provider_scyll.Go.Strings.{Unicode}
use terraform_provider_scyll.Cql.{Resource, resource_path}
use terraform_provider_scyll.Scylladb.Cluster.{Cluster}
use terraform_provider_scyll.Scylladb.Session.{Session}
use terraform_provider_scyll.Scylladb.Grant.{delete_grant}
use terraform_provider_scyll.Scylladb.Grant.Render.{IsNamed}
use terraform_provider_scyll.Scylladb.Database.{IsDatabase, IsStored}
use terraform_provider_scyll.Scylladb.Authoritative.{
  ParsedIdentifier, Loop, revokes, grant_on, get_all_role_permissions_per_id, revoke_all_privileges,
  revoke_all_roles, revoke_all_grants_on_identifier,
}
use terraform_provider_scyll.Scylladb.Authoritative.Identifier.{Denotes}
use terraform_provider_scyll.Base.Exec.Inversion.{>>=-eq-ok, >>-eq-ok}
use terraform_provider_scyll.Scylladb.Authoritative.Steps.{IsRole, delete_grant-ok}
use terraform_provider_scyll.Scylladb.Authoritative.Reads.{read-ok, read_state}
use terraform_provider_scyll.Scylladb.Authoritative.Accepted.{
  IsAccepting, Returns, Returns-then, Returns-delete_grant, read_returns,
}

module _ (S : Session) (D : IsDatabase S) ⦃u : Unicode⦄ (id : ParsedIdentifier) (res : Resource)
    (den : Denotes id res) (named : IsNamed res) where
  revoke_all_privileges-ok :
      (r : String) (ps : List String) (s : S.State)
      → ((p : String) → contains ps p ≡ true → IsRole r × IsStored p)
      → (revoke_all_privileges S id r ps s).0 ≡ ok tt
      → (r' path p' : String)
      → D.granted (revoke_all_privileges S id r ps s).1 r' path p' ≡ (
          if r' == r && path == resource_path res && contains ps p'
          then false
          else D.granted s r' path p')
  unfolding revoke_all_privileges
  revoke_all_privileges-ok r [] s hs h r' path p' = ground arith
  revoke_all_privileges-ok r (p ∷ ps) s hs h r' path p' =
      let here = hs p (ground arith) in
      let m = delete_grant S (grant_on id r p) in
      let (first, rest, end) = >>-eq-ok m (revoke_all_privileges S id r ps) s h in
      rw end (
        ground (
          arith,
          delete_grant-ok S D id res den named r p here.0 here.1 s r' path p' first,
          revoke_all_privileges-ok r ps (m s).1 (λ x hx. hs x (ground arith)) rest r' path p',
        ))

  revoke_all_roles-ok :
      (perms : Dict (List String)) (rs : List String) (s : S.State)
      → ((r p : String) → contains (Dict.get_or r perms []) p ≡ true → IsRole r × IsStored p)
      → (revoke_all_roles S id perms rs s).0 ≡ ok tt
      → (r path p : String)
      → D.granted (revoke_all_roles S id perms rs s).1 r path p ≡ (
          if contains rs r && path == resource_path res && contains (Dict.get_or r perms []) p
          then false
          else D.granted s r path p)
  unfolding revoke_all_roles
  revoke_all_roles-ok perms [] s hs h r path p = ground arith
  revoke_all_roles-ok perms (q ∷ rs) s hs h r path p =
      let m = revoke_all_privileges S id q (Dict.get_or q perms []) in
      let (first, rest, end) = >>-eq-ok m (revoke_all_roles S id perms rs) s h in
      rw end (
        ground (
          arith,
          revoke_all_privileges-ok q (Dict.get_or q perms []) s (hs q) first r path p,
          revoke_all_roles-ok perms rs (m s).1 hs rest r path p,
        ))

  module _ (acc : IsAccepting S) where
    Returns-revoke_all_privileges :
        (r : String) (ps : List String)
        → ((p : String) → contains ps p ≡ true → IsRole r × IsStored p)
        → Returns (revoke_all_privileges S id r ps)
    unfolding revoke_all_privileges
    Returns-revoke_all_privileges r [] h = λ t. refl
    Returns-revoke_all_privileges r (p ∷ ps) h =
        let here = h p (ground arith) in
        Returns-then _ _ (Returns-delete_grant S D acc id res den named r p here.0 here.1)
          (Returns-revoke_all_privileges r ps (λ x hx. h x (ground arith)))

    Returns-revoke_all_roles :
        (perms : Dict (List String)) (rs : List String)
        → ((r p : String) → contains (Dict.get_or r perms []) p ≡ true → IsRole r × IsStored p)
        → Returns (revoke_all_roles S id perms rs)
    unfolding revoke_all_roles
    Returns-revoke_all_roles perms [] h = λ t. refl
    Returns-revoke_all_roles perms (r ∷ rs) h =
        Returns-then _ _ (Returns-revoke_all_privileges r _ (h r))
          (Returns-revoke_all_roles perms rs h)

  module _ (order : RangeOrder Loop) (c : Cluster)
      (own : c.system_auth_keyspace_name ≡ D.auth_keyspace) (s : S.State)
      (held : (r p : String) → D.granted s r (resource_path res) p ≡ true → IsRole r) where
    open order use {visit, contains-visit}

    known_held :
        (perms : Dict (List String))
        → (get_all_role_permissions_per_id S c id s).0 ≡ ok perms
        → (r p : String) → contains (Dict.get_or r perms []) p ≡ true
        → IsRole r × IsStored p
    known_held perms got r p h =
        let there = sym (read-ok S D c own id res den s perms got r p) ∙ h in
        (held r p there, D.granted-IsStored s r (resource_path res) p there)

    -- If `RevokeAllGrantsOnIdentifier` returns no error, no role has a permission on the resource,
    -- and nothing else has changed. The cluster's keyspace is the one that holds the permissions.
    -- The name of the resource is not empty, and neither it nor the names of the roles have a
    -- quotation mark.
    pub revoke_all-exact :
        (revoke_all_grants_on_identifier S order c id s).0 ≡ ok tt
        → (r path p : String)
        → D.granted (revoke_all_grants_on_identifier S order c id s).1 r path p
          ≡ (if path == resource_path res then false else D.granted s r path p)
    unfolding revoke_all_grants_on_identifier
    revoke_all-exact h r path p =
        let read = get_all_role_permissions_per_id S c id in
        let (perms, got, rest, end) = >>=-eq-ok read _ s h in
        rw end (
          ground (
            arith,
            revoke_all_roles-ok perms (visit revokes (Dict.keys perms)) (read s).1
                (known_held perms got) rest r path p,
            contains-visit revokes (Dict.keys perms) r,
            lookup-eq-none perms r,
            read-ok S D c own id res den s perms got r p,
            ap (λ t. D.granted t r path p) (read_state S D c own id res den s),
          ))

    -- On a database that answers and accepts, `RevokeAllGrantsOnIdentifier` returns no error. The
    -- cluster's keyspace is the one that holds the permissions. The name of the resource is not
    -- empty, and neither it nor the names of the roles have a quotation mark.
    pub revoke_all-returns :
        IsAccepting S → (revoke_all_grants_on_identifier S order c id s).0 ≡ ok tt
    unfolding revoke_all_grants_on_identifier
    revoke_all-returns acc =
        let (perms, got) = read_returns S D acc id res den named c s in
        rw got (
          Returns-revoke_all_roles acc perms (visit revokes (Dict.keys perms))
            (known_held perms got) (get_all_role_permissions_per_id S c id s).1)
