-- ===== src/Scylladb/Authoritative/Apply.antt =====
-- `ApplyAuthoritativeGrant` when it returns no error.
use terraform_provider_scyll.Base.{
  String, ◌≡◌, ◌∙◌, refl, sym, ap, true, List, [], ◌∷◌, map, ◌==◌, contains, arith, All,
  if◌then◌else◌,
}
use terraform_provider_scyll.Base.Dict
use terraform_provider_scyll.Base.Dict.{Dict, lookup-eq-none}
use terraform_provider_scyll.Base.Exec.{ok, lift}
use terraform_provider_scyll.Go.Maps.{RangeOrder}
use terraform_provider_scyll.Go.Strings.{Unicode, to_upper}
use terraform_provider_scyll.Go.Strings.Upper.{to_upper_fixed}
use terraform_provider_scyll.Cql.{Resource, resource_path}
use terraform_provider_scyll.Scylladb.Cluster.{Cluster}
use terraform_provider_scyll.Scylladb.Session.{Session}
use terraform_provider_scyll.Scylladb.Grant.Render.{IsNamed}
use terraform_provider_scyll.Scylladb.Database.{IsDatabase}
use terraform_provider_scyll.Scylladb.Authoritative.{
  ParsedIdentifier, AuthoritativeBinding, Loop, revokes, lookups, grants, grants_of, has,
  validate_bindings, add_bindings, add_current, get_all_role_permissions_per_id, revoke_roles,
  grant_roles, apply_authoritative_grant,
}
use terraform_provider_scyll.Scylladb.Authoritative.Identifier.{Denotes}
use terraform_provider_scyll.Scylladb.Authoritative.Requested.{
  requested, has-desired, contains-keys-desired, contains-roles-desired, has-add_current,
  requested-valid, valid-IsStored,
}
use terraform_provider_scyll.Base.Exec.Inversion.{>>=-eq-ok, >>-eq-ok}
use terraform_provider_scyll.Scylladb.Authoritative.Steps.{IsRole}
use terraform_provider_scyll.Scylladb.Authoritative.Reads.{read-ok, read_state}
use terraform_provider_scyll.Scylladb.Authoritative.Revokes.{revoke_roles-ok}
use terraform_provider_scyll.Scylladb.Authoritative.Grants.{grant_roles-ok}

module _ ⦃u : Unicode⦄ where
  pub requested-IsRole :
      (bs : List AuthoritativeBinding) (r p : String)
      → All (λ b. IsRole b.role) bs
      → requested bs r p ≡ true
      → IsRole r
  unfolding requested
  requested-IsRole [] r p h m = cc
  requested-IsRole (b ∷ bs) r p (hb, hs) m = ground (arith, requested-IsRole bs r p hs)

  pub contains-map_fixed :
      (ps : List String) (p : String)
      → ((q : String) → contains ps q ≡ true → to_upper q ≡ q)
      → contains (map to_upper ps) p ≡ contains ps p
  contains-map_fixed [] p h = refl
  contains-map_fixed (q ∷ ps) p h =
      ground (arith, h q (ground arith), contains-map_fixed ps p (λ x hx. h x (ground arith)))

module _ (S : Session) (D : IsDatabase S) ⦃u : Unicode⦄ (order : RangeOrder Loop) (res : Resource)
    (s : S.State) (perms : Dict (List String))
    (read : (r p : String)
      → contains (Dict.get_or r perms []) p ≡ D.granted s r (resource_path res) p) where
  open order use {visit, contains-visit}

  pub stored_fixed : (r p : String) → D.granted s r (resource_path res) p ≡ true → to_upper p ≡ p
  stored_fixed r p h = to_upper_fixed p (D.granted-IsStored s r (resource_path res) p h).1

  -- The lookup of current permissions is what the database holds.
  pub has-current :
      (r p : String)
      → has (Dict.get_or r (add_current perms [] (visit lookups (Dict.keys perms))) []) p
        ≡ D.granted s r (resource_path res) p
  unfolding Dict.lookup
  has-current r p = ground (
    arith,
    has-add_current perms [] (visit lookups (Dict.keys perms)) r p,
    contains-visit lookups (Dict.keys perms) r,
    lookup-eq-none perms r,
    read r p,
    contains-map_fixed (Dict.get_or r perms []) p (λ q hq. stored_fixed r q (sym (read r q) ∙ hq)),
  )

module _ (S : Session) (D : IsDatabase S) ⦃u : Unicode⦄ (order : RangeOrder Loop) (c : Cluster)
    (own : c.system_auth_keyspace_name ≡ D.auth_keyspace) (id : ParsedIdentifier) (res : Resource)
    (den : Denotes id res) (named : IsNamed res) where
  open order use {visit, contains-visit}

  module _ (bs : List AuthoritativeBinding) (s : S.State) (writable : All (λ b. IsRole b.role) bs)
      (held : (r p : String) → D.granted s r (resource_path res) p ≡ true → IsRole r)
      (perms : Dict (List String))
      (read : (r p : String)
        → contains (Dict.get_or r perms []) p ≡ D.granted s r (resource_path res) p) where
    -- The two loops, from the state that was read.
    loops-ok :
        (s' : S.State)
        → ((r path p : String) → D.granted s' r path p ≡ D.granted s r path p)
        → validate_bindings bs ≡ ok tt
        → let current = add_current perms [] (visit lookups (Dict.keys perms)) in
          let desired = add_bindings [] bs in
          let m = revoke_roles S id perms desired (visit revokes (Dict.keys perms)) in
          let n =
            grant_roles S id
              (λ r. visit (grants_of r))
              current
              desired
              (visit grants (Dict.keys desired)) in
          (m s').0 ≡ ok tt
          → (n (m s').1).0 ≡ ok tt
          → (r path p : String)
          → D.granted (n (m s').1).1 r path p
            ≡ (if path == resource_path res then requested bs r p else D.granted s r path p)
    loops-ok s' same valid first rest r path p =
        let current = add_current perms [] (visit lookups (Dict.keys perms)) in
        let desired = add_bindings [] bs in
        let m = revoke_roles S id perms desired (visit revokes (Dict.keys perms)) in
        let revoked =
          revoke_roles-ok S D id res den named perms desired (visit revokes (Dict.keys perms)) s'
            (λ q x hx.
              let there = sym (read q x) ∙ hx in
              (held q x there, D.granted-IsStored s q (resource_path res) x there))
            first r path p in
        let given =
          grant_roles-ok S D id res den named (λ q. visit (grants_of q))
            (λ q. contains-visit (grants_of q)) current desired (visit grants (Dict.keys desired))
            (m s').1
            (λ q x hx.
              let asked = sym (contains-keys-desired bs q x) ∙ hx in
              (
                requested-IsRole bs q x writable asked,
                valid-IsStored x (requested-valid bs q x valid asked),
              ))
            rest r path p in
        ground (
          arith,
          revoked,
          given,
          same r path p,
          contains-visit revokes (Dict.keys perms) r,
          contains-visit grants (Dict.keys desired) r,
          lookup-eq-none perms r,
          read r p,
          has-current S D order res s perms read r p,
          contains-keys-desired bs r p,
          has-desired bs r (to_upper p),
          stored_fixed S D order res s perms read r p,
          contains-roles-desired bs r p,
        )

  -- If `ApplyAuthoritativeGrant` returns no error, then on its resource every role has exactly the
  -- privileges that the bindings name for it, in upper case, and on other resources nothing has
  -- changed. The cluster's keyspace is the one that holds the permissions. The name of the resource
  -- is not empty, and neither it nor the names of the roles have a quotation mark.
  pub apply-exact :
      (bs : List AuthoritativeBinding) (s : S.State)
      → All (λ b. IsRole b.role) bs
      → ((r p : String) → D.granted s r (resource_path res) p ≡ true → IsRole r)
      → (apply_authoritative_grant S order c id bs s).0 ≡ ok tt
      → (r path p : String)
      → D.granted (apply_authoritative_grant S order c id bs s).1 r path p
        ≡ (if path == resource_path res then requested bs r p else D.granted s r path p)
  unfolding apply_authoritative_grant
  apply-exact bs s writable held h r path p =
      let read = get_all_role_permissions_per_id S c id in
      let (checked, valid, rest₁, end₁) = >>=-eq-ok (lift (validate_bindings bs)) _ s h in
      let (perms, got, rest₂, end₂) = >>=-eq-ok read _ s rest₁ in
      let current = add_current perms [] (visit lookups (Dict.keys perms)) in
      let desired = add_bindings [] bs in
      let m = revoke_roles S id perms desired (visit revokes (Dict.keys perms)) in
      let (first, rest₃, end₃) = >>-eq-ok m _ (read s).1 rest₂ in
      let unread = ap (λ t. D.granted t) (read_state S D c own id res den s) in
      rw (end₁ ∙ end₂ ∙ end₃) (
        loops-ok bs s writable held perms (read-ok S D c own id res den s perms got) (read s).1
          (λ r' path' p' i. unread i r' path' p') valid first rest₃ r path p)
