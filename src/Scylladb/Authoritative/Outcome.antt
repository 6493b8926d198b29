-- ===== src/Scylladb/Authoritative/Outcome.antt =====
-- `ApplyAuthoritativeGrant` on every path, those that stop at an error included.
use terraform_provider_scyll.Base.{
  String, ◌≡◌, ◌∙◌, refl, sym, ap, subst, Bool, true, false, List, [], ◌==◌, contains, arith, All,
  if◌then◌else◌,
}
use terraform_provider_scyll.Base.Dict
use terraform_provider_scyll.Base.Dict.{Dict}
use terraform_provider_scyll.Base.Exec.{Error, Result, ok, err, Keeps-bind}
use terraform_provider_scyll.Go.Maps.{RangeOrder}
use terraform_provider_scyll.Go.Strings.{Unicode}
use terraform_provider_scyll.Cql.{Resource, resource_path}
use terraform_provider_scyll.Scylladb.Cluster.{Cluster}
use terraform_provider_scyll.Scylladb.Session.{Session}
use terraform_provider_scyll.Scylladb.Grant.Render.{IsNamed}
use terraform_provider_scyll.Scylladb.Database.{IsDatabase}
use terraform_provider_scyll.Scylladb.Authoritative.{
  ParsedIdentifier, AuthoritativeBinding, Loop, lookups, grants_of, has, valid_privileges,
  validate_bindings, add_bindings, add_current, get_all_role_permissions_per_id,
  apply_authoritative_grant,
}
use terraform_provider_scyll.Scylladb.Authoritative.Identifier.{Denotes}
use terraform_provider_scyll.Scylladb.Authoritative.Requested.{
  requested, has-desired, contains-keys-desired, requested-valid, valid-IsStored,
}
use terraform_provider_scyll.Scylladb.Authoritative.Steps.{IsRole}
use terraform_provider_scyll.Scylladb.Authoritative.Reads.{read-ok, read_state}
use terraform_provider_scyll.Scylladb.Authoritative.Apply.{
  requested-IsRole, stored_fixed, has-current,
}
use terraform_provider_scyll.Scylladb.Authoritative.Partial.{
  continue_lem, Settled, Revocable, Grantable, revoke_roles-Settled, grant_roles-Settled,
}

module _ (S : Session) (D : IsDatabase S) ⦃u : Unicode⦄ (order : RangeOrder Loop) (c : Cluster)
    (own : c.system_auth_keyspace_name ≡ D.auth_keyspace) (id : ParsedIdentifier) (res : Resource)
    (den : Denotes id res) (named : IsNamed res) (bs : List AuthoritativeBinding)
    (s : S.State) where
  open order use {visit, contains-visit}

  -- What a permission has to be in the end.
  abbrev goal : String → String → String → Bool
  goal r path p = if path == resource_path res then requested bs r p else D.granted s r path p

  goal_here : (r p : String) → goal r (resource_path res) p ≡ requested bs r p
  goal_here r p = ground arith

  module _ (writable : All (λ b. IsRole b.role) bs)
      (held : (r p : String) → D.granted s r (resource_path res) p ≡ true → IsRole r)
      (perms : Dict (List String))
      (read : (r p : String)
        → contains (Dict.get_or r perms []) p ≡ D.granted s r (resource_path res) p)
      (valid : validate_bindings bs ≡ ok tt) where
    revocable :
        (r p : String)
        → contains (Dict.get_or r perms []) p ≡ true
        → Revocable S D id res den named s goal r (Dict.get_or r (add_bindings [] bs) []) p
    revocable r p h =
        let there = sym (read r p) ∙ h in
        (
          held r p there,
          D.granted-IsStored s r (resource_path res) p there,
          there,
          λ e.
              goal_here r p
              ∙ sym (has-desired bs r p)
              ∙ ap (λ x. has (Dict.get_or r (add_bindings [] bs) []) x)
                  (sym (stored_fixed S D order res s perms read r p there))
              ∙ e,
        )

    grantable :
        (r p : String)
        → contains (visit (grants_of r) (Dict.keys (Dict.get_or r (add_bindings [] bs) []))) p
          ≡ true
        → Grantable S D id res den named s goal r
            (Dict.get_or r (add_current perms [] (visit lookups (Dict.keys perms))) [])
            p
    grantable r p h =
        let asked =
          sym (contains-keys-desired bs r p) ∙ sym (contains-visit (grants_of r) _ p) ∙ h in
        (
          requested-IsRole bs r p writable asked,
          valid-IsStored p (requested-valid bs r p valid asked),
          goal_here r p ∙ asked,
          λ e. sym (has-current S D order res s perms read r p) ∙ e,
        )

  -- Whatever `ApplyAuthoritativeGrant` returns, a permission that is already as the bindings ask
  -- for is untouched, and so is each permission on another resource. So a run that stops half way
  -- has lost no permission that was asked for, and given none that was not. The cluster's keyspace
  -- is the one that holds the permissions. The name of the resource is not empty, and neither it
  -- nor the names of the roles have a quotation mark.
  pub apply-untouched :
      All (λ b. IsRole b.role) bs
      → ((r p : String) → D.granted s r (resource_path res) p ≡ true → IsRole r)
      → (r path p : String)
      → D.granted s r path p
        ≡ (if path == resource_path res then requested bs r p else D.granted s r path p)
      → D.granted (apply_authoritative_grant S order c id bs s).1 r path p ≡ D.granted s r path p
  unfolding apply_authoritative_grant
  apply-untouched writable held =
      let P = Settled S D id res den named s goal in
      let read = get_all_role_permissions_per_id S c id in
      let still = subst P (sym (read_state S D c own id res den s)) (λ r path p e. refl) in
      continue_lem P (validate_bindings bs) _ s (λ r path p e. refl)
        (λ _ valid. continue_lem P (read s).0 _ (read s).1 still (λ perms got.
          let known = read-ok S D c own id res den s perms got in
          (Keeps-bind _ _
              (revoke_roles-Settled S D id res den named s goal perms (add_bindings [] bs) _
                (revocable writable held perms known valid))
              (λ _.
                grant_roles-Settled S D id res den named s goal _ _ (add_bindings [] bs) _
                  (grantable writable held perms known valid))).at
            (read s).1 still))

module _ (S : Session) ⦃u : Unicode⦄ (order : RangeOrder Loop) (c : Cluster) (id : ParsedIdentifier)
    (bs : List AuthoritativeBinding) (s : S.State) where
  -- Bindings that name a privilege which is not allowed are refused with an error, and the database
  -- is unchanged.
  pub apply-refused :
      (r p : String)
      → requested bs r p ≡ true
      → contains valid_privileges p ≡ false
      → (e : Error) × (apply_authoritative_grant S order c id bs s ≡ (err e, s))
  unfolding apply_authoritative_grant
  apply-refused r p asked bad = refused (validate_bindings bs) refl
    where
      refused :
          (v : Result (Unit {0}))
          → validate_bindings bs ≡ v
          → (e : Error) × (apply_authoritative_grant S order c id bs s ≡ (err e, s))
      refused (ok _) h = absurd (cc (requested-valid bs r p h asked))
      refused (err e) h = (e, rw h)
