-- ===== src/Scylladb/Authoritative/Idle.antt =====
-- `ApplyAuthoritativeGrant` where there is nothing to do.
use terraform_provider_scyll.Base.{
  String, ◌≡◌, ◌∙◌, refl, sym, ap, Bool, true, List, [], ◌∷◌, contains, arith,
}
use terraform_provider_scyll.Base.Dict
use terraform_provider_scyll.Base.Dict.{Dict}
use terraform_provider_scyll.Base.Exec.{ok}
use terraform_provider_scyll.Go.Maps.{RangeOrder}
use terraform_provider_scyll.Go.Strings.{Unicode, to_upper}
use terraform_provider_scyll.Cql.{Resource, resource_path}
use terraform_provider_scyll.Scylladb.Cluster.{Cluster}
use terraform_provider_scyll.Scylladb.Session.{Session}
use terraform_provider_scyll.Scylladb.Database.{IsDatabase}
use terraform_provider_scyll.Scylladb.Authoritative.{
  ParsedIdentifier, AuthoritativeBinding, Loop, revokes, lookups, grants, grants_of, has,
  valid_privileges, add_bindings, add_current, get_all_role_permissions_per_id, revoke_privileges,
  revoke_roles, grant_privileges, grant_roles, apply_authoritative_grant,
}
use terraform_provider_scyll.Scylladb.Authoritative.Identifier.{Denotes}
use terraform_provider_scyll.Scylladb.Authoritative.Requested.{
  requested, has-desired, contains-keys-desired, validate_of_requested,
}
use terraform_provider_scyll.Scylladb.Authoritative.Reads.{read-ok, read_state}
use terraform_provider_scyll.Scylladb.Authoritative.Apply.{stored_fixed, has-current}

module _ (S : Session) (id : ParsedIdentifier) ⦃u : Unicode⦄ where
  revoke_privileges_idle :
      (r : String) (wanted : Dict Bool) (ps : List String) (s : S.State)
      → ((p : String) → contains ps p ≡ true → has wanted (to_upper p) ≡ true)
      → revoke_privileges S id r wanted ps s ≡ (ok tt, s)
  unfolding revoke_privileges
  revoke_privileges_idle r wanted [] s h = refl
  revoke_privileges_idle r wanted (p ∷ ps) s h =
      rw (h p (ground arith)) (revoke_privileges_idle r wanted ps s (λ x hx. h x (ground arith)))

  revoke_roles_idle :
      (perms : Dict (List String)) (desired : Dict (Dict Bool)) (rs : List String) (s : S.State)
      → ((r p : String)
          → contains (Dict.get_or r perms []) p ≡ true
          → has (Dict.get_or r desired []) (to_upper p) ≡ true)
      → revoke_roles S id perms desired rs s ≡ (ok tt, s)
  unfolding revoke_roles
  revoke_roles_idle perms desired [] s h = refl
  revoke_roles_idle perms desired (r ∷ rs) s h =
      rw (revoke_privileges_idle r (Dict.get_or r desired []) (Dict.get_or r perms []) s (h r))
        (revoke_roles_idle perms desired rs s h)

  grant_privileges_idle :
      (r : String) (current : Dict Bool) (ps : List String) (s : S.State)
      → ((p : String) → contains ps p ≡ true → has current p ≡ true)
      → grant_privileges S id r current ps s ≡ (ok tt, s)
  unfolding grant_privileges
  grant_privileges_idle r current [] s h = refl
  grant_privileges_idle r current (p ∷ ps) s h =
      rw (h p (ground arith)) (grant_privileges_idle r current ps s (λ x hx. h x (ground arith)))

  grant_roles_idle :
      (visit : String → List String → List String) (current desired : Dict (Dict Bool))
      (rs : List String) (s : S.State)
      → ((r p : String)
          → contains (visit r (Dict.keys (Dict.get_or r desired []))) p ≡ true
          → has (Dict.get_or r current []) p ≡ true)
      → grant_roles S id visit current desired rs s ≡ (ok tt, s)
  unfolding grant_roles
  grant_roles_idle visit current desired [] s h = refl
  grant_roles_idle visit current desired (r ∷ rs) s h =
      rw
        (grant_privileges_idle r (Dict.get_or r current [])
          (visit r (Dict.keys (Dict.get_or r desired []))) s (h r))
        (grant_roles_idle visit current desired rs s h)

module _ (S : Session) (D : IsDatabase S) ⦃u : Unicode⦄ (order : RangeOrder Loop) (c : Cluster)
    (own : c.system_auth_keyspace_name ≡ D.auth_keyspace) (id : ParsedIdentifier) (res : Resource)
    (den : Denotes id res) where
  open order use {visit, contains-visit}

  -- Where the permissions of the resource are already those that valid bindings ask for and the
  -- read succeeds, the whole state of the database is the same behind `ApplyAuthoritativeGrant`,
  -- which returns no error. The cluster's keyspace is the one that holds the permissions.
  pub apply_idle :
      (bs : List AuthoritativeBinding) (s : S.State) {perms : Dict (List String)}
      → (get_all_role_permissions_per_id S c id s).0 ≡ ok perms
      → ((r p : String) → requested bs r p ≡ true → contains valid_privileges p ≡ true)
      → ((r p : String) → D.granted s r (resource_path res) p ≡ requested bs r p)
      → apply_authoritative_grant S order c id bs s ≡ (ok tt, s)
  unfolding apply_authoritative_grant
  apply_idle bs s {perms} got allowed same =
      let known = read-ok S D c own id res den s perms got in
      let desired = add_bindings [] bs in
      let current = add_current perms [] (visit lookups (Dict.keys perms)) in
      rw
        (
          validate_of_requested bs allowed,
          got,
          read_state S D c own id res den s,
          revoke_roles_idle S id perms desired (visit revokes (Dict.keys perms)) s (λ r p h.
              let there = sym (known r p) ∙ h in
              ap (λ x. has (Dict.get_or r desired []) x)
                (stored_fixed S D order res s perms known r p there)
              ∙ has-desired bs r p
              ∙ sym (same r p)
              ∙ there),
        )
        (grant_roles_idle S id (λ r. visit (grants_of r)) current desired
          (visit grants (Dict.keys desired)) s
          (λ r p h.
            has-current S D order res s perms known r p
            ∙ same r p
            ∙ sym (contains-keys-desired bs r p)
            ∙ sym (contains-visit (grants_of r) _ p)
            ∙ h))
