-- ===== src/Scylladb/Authoritative/Accepted.antt =====
-- `ApplyAuthoritativeGrant` on a database that answers every read and accepts every statement.
use terraform_provider_scyll.Base.{
  String, ◌≡◌, ◌∙◌, refl, sym, ap, Bool, true, false, none, some, List, [], ◌∷◌, ◌==◌, contains,
  arith, All, if◌then◌else◌,
}
use terraform_provider_scyll.Base.Dict
use terraform_provider_scyll.Base.Dict.{Dict}
use terraform_provider_scyll.Base.Exec.{ok, pure, Exec, ◌>>◌}
use terraform_provider_scyll.Go.Maps.{RangeOrder}
use terraform_provider_scyll.Go.Strings.{Unicode, to_upper}
use terraform_provider_scyll.Cql.{grant, revoke, Statement, Resource, resource_path, parse}
use terraform_provider_scyll.Scylladb.Cluster.{Cluster}
use terraform_provider_scyll.Scylladb.Session.{Session}
use terraform_provider_scyll.Scylladb.Grant.{create_grant, delete_grant, get_resource_name}
use terraform_provider_scyll.Scylladb.Grant.Render.{IsNamed}
use terraform_provider_scyll.Scylladb.Grant.Resource.{
  get_resource_name-grant_for, resource_path-ne-empty,
}
use terraform_provider_scyll.Scylladb.Database.{IsDatabase, IsStored}
use terraform_provider_scyll.Scylladb.Authoritative.{
  ParsedIdentifier, AuthoritativeBinding, Loop, revokes, lookups, grants, grants_of, grant_on, has,
  valid_privileges, add_bindings, add_current, collect_rows, close_map,
  get_all_role_permissions_per_id, revoke_privileges, revoke_roles, grant_privileges, grant_roles,
  apply_authoritative_grant,
}
use terraform_provider_scyll.Scylladb.Authoritative.Identifier.{Denotes}
use terraform_provider_scyll.Scylladb.Authoritative.Requested.{
  requested, contains-keys-desired, valid-IsStored, validate_of_requested,
}
use terraform_provider_scyll.Scylladb.Authoritative.Steps.{IsRole, parse-grant_on}
use terraform_provider_scyll.Scylladb.Authoritative.Reads.{select, read-ok}
use terraform_provider_scyll.Scylladb.Authoritative.Apply.{requested-IsRole, apply-exact}

-- The database answers every read, and accepts every statement on a single privilege.
pub record IsAccepting (S : Session) : Type 0 where
  pub answers : (q path : String) (s : S.State) → (S.iter_role_permissions q path s).close ≡ none
  pub accepts :
      (q : String) (st : Statement) (s : S.State)
      → parse q ≡ some st
      → IsStored st.privilege
      → (S.exec q s).0 ≡ ok tt

abbrev pub Returns : {T : Type 0} → Exec T (Unit {0}) → Type 0
Returns {T} m = (t : T) → (m t).0 ≡ ok tt

pub Returns-then : {T : Type 0} (m n : Exec T (Unit {0})) → Returns m → Returns n → Returns (m >> n)
Returns-then m n hm hn t = rw (hm t) (hn (m t).1)

Returns-unless :
    {T : Type 0} (b : Bool) (m : Exec T (Unit {0})) → Returns m → Returns (if b then pure tt else m)
Returns-unless true m h t = refl
Returns-unless false m h t = h t

module _ (S : Session) (D : IsDatabase S) (acc : IsAccepting S) (id : ParsedIdentifier)
    (res : Resource) (den : Denotes id res) (named : IsNamed res) where
  pub Returns-delete_grant :
      (r p : String) → IsRole r → IsStored p → Returns (delete_grant S (grant_on id r p))
  unfolding delete_grant
  Returns-delete_grant r p hr hp t =
      acc.accepts _ _ t (parse-grant_on S D id res den named revoke r p hr hp) hp

  Returns-create_grant :
      (r p : String) → IsRole r → IsStored p → Returns (create_grant S (grant_on id r p))
  unfolding create_grant
  Returns-create_grant r p hr hp t =
      acc.accepts _ _ t (parse-grant_on S D id res den named grant r p hr hp) hp

  module _ ⦃u : Unicode⦄ where
    Returns-revoke_privileges :
        (r : String) (wanted : Dict Bool) (ps : List String)
        → ((p : String) → contains ps p ≡ true → IsRole r × IsStored p)
        → Returns (revoke_privileges S id r wanted ps)
    unfolding revoke_privileges
    Returns-revoke_privileges r wanted [] h = λ t. refl
    Returns-revoke_privileges r wanted (p ∷ ps) h =
        let here = h p (ground arith) in
        Returns-then _ _
          (Returns-unless (has wanted (to_upper p)) _ (Returns-delete_grant r p here.0 here.1))
          (Returns-revoke_privileges r wanted ps (λ x hx. h x (ground arith)))

    Returns-revoke_roles :
        (perms : Dict (List String)) (desired : Dict (Dict Bool)) (rs : List String)
        → ((r p : String) → contains (Dict.get_or r perms []) p ≡ true → IsRole r × IsStored p)
        → Returns (revoke_roles S id perms desired rs)
    unfolding revoke_roles
    Returns-revoke_roles perms desired [] h = λ t. refl
    Returns-revoke_roles perms desired (r ∷ rs) h =
        Returns-then _ _ (Returns-revoke_privileges r _ _ (h r))
          (Returns-revoke_roles perms desired rs h)

    Returns-grant_privileges :
        (r : String) (current : Dict Bool) (ps : List String)
        → ((p : String) → contains ps p ≡ true → IsRole r × IsStored p)
        → Returns (grant_privileges S id r current ps)
    unfolding grant_privileges
    Returns-grant_privileges r current [] h = λ t. refl
    Returns-grant_privileges r current (p ∷ ps) h =
        let here = h p (ground arith) in
        Returns-then _ _ (Returns-unless (has current p) _ (Returns-create_grant r p here.0 here.1))
          (Returns-grant_privileges r current ps (λ x hx. h x (ground arith)))

    Returns-grant_roles :
        (visit : String → List String → List String) (current desired : Dict (Dict Bool))
        (rs : List String)
        → ((r p : String)
            → contains (visit r (Dict.keys (Dict.get_or r desired []))) p ≡ true
            → IsRole r × IsStored p)
        → Returns (grant_roles S id visit current desired rs)
    unfolding grant_roles
    Returns-grant_roles visit current desired [] h = λ t. refl
    Returns-grant_roles visit current desired (r ∷ rs) h =
        Returns-then _ _ (Returns-grant_privileges r _ _ (h r))
          (Returns-grant_roles visit current desired rs h)

    -- The read returns a map.
    pub read_returns :
        (c : Cluster) (s : S.State)
        → (perms : Dict (List String)) × ((get_all_role_permissions_per_id S c id s).0 ≡ ok perms)
    unfolding get_all_role_permissions_per_id close_map
    read_returns c s =
        let name = ap get_resource_name (den "" "") ∙ get_resource_name-grant_for "" res "" in
        let named_so = ap (λ n. n == "") name ∙ resource_path-ne-empty res in
        let path = get_resource_name (grant_on id "" "") in
        (
          collect_rows S []
              (S.iter_role_permissions (select c.system_auth_keyspace_name) path s).rows,
          rw (named_so, acc.answers, close_map),
        )

module _ (S : Session) (D : IsDatabase S) (acc : IsAccepting S) ⦃u : Unicode⦄
    (order : RangeOrder Loop) (c : Cluster) (own : c.system_auth_keyspace_name ≡ D.auth_keyspace)
    (id : ParsedIdentifier) (res : Resource) (den : Denotes id res) (named : IsNamed res) where
  open order use {visit, contains-visit}

  -- On a database that answers every read and accepts every statement, bindings whose privileges
  -- are all allowed are applied without an error: on the resource every role ends with exactly the
  -- privileges that they name for it, in upper case, and every other permission is as it was. The
  -- cluster's keyspace is the one that holds the permissions. The name of the resource is not
  -- empty, and neither it nor the names of the roles have a quotation mark.
  pub apply-reconciles :
      (bs : List AuthoritativeBinding) (s : S.State)
      → All (λ b. IsRole b.role) bs
      → ((r p : String) → D.granted s r (resource_path res) p ≡ true → IsRole r)
      → ((r p : String) → requested bs r p ≡ true → contains valid_privileges p ≡ true)
      → ((apply_authoritative_grant S order c id bs s).0 ≡ ok tt)
        × ((r path p : String)
            → D.granted (apply_authoritative_grant S order c id bs s).1 r path p
              ≡ (if path == resource_path res then requested bs r p else D.granted s r path p))
  unfolding apply_authoritative_grant
  apply-reconciles bs s writable held allowed =
      (returned, apply-exact S D order c own id res den named bs s writable held returned)
    where
      returned : (apply_authoritative_grant S order c id bs s).0 ≡ ok tt
      returned =
          let (perms, got) = read_returns S D acc id res den named c s in
          let valid = validate_of_requested bs allowed in
          let known = read-ok S D c own id res den s perms got in
          let current = add_current perms [] (visit lookups (Dict.keys perms)) in
          let desired = add_bindings [] bs in
          let m = revoke_roles S id perms desired (visit revokes (Dict.keys perms)) in
          let n =
            grant_roles S id (λ r. visit (grants_of r)) current desired
              (visit grants (Dict.keys desired)) in
          let loops =
            Returns-then m n
              (Returns-revoke_roles S D acc id res den named perms desired _ (λ r p h.
                let there = sym (known r p) ∙ h in
                (held r p there, D.granted-IsStored s r (resource_path res) p there)))
              (Returns-grant_roles S D acc id res den named _ current desired _ (λ r p h.
                let asked =
                  sym (contains-keys-desired bs r p) ∙ sym (contains-visit (grants_of r) _ p) ∙ h in
                (requested-IsRole bs r p writable asked, valid-IsStored p (allowed r p asked)))) in
          rw (valid, got) (loops (get_all_role_permissions_per_id S c id s).1)
