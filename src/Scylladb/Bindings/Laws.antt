-- ===== src/Scylladb/Bindings/Laws.antt =====
-- The bindings that `GetAllRoleBindingsPerId` reads are the permissions of the database, so that
-- applying them again sends no statement.
use terraform_provider_scyll.Base.{
  String, ◌≡◌, ◌∙◌, refl, sym, true, List, [], ◌∷◌, map, ◌&&◌, contains, arith,
}
use terraform_provider_scyll.Base.Dict
use terraform_provider_scyll.Base.Dict.{Dict, lookup-eq-none}
use terraform_provider_scyll.Base.Exec.{Result, ok, err, continue, pure}
use terraform_provider_scyll.Go.Slices.{sort, contains-sort}
use terraform_provider_scyll.Go.Maps.{RangeOrder}
use terraform_provider_scyll.Go.Strings.{Unicode, to_upper}
use terraform_provider_scyll.Go.Strings.Upper.{to_upper_fixed}
use terraform_provider_scyll.Cql.{Resource, resource_path}
use terraform_provider_scyll.Scylladb.Cluster.{Cluster}
use terraform_provider_scyll.Scylladb.Session.{Session}
use terraform_provider_scyll.Scylladb.Database.{IsDatabase}
use terraform_provider_scyll.Scylladb.Authoritative.{
  ParsedIdentifier, AuthoritativeBinding, Loop, valid_privileges, get_all_role_permissions_per_id,
  apply_authoritative_grant,
}
use terraform_provider_scyll.Scylladb.Authoritative.Identifier.{Denotes}
use terraform_provider_scyll.Scylladb.Authoritative.Requested.{requested}
use terraform_provider_scyll.Base.Exec.Inversion.{>>=-eq-ok}
use terraform_provider_scyll.Scylladb.Authoritative.Reads.{read-ok, read_state}
use terraform_provider_scyll.Scylladb.Authoritative.Apply.{contains-map_fixed}
use terraform_provider_scyll.Scylladb.Authoritative.Idle.{apply_idle}
use terraform_provider_scyll.Scylladb.Bindings.{
  Reading, sorted_roles, bindings_of, get_all_role_bindings_per_id,
}

module _ ⦃u : Unicode⦄ where
  requested-bindings_of :
      (perms : Dict (List String)) (rs : List String) (r p : String)
      → requested (bindings_of perms rs) r p
        ≡ (contains rs r && contains (map to_upper (Dict.get_or r perms [])) p)
  unfolding requested bindings_of
  requested-bindings_of perms [] r p = refl
  requested-bindings_of perms (q ∷ rs) r p = ground (arith, requested-bindings_of perms rs r p)

module _ (S : Session) (D : IsDatabase S) ⦃u : Unicode⦄ (c : Cluster)
    (own : c.system_auth_keyspace_name ≡ D.auth_keyspace) (id : ParsedIdentifier) (res : Resource)
    (den : Denotes id res) where
  -- Bindings made of the map that was read, for its roles in any order, ask for what is granted.
  pub bindings_of-exact :
      (s : S.State) (perms : Dict (List String)) (rs : List String)
      → (get_all_role_permissions_per_id S c id s).0 ≡ ok perms
      → ((r : String) → contains rs r ≡ contains (Dict.keys perms) r)
      → (r p : String) → requested (bindings_of perms rs) r p ≡ D.granted s r (resource_path res) p
  unfolding Dict.lookup
  bindings_of-exact s perms rs read same r p =
      let known = read-ok S D c own id res den s perms read in
      ground (
        arith,
        requested-bindings_of perms rs r p,
        same r,
        lookup-eq-none perms r,
        contains-map_fixed (Dict.get_or r perms []) p (λ q hq.
            to_upper_fixed q
              (D.granted-IsStored s r (resource_path res) q (sym (known r q) ∙ hq)).1),
        known r p,
      )

continue_state :
    {T A B : Type 0} (r : Result A) (f : A → B) (s : T) → (continue r (λ a. pure (f a)) s).1 ≡ s
continue_state (ok a) f s = refl
continue_state (err e) f s = refl

-- The read changes nothing, whether it succeeds or not.
pub get_bindings_state :
    (S : Session) (D : IsDatabase S) ⦃u : Unicode⦄ (order : RangeOrder Reading) (c : Cluster)
    (own : c.system_auth_keyspace_name ≡ D.auth_keyspace) (id : ParsedIdentifier) (res : Resource)
    (den : Denotes id res) (s : S.State)
    → (get_all_role_bindings_per_id S order c id s).1 ≡ s
unfolding get_all_role_bindings_per_id
get_bindings_state S D order c own id res den s =
    let run = get_all_role_permissions_per_id S c id s in
    continue_state run.0 _ run.1 ∙ read_state S D c own id res den s

module _ (S : Session) (D : IsDatabase S) ⦃u : Unicode⦄ (order : RangeOrder Reading) (c : Cluster)
    (own : c.system_auth_keyspace_name ≡ D.auth_keyspace) (id : ParsedIdentifier) (res : Resource)
    (den : Denotes id res) (bs : List AuthoritativeBinding) (s : S.State)
    (got : (get_all_role_bindings_per_id S order c id s).0 ≡ ok bs) where
  open order use {visit, contains-visit}

  -- The map behind the bindings.
  read_map :
      (perms : Dict (List String)) × ((get_all_role_permissions_per_id S c id s).0 ≡ ok perms)
      × (bindings_of perms (sort (visit sorted_roles (Dict.keys perms))) ≡ bs)
  unfolding get_all_role_bindings_per_id
  read_map =
      let (perms, read, rest, end) = >>=-eq-ok (get_all_role_permissions_per_id S c id) _ s got in
      (perms, read, cc)

  -- The bindings that `GetAllRoleBindingsPerId` returns ask for exactly the permissions that the
  -- database holds on the resource. The cluster's keyspace is the one that holds the permissions.
  pub bindings-exact : (r p : String) → requested bs r p ≡ D.granted s r (resource_path res) p
  bindings-exact r p =
      let (perms, read, made) = read_map in
      let keys = visit sorted_roles (Dict.keys perms) in
      rw (← made) (
        bindings_of-exact S D c own id res den s perms (sort keys) read
          (λ q. contains-sort keys q ∙ contains-visit sorted_roles (Dict.keys perms) q) r p)

  -- Applying the bindings that `GetAllRoleBindingsPerId` has just read changes nothing in the
  -- database and returns no error, if the privileges on the resource are ones that a binding may
  -- name. The cluster's keyspace is the one that holds the permissions.
  pub apply-bindings_idle :
      (apply_order : RangeOrder Loop)
      → ((r p : String)
          → D.granted s r (resource_path res) p ≡ true
          → contains valid_privileges p ≡ true)
      → apply_authoritative_grant S apply_order c id bs s ≡ (ok tt, s)
  apply-bindings_idle apply_order allowed =
      let (perms, read, made) = read_map in
      apply_idle S D apply_order c own id res den bs s read
        (λ r p h. allowed r p (sym (bindings-exact r p) ∙ h)) (λ r p. sym (bindings-exact r p))
