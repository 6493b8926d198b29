-- ===== src/Scylladb/Authoritative/Requested.antt =====
-- What bindings ask for, and the lookups that the code builds from them.
use terraform_provider_scyll.Base.{
  String, ◌≡◌, refl, Bool, true, false, ◌||◌, List, [], ◌∷◌, map, contains, ◌==◌, ◌&&◌,
  if◌then◌else◌, arith, All, All-of_contains,
}
use terraform_provider_scyll.Base.Dict
use terraform_provider_scyll.Base.Dict.{Dict, lookup-insert, lookup-eq-none, contains-keys-insert}
use terraform_provider_scyll.Base.Exec.{ok}
use terraform_provider_scyll.Go.Strings.{Unicode, to_upper}
use terraform_provider_scyll.Go.Strings.Upper.{is_upper_ascii}
use terraform_provider_scyll.Cql.Lexer.{is_word}
use terraform_provider_scyll.Scylladb.Database.{IsStored}
use terraform_provider_scyll.Scylladb.Authoritative.{
  AuthoritativeBinding, valid_privileges, has, validate_privileges, validate, validate_bindings,
  add_privileges, add_bindings, add_current,
}

All-IsStored : All IsStored valid_privileges
unfolding is_word is_upper_ascii
All-IsStored = (
  ((refl, refl), refl),
  (
    ((refl, refl), refl),
    (
      ((refl, refl), refl),
      (((refl, refl), refl), (((refl, refl), refl), (((refl, refl), refl), tt))),
    ),
  ),
)

-- A privilege that a binding may name is one that the database stores.
pub valid-IsStored : (p : String) → contains valid_privileges p ≡ true → IsStored p
valid-IsStored p h = All-of_contains IsStored valid_privileges p All-IsStored h

module _ ⦃u : Unicode⦄ where
  -- Some binding of the role names the privilege, in any case.
  unfoldable pub requested : List AuthoritativeBinding → String → String → Bool
  requested [] r p = false
  requested (b ∷ bs) r p = r == b.role && contains (map to_upper b.privileges) p || requested bs r p

  has-add_privileges :
      (d : Dict Bool) (ps : List String) (p : String)
      → has (add_privileges d ps) p ≡ (contains (map to_upper ps) p || has d p)
  unfolding add_privileges
  has-add_privileges d [] p = refl
  has-add_privileges d (q ∷ ps) p = ground (
    arith,
    has-add_privileges (Dict.insert (to_upper q) true d) ps p,
    lookup-insert p (to_upper q) true d,
  )

  contains-keys-add_privileges :
      (d : Dict Bool) (ps : List String) (p : String)
      → contains (Dict.keys (add_privileges d ps)) p
        ≡ (contains (map to_upper ps) p || contains (Dict.keys d) p)
  unfolding add_privileges
  contains-keys-add_privileges d [] p = refl
  contains-keys-add_privileges d (q ∷ ps) p = ground (
    arith,
    contains-keys-add_privileges (Dict.insert (to_upper q) true d) ps p,
    contains-keys-insert p (to_upper q) true d,
  )

  has-add_bindings :
      (d : Dict (Dict Bool)) (bs : List AuthoritativeBinding) (r p : String)
      → has (Dict.get_or r (add_bindings d bs) []) p
        ≡ (requested bs r p || has (Dict.get_or r d []) p)
  unfolding add_bindings requested
  has-add_bindings d [] r p = refl
  has-add_bindings d (b ∷ bs) r p =
      let inner = add_privileges (Dict.get_or b.role d []) b.privileges in
      ground (
        arith,
        has-add_bindings (Dict.insert b.role inner d) bs r p,
        lookup-insert r b.role inner d,
        has-add_privileges (Dict.get_or b.role d []) b.privileges p,
      )

  contains-keys-add_bindings :
      (d : Dict (Dict Bool)) (bs : List AuthoritativeBinding) (r p : String)
      → contains (Dict.keys (Dict.get_or r (add_bindings d bs) [])) p
        ≡ (requested bs r p || contains (Dict.keys (Dict.get_or r d [])) p)
  unfolding add_bindings requested
  contains-keys-add_bindings d [] r p = refl
  contains-keys-add_bindings d (b ∷ bs) r p =
      let inner = add_privileges (Dict.get_or b.role d []) b.privileges in
      ground (
        arith,
        contains-keys-add_bindings (Dict.insert b.role inner d) bs r p,
        lookup-insert r b.role inner d,
        contains-keys-add_privileges (Dict.get_or b.role d []) b.privileges p,
      )

  -- The lookup of desired permissions is what the bindings ask for.
  pub has-desired :
      (bs : List AuthoritativeBinding) (r p : String)
      → has (Dict.get_or r (add_bindings [] bs) []) p ≡ requested bs r p
  unfolding Dict.lookup
  has-desired bs r p = ground (arith, has-add_bindings [] bs r p)

  pub contains-keys-desired :
      (bs : List AuthoritativeBinding) (r p : String)
      → contains (Dict.keys (Dict.get_or r (add_bindings [] bs) [])) p ≡ requested bs r p
  unfolding Dict.lookup Dict.keys
  contains-keys-desired bs r p = ground (arith, contains-keys-add_bindings [] bs r p)

  -- A role that something is asked for is a key of it.
  pub contains-roles-desired :
      (bs : List AuthoritativeBinding) (r p : String)
      → requested bs r p ≡ true
      → contains (Dict.keys (add_bindings [] bs)) r ≡ true
  unfolding Dict.lookup
  contains-roles-desired bs r p h =
      ground (arith, has-desired bs r p, lookup-eq-none (add_bindings [] bs) r)

  -- The lookup of current permissions, for the roles that the loop has visited.
  pub has-add_current :
      (perms : Dict (List String)) (d : Dict (Dict Bool)) (rs : List String) (r p : String)
      → has (Dict.get_or r (add_current perms d rs) []) p ≡ (
          if contains rs r
          then contains (map to_upper (Dict.get_or r perms [])) p
          else has (Dict.get_or r d []) p)
  unfolding add_current Dict.lookup
  has-add_current perms d [] r p = refl
  has-add_current perms d (q ∷ rs) r p =
      let inner = add_privileges [] (Dict.get_or q perms []) in
      ground (
        arith,
        has-add_current perms (Dict.insert q inner d) rs r p,
        lookup-insert r q inner d,
        has-add_privileges [] (Dict.get_or q perms []) p,
      )

  -- Validated bindings ask only for what the database stores.
  validate_privileges_lem :
      (ps : List String) (p : String)
      → validate_privileges ps ≡ ok tt
      → contains (map to_upper ps) p ≡ true
      → contains valid_privileges p ≡ true
  unfolding validate_privileges
  validate_privileges_lem [] p h m = cc
  validate_privileges_lem (q ∷ ps) p h m = ground (arith, validate_privileges_lem ps p)

  pub requested-valid :
      (bs : List AuthoritativeBinding) (r p : String)
      → validate_bindings bs ≡ ok tt
      → requested bs r p ≡ true
      → contains valid_privileges p ≡ true
  unfolding validate_bindings validate requested
  requested-valid [] r p h m = cc
  requested-valid (b ∷ bs) r p h m =
      ground (arith, validate_privileges_lem b.privileges p, requested-valid bs r p)

  validate_privileges_of_valid :
      (ps : List String)
      → ((p : String) → contains (map to_upper ps) p ≡ true → contains valid_privileges p ≡ true)
      → validate_privileges ps ≡ ok tt
  unfolding validate_privileges
  validate_privileges_of_valid [] h = refl
  validate_privileges_of_valid (q ∷ ps) h =
      rw (h (to_upper q) (ground arith))
        (validate_privileges_of_valid ps (λ p m. h p (ground arith)))

  -- Bindings that ask only for such privileges are valid.
  pub validate_of_requested :
      (bs : List AuthoritativeBinding)
      → ((r p : String) → requested bs r p ≡ true → contains valid_privileges p ≡ true)
      → validate_bindings bs ≡ ok tt
  unfolding validate_bindings validate requested
  validate_of_requested [] h = refl
  validate_of_requested (b ∷ bs) h =
      rw
        (
          validate_privileges_of_valid b.privileges (λ p m. h b.role p (ground arith)),
          validate_bindings,
        )
        (validate_of_requested bs (λ r p m. h r p (ground arith)))
