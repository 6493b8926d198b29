-- ===== src/Provider/Validators/Unique.antt =====
-- What the validator accepts.
use terraform_provider_scyll.Base.{
  Bool-cases, inl, inr, String, ◌≡◌, refl, Bool, true, false, List, [], ◌∷◌, contains, Distinct,
  arith, ◌↔◌,
}
use terraform_provider_scyll.Base.Dict
use terraform_provider_scyll.Base.Dict.{Dict, lookup-insert, lookup-nil}
use terraform_provider_scyll.Go.Strings.{Unicode}
use terraform_provider_scyll.Scylladb.Authoritative.{has}
use terraform_provider_scyll.Provider.Framework.{Value, null, unknown, known, done}
use terraform_provider_scyll.Provider.Domains.{GrantModel}
use terraform_provider_scyll.Provider.Validators.{check_roles, roles_of, validate_set}

unfoldable pub known_roles : List (Value String) → List String
known_roles [] = []
known_roles (known r ∷ rs) = r ∷ known_roles rs
known_roles (_ ∷ rs) = known_roles rs

-- No role of the list has been seen.
abbrev IsFresh : Dict Bool → List String → Type 0
IsFresh seen rs = (r : String) → contains rs r ≡ true → has seen r ≡ false

module _ ⦃u : Unicode⦄ where
  accepted :
      (seen : Dict Bool) (rs : List (Value String))
      → check_roles seen rs ≡ []
      → Distinct (known_roles rs) × IsFresh seen (known_roles rs)
  unfolding check_roles known_roles
  accepted seen [] h = (tt, λ r m. cc)
  accepted seen (null ∷ rs) h = accepted seen rs h
  accepted seen (unknown ∷ rs) h = accepted seen rs h
  accepted seen (known q ∷ rs) h = elim (Bool-cases (has seen q)) [
    | inl e ↦ absurd (cc (rw e at h))
    | inr e ↦
        let (ds, fresh) = accepted (Dict.insert q true seen) rs (rw e at h) in
        (
          (ground (arith, lookup-insert q q true seen, fresh q), ds),
          λ r m. ground (arith, lookup-insert r q true seen, fresh r),
        )
  ]

  distinct :
      (seen : Dict Bool) (rs : List (Value String))
      → Distinct (known_roles rs)
      → IsFresh seen (known_roles rs)
      → check_roles seen rs ≡ []
  unfolding check_roles known_roles
  distinct seen [] d f = refl
  distinct seen (null ∷ rs) d f = distinct seen rs d f
  distinct seen (unknown ∷ rs) d f = distinct seen rs d f
  distinct seen (known q ∷ rs) (fresh, d) f = rw (f q (ground arith)) (
      distinct (Dict.insert q true seen) rs d
        (λ r m. ground (arith, lookup-insert r q true seen, f r)))

  -- The validator of a known set of grants reports nothing exactly if no role that is known stands
  -- in two of them.
  pub validate_set-Distinct :
      (grants : List GrantModel)
      → (validate_set (known (done grants)) ≡ []) ↔ Distinct (known_roles (roles_of grants))
  unfolding validate_set
  validate_set-Distinct grants = (
    λ h. (accepted [] (roles_of grants) h).0,
    λ d. distinct [] (roles_of grants) d (λ r m. ground (arith, lookup-nil {V = Bool} r)),
  )
