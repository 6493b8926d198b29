-- ===== src/Scylladb/Role/Names.antt =====
-- Role names that `CreateRole` lets into its statement.
use terraform_provider_scyll.Base.{
  Char, String, ◌≡◌, ◌∙◌, sym, ap, refl, true, false, ◌⊎◌, inl, inr, arith,
}
use terraform_provider_scyll.Base.Exec.{Error, Result, ok, err}
use terraform_provider_scyll.Go.Strings.{Unicode, same_char, lacks}
use terraform_provider_scyll.Scylladb.Session.{Session}
use terraform_provider_scyll.Scylladb.Role.{
  Role, is_role_char, validate_role_name, create_role_query, create_role,
}

module _ ⦃u : Unicode⦄ where
  -- ASCII that is no letter, digit or underscore is not let through.
  quote-not-role_char : (c : Char) → same_char c "'" ≡ true → is_role_char c ≡ false
  quote-not-role_char c h = ground (arith, u.is_letter_ascii c, u.is_digit_ascii c)

  validated-lacks : (s : String) → validate_role_name s ≡ ok tt → lacks "'" s ≡ true
  unfolding validate_role_name lacks
  validated-lacks String.[] h = refl
  validated-lacks (String.◌∷◌ c s) h = ground (arith, quote-not-role_char c, validated-lacks s)

  -- `CreateRole` either refuses the name, and then sends nothing, or the name has no quotation mark
  -- that would end the text in its statement, and then it sends that one statement.
  pub create_role_checked :
      (S : Session) (r : Role) (s : S.State)
      → (((e : Error) × (create_role S r s ≡ (err e, s))))
        ⊎ ((lacks "'" r.role ≡ true) × (create_role S r s ≡ S.exec (create_role_query r) s))
  unfolding create_role
  create_role_checked S r s = split (validate_role_name r.role) refl
    where
      split :
          (v : Result (Unit {0}))
          → validate_role_name r.role ≡ v
          → (((e : Error) × (create_role S r s ≡ (err e, s))))
            ⊎ ((lacks "'" r.role ≡ true) × (create_role S r s ≡ S.exec (create_role_query r) s))
      split (ok _) h = inr (validated-lacks r.role h, rw h refl)
      split (err e) h = inl (e, rw h)

  -- A role that was created had such a name.
  pub create_role-ok :
      (S : Session) (r : Role) (s : S.State)
      → (create_role S r s).0 ≡ ok tt
      → (lacks "'" r.role ≡ true) × (create_role S r s ≡ S.exec (create_role_query r) s)
  create_role-ok S r s h = elim (create_role_checked S r s) [
    | inl (e, refused) ↦ absurd (cc (sym (ap (λ o. o.0) refused) ∙ h))
    | inr passed ↦ passed
  ]
