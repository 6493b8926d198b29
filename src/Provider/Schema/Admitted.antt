-- ===== src/Provider/Schema/Admitted.antt =====
-- The privileges that the schemas of the grants resources admit are ones that the reconciliation
-- accepts.
use terraform_provider_scyll.Base.{
  String, ◌≡◌, ◌∙◌, refl, ap, true, List, [], ◌∷◌, map, contains, All, All-of_contains, subst,
  text_discrete,
}
use terraform_provider_scyll.Base.Dict
use terraform_provider_scyll.Base.Exec.{ok}
use terraform_provider_scyll.Go.Strings.{Unicode, to_upper}
use terraform_provider_scyll.Go.Strings.Fold.{is_folded_alone, to_upper_of_fold}
use terraform_provider_scyll.Scylladb.Authoritative.{
  AuthoritativeBinding, valid_privileges, validate_privileges, validate, validate_bindings,
}
use terraform_provider_scyll.Provider.Framework.{
  Value, null, unknown, known, Fallible, done, failed, texts_of, elements_as,
}
use terraform_provider_scyll.Provider.Framework.Laws.{done-injective}
use terraform_provider_scyll.Provider.Domains.{GrantModel, bindings_from_grants}
use terraform_provider_scyll.Provider.Domains.Inversion.{bindings_from_grants-IsCons}
use terraform_provider_scyll.Provider.Schema.{
  one_of_case_insensitive, value_strings_are, MeetsString, MeetsSet, AreAdmitted, set_datum,
}
use terraform_provider_scyll.Provider.Schema.Grants.{
  grant_attributes, fields_of_grant, table_privileges, keyspace_privileges,
}

-- Every privilege of the list is a word of its own case orbit, and one that a binding may name.
abbrev AreUsable : List String → Type 0
AreUsable allowed =
    All (λ p. (is_folded_alone p ≡ true) × (contains valid_privileges p ≡ true)) allowed

pub table_privileges_usable : AreUsable table_privileges
unfolding is_folded_alone text_discrete
table_privileges_usable =
    ((refl, refl), ((refl, refl), ((refl, refl), ((refl, refl), ((refl, refl), tt)))))

pub keyspace_privileges_usable : AreUsable keyspace_privileges
unfolding is_folded_alone text_discrete
keyspace_privileges_usable = (
  (refl, refl),
  ((refl, refl), ((refl, refl), ((refl, refl), ((refl, refl), ((refl, refl), tt))))),
)

module _ ⦃u : Unicode⦄ (allowed : List String) (usable : AreUsable allowed) where
  met_privilege :
      (s : String)
      → MeetsString (known s) (one_of_case_insensitive allowed)
      → contains valid_privileges (to_upper s) ≡ true
  met_privilege s meets =
      let (p, there, folds) = meets s refl in
      let (plain, valid) = All-of_contains _ allowed p usable there in
      ap (contains valid_privileges) (to_upper_of_fold s p plain folds) ∙ valid

  met_cons :
      (s : String) (r : Fallible (List String)) (ps : List String)
      → contains valid_privileges (to_upper s) ≡ true
      → ((ss : List String) → r ≡ done ss → validate_privileges ss ≡ ok tt)
      → elim r [ done ss ↦ done (s ∷ ss) | failed ds ↦ failed ds ] ≡ done ps
      → validate_privileges ps ≡ ok tt
  unfolding validate_privileges
  met_cons s (done ss) ps valid rest h =
      subst (λ x. validate_privileges x ≡ ok tt) (done-injective (s ∷ ss) ps h)
        (rw valid (rest ss refl))
  met_cons s (failed ds) ps valid rest h = cc

  met_texts :
      (vs : List (Value String)) (ps : List String)
      → All (λ v. MeetsString v (one_of_case_insensitive allowed)) vs
      → texts_of vs ≡ done ps
      → validate_privileges ps ≡ ok tt
  unfolding texts_of validate_privileges
  met_texts [] ps meets h = subst (λ x. validate_privileges x ≡ ok tt) (done-injective [] ps h) refl
  met_texts (null ∷ vs) ps meets h = cc
  met_texts (unknown ∷ vs) ps meets h = cc
  met_texts (known s ∷ vs) ps (meets, rest) h =
      met_cons s (texts_of vs) ps (met_privilege s meets) (λ ss. met_texts vs ss rest) h

  met_set :
      (v : Value (List (Value String))) (ps : List String)
      → MeetsSet v (value_strings_are (one_of_case_insensitive allowed))
      → elements_as v ≡ done ps
      → validate_privileges ps ≡ ok tt
  unfolding elements_as validate_privileges
  met_set null ps meets h = subst (λ x. validate_privileges x ≡ ok tt) (done-injective [] ps h) refl
  met_set unknown ps meets h = cc
  met_set (known vs) ps meets h = met_texts vs ps (meets vs refl) h

  validate_bindings_cons :
      (b : AuthoritativeBinding) (bs : List AuthoritativeBinding)
      → validate_privileges b.privileges ≡ ok tt
      → validate_bindings bs ≡ ok tt
      → validate_bindings (b ∷ bs) ≡ ok tt
  unfolding validate_bindings validate
  validate_bindings_cons b bs valid rest = rw (valid, validate_bindings) rest

  -- The bindings of admitted grants are valid.
  pub admitted_bindings_valid :
      (grants : List GrantModel) (bs : List AuthoritativeBinding)
      → All (λ d. AreAdmitted d (grant_attributes allowed)) (map fields_of_grant grants)
      → bindings_from_grants grants ≡ done bs
      → validate_bindings bs ≡ ok tt
  unfolding bindings_from_grants validate_bindings Dict.lookup text_discrete
  admitted_bindings_valid [] bs admitted h =
      subst (λ x. validate_bindings x ≡ ok tt) (done-injective [] bs h) refl
  admitted_bindings_valid (g ∷ gs) bs ((role, (privileges, _)), rest) h =
      let (privs, others, converts, e, same) = bindings_from_grants-IsCons g gs bs h in
      let (present, (meets, _)) = privileges (set_datum g.privileges) refl in
      let valid : validate_privileges privs ≡ ok tt = met_set g.privileges privs meets converts in
      let tail : validate_bindings others ≡ ok tt = admitted_bindings_valid gs others rest e in
      subst (λ x. validate_bindings x ≡ ok tt) same (validate_bindings_cons _ others valid tail)
