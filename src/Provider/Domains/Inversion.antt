-- ===== src/Provider/Domains/Inversion.antt =====
-- What bindings that were taken out of grants come from.
use terraform_provider_scyll.Base.{String, ◌≡◌, refl, List, ◌∷◌}
use terraform_provider_scyll.Scylladb.Authoritative.{AuthoritativeBinding}
use terraform_provider_scyll.Provider.Framework.{value_string, Fallible, done, failed, elements_as}
use terraform_provider_scyll.Provider.Framework.Laws.{done-injective}
use terraform_provider_scyll.Provider.Domains.{
  GrantModel, add_binding, binding_of, bindings_from_grants,
}

added :
    (b : AuthoritativeBinding) (r : Fallible (List AuthoritativeBinding))
    (bs : List AuthoritativeBinding)
    → add_binding b r ≡ done bs
    → (rest : List AuthoritativeBinding) × (r ≡ done rest) × (b ∷ rest ≡ bs)
unfolding add_binding
added b (done rest) bs h = (rest, refl, done-injective _ bs h)
added b (failed ds) bs h = cc

module _ (g : GrantModel) (gs : List GrantModel) (bs : List AuthoritativeBinding) where
  -- The first grant's privileges, and the bindings of the rest
  abbrev pub IsCons : Fallible (List String) → Type 0
  IsCons r =
      (privs : List String) × (rest : List AuthoritativeBinding) × (r ≡ done privs)
      × (bindings_from_grants gs ≡ done rest)
      × (record { role = value_string g.role; privileges = privs } ∷ rest ≡ bs)

  converted :
      (r : Fallible (List String))
      → elim r [
        | done privs ↦ add_binding (binding_of g privs) (bindings_from_grants gs)
        | failed ds ↦ failed ds
      ]
        ≡ done bs
      → IsCons r
  unfolding binding_of
  converted (done privs) h =
      let (rest, e, same) = added (binding_of g privs) (bindings_from_grants gs) bs h in
      (privs, rest, refl, e, same)
  converted (failed ds) h = cc

  pub bindings_from_grants-IsCons :
      bindings_from_grants (g ∷ gs) ≡ done bs → IsCons (elements_as g.privileges)
  unfolding bindings_from_grants
  bindings_from_grants-IsCons h = converted (elements_as g.privileges) h
