-- ===== src/Provider/Domains/RoundTrip.antt =====
-- Bindings that are read into grants and taken out of them again.
use terraform_provider_scyll.Base.{String, ◌≡◌, refl, List, [], ◌∷◌}
use terraform_provider_scyll.Scylladb.Authoritative.{AuthoritativeBinding}
use terraform_provider_scyll.Provider.Framework.{done, texts_of, elements_as, value_from}
use terraform_provider_scyll.Provider.Domains.{get_grants_from_role_bindings, bindings_from_grants}

pub texts_of-value_from : (ss : List String) → texts_of (value_from ss) ≡ done ss
unfolding texts_of value_from
texts_of-value_from [] = refl
texts_of-value_from (s ∷ ss) = rw (texts_of-value_from ss) refl

-- The grants that `Read` makes of the bindings of the database are what `extractPlanData` turns
-- back into the same bindings.
pub bindings_from_grants-get_grants :
    (bs : List AuthoritativeBinding)
    → bindings_from_grants (get_grants_from_role_bindings bs) ≡ done bs
unfolding bindings_from_grants get_grants_from_role_bindings elements_as
bindings_from_grants-get_grants [] = refl
bindings_from_grants-get_grants (b ∷ bs) =
    rw
      (
        texts_of-value_from b.privileges,
        bindings_from_grants-get_grants bs,
        elements_as,
        bindings_from_grants,
      )
      refl
