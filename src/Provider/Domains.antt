-- ===== src/Provider/Domains.antt =====
-- internal/provider/domains.go, and the loop of `extractPlanData` that both grants resources have.
pub mod RoundTrip
pub mod Inversion
use terraform_provider_scyll.Base.{String, List, [], ◌∷◌}
use terraform_provider_scyll.Scylladb.Authoritative.{AuthoritativeBinding}
use terraform_provider_scyll.Provider.Framework.{
  Value, known, value_string, Fallible, done, failed, elements_as, value_from,
}

pub record GrantModel : Type 0 where
  pub role : Value String
  pub privileges : Value (List (Value String))

-- `GetGrantsFromRoleBindings`; making a set of strings does not fail.
unfoldable pub get_grants_from_role_bindings : List AuthoritativeBinding → List GrantModel
get_grants_from_role_bindings [] = []
get_grants_from_role_bindings (b ∷ bs) =
    record { role = known b.role; privileges = known (value_from b.privileges) }
    ∷ get_grants_from_role_bindings bs

-- The bindings in front, unless the rest does not convert
add_binding :
    AuthoritativeBinding
    → Fallible (List AuthoritativeBinding)
    → Fallible (List AuthoritativeBinding)
add_binding b (done bs) = done (b ∷ bs)
add_binding b (failed ds) = failed ds

-- A binding of a grant whose privileges convert
binding_of : GrantModel → List String → AuthoritativeBinding
binding_of g privs = record { role = value_string g.role; privileges = privs }

-- The loop over `plan.Grants`, which stops at the first that does not convert.
unfoldable pub bindings_from_grants : List GrantModel → Fallible (List AuthoritativeBinding)
unfolding add_binding binding_of
bindings_from_grants [] = done []
bindings_from_grants (g ∷ gs) = elim (elements_as g.privileges) [
  | done privs ↦ add_binding (binding_of g privs) (bindings_from_grants gs)
  | failed ds ↦ failed ds
]
