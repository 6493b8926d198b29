-- ===== src/Provider/Validators.antt =====
-- internal/provider/scylla_resource_grants_validators.go
pub mod Unique
use terraform_provider_scyll.Base.{String, ◌<>◌, Bool, true, List, [], ◌∷◌, if◌then◌else◌}
use terraform_provider_scyll.Base.Dict
use terraform_provider_scyll.Base.Dict.{Dict}
use terraform_provider_scyll.Go.Strings.{Unicode}
use terraform_provider_scyll.Scylladb.Authoritative.{has}
use terraform_provider_scyll.Provider.Framework.{
  Value, null, unknown, known, Diagnostic, explained, Fallible, done, failed,
}
use terraform_provider_scyll.Provider.Domains.{GrantModel}

module _ ⦃u : Unicode⦄ where
  unfoldable pub duplicate_role : String → Diagnostic
  duplicate_role r =
      explained "Duplicate Grant Role"
        ("Role " <> u.quote r <> " appears in more than one grant block.")

  -- The loop, over the roles of the grants; an unknown or null role is skipped.
  unfoldable pub check_roles : Dict Bool → List (Value String) → List Diagnostic
  check_roles seen [] = []
  check_roles seen (known r ∷ rs) =
      let rest = check_roles (Dict.insert r true seen) rs in
      if has seen r then duplicate_role r ∷ [] else rest
  check_roles seen (_ ∷ rs) = check_roles seen rs

  unfoldable pub roles_of : List GrantModel → List (Value String)
  roles_of [] = []
  roles_of (g ∷ gs) = g.role ∷ roles_of gs

  -- The argument is the configuration's set, with what `ElementsAs` makes of it.
  unfoldable pub validate_set : Value (Fallible (List GrantModel)) → List Diagnostic
  unfolding check_roles roles_of
  validate_set null = []
  validate_set unknown = []
  validate_set (known (failed ds)) = ds
  validate_set (known (done grants)) = check_roles [] (roles_of grants)
