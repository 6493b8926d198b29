-- ===== src/Scylladb/Bindings.antt =====
-- The two reads of scylladb/authoritative_grant.go that give a sorted list.
pub mod Laws
pub mod Effective
use terraform_provider_scyll.Base.{String, ◌<>◌, List, [], ◌∷◌, ◌++◌}
use terraform_provider_scyll.Base.Dict
use terraform_provider_scyll.Base.Dict.{Dict}
use terraform_provider_scyll.Base.Exec.{Exec, pure, ◌>>=◌}
use terraform_provider_scyll.Go.Slices.{sort}
use terraform_provider_scyll.Go.Maps.{RangeOrder}
use terraform_provider_scyll.Go.Strings.{Unicode, to_upper}
use terraform_provider_scyll.Scylladb.Cluster.{Cluster}
use terraform_provider_scyll.Scylladb.Session.{Session}
use terraform_provider_scyll.Scylladb.Authoritative.{
  ParsedIdentifier, AuthoritativeBinding, get_all_role_permissions_per_id,
}

-- The `range` statements over the permission map.
pub data Reading : Type 0 where
  effective sorted_roles : Reading

-- A binding for each role of the sorted list
unfoldable pub bindings_of : Dict (List String) → List String → List AuthoritativeBinding
bindings_of perms [] = []
bindings_of perms (r ∷ rs) =
    record { role = r; privileges = Dict.get_or r perms [] } ∷ bindings_of perms rs

module _ ⦃u : Unicode⦄ where
  -- The inner loop of `GetEffectivePermissions`
  unfoldable pub add_effective : ParsedIdentifier → String → List String → List String → List String
  add_effective id r out [] = out
  add_effective id r out (p ∷ ps) =
      add_effective id r (out ++ (id.original <> ":" <> r <> ":" <> to_upper p) ∷ []) ps

  unfoldable pub add_effective_roles :
      ParsedIdentifier → Dict (List String) → List String → List String → List String
  unfolding add_effective
  add_effective_roles id perms out [] = out
  add_effective_roles id perms out (r ∷ rs) =
      add_effective_roles id perms (add_effective id r out (Dict.get_or r perms [])) rs

module _ (S : Session) ⦃u : Unicode⦄ (order : RangeOrder Reading) (c : Cluster) where
  open order use {visit}

  unfoldable pub get_effective_permissions : ParsedIdentifier → Exec S.State (List String)
  unfolding add_effective_roles
  get_effective_permissions id = do
    current ← get_all_role_permissions_per_id S c id
    pure (sort (add_effective_roles id current [] (visit effective (Dict.keys current))))

  unfoldable pub get_all_role_bindings_per_id :
      ParsedIdentifier → Exec S.State (List AuthoritativeBinding)
  get_all_role_bindings_per_id id = do
    perms ← get_all_role_permissions_per_id S c id
    pure (bindings_of perms (sort (visit sorted_roles (Dict.keys perms))))
