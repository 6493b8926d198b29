-- ===== src/Scylladb/Grant/Resource.antt =====
-- The names that the provider looks resources up by.
use text.Mathlib.TextLemmas.{cons-append, cons-ne-nil}
use terraform_provider_scyll.Base.{
  Char, String, ◌<>◌, ◌≢◌, ◌∙◌, sym, ◌≡◌, refl, false, ◌==◌, arith, text_discrete,
}
use terraform_provider_scyll.Go.Strings.{Unicode}
use terraform_provider_scyll.Go.Strings.Upper.{is_upper_ascii, to_upper_fixed}
use terraform_provider_scyll.Cql.{
  Resource, all_keyspaces, keyspace, table, all_roles, role, resource_path,
}
use terraform_provider_scyll.Scylladb.Grant.{get_resource_name}
use terraform_provider_scyll.Scylladb.Grant.Render.{grant_for}

module _ ⦃u : Unicode⦄ where
  -- The name that `getResourceName` gives to a grant on a resource is the one that the database
  -- stores for that resource.
  pub get_resource_name-grant_for :
      (p : String) (res : Resource) (r : String)
      → get_resource_name (grant_for p res r) ≡ resource_path res
  unfolding get_resource_name grant_for resource_path text_discrete is_upper_ascii
  get_resource_name-grant_for p all_keyspaces r = rw (to_upper_fixed "ALL KEYSPACES" refl)
  get_resource_name-grant_for p (keyspace k) r = rw (to_upper_fixed "KEYSPACE" refl)
  get_resource_name-grant_for p (table k t) r = rw (to_upper_fixed "TABLE" refl)
  get_resource_name-grant_for p all_roles r = rw (to_upper_fixed "ALL ROLES" refl)
  get_resource_name-grant_for p (role k) r = rw (to_upper_fixed "ROLE" refl)

ne_empty : (c : Char) (s t : String) → (String.◌∷◌ c s <> t == "") ≡ false
ne_empty c s t =
    let differ : String.◌∷◌ c s <> t ≢ "" =
      λ e. cons-ne-nil c (s <> t) (sym (cons-append c s t) ∙ e) in
    ground arith

-- No resource has the empty name.
pub resource_path-ne-empty : (res : Resource) → (resource_path res == "") ≡ false
unfolding resource_path text_discrete
resource_path-ne-empty all_keyspaces = refl
resource_path-ne-empty (keyspace k) = ne_empty "d" "ata/" k
resource_path-ne-empty (table k t) = ne_empty "d" "ata/" (k <> "/" <> t)
resource_path-ne-empty all_roles = refl
resource_path-ne-empty (role r) = ne_empty "r" "oles/" r
