-- ===== src/Scylladb/Role.antt =====
-- scylladb/roles.go
pub mod Names
pub mod Database
use terraform_provider_scyll.Base.{
  Char, code, String, ◌<>◌, Bool, true, false, Option, none, some, not, ◌&&◌, ◌||◌, leb,
  if◌then◌else◌, List, [], ◌∷◌,
}
use terraform_provider_scyll.Base.Exec.{
  Error, driver_not_found, role_not_found, message, Result, ok, err, Exec, lift, ◌>>◌,
}
use terraform_provider_scyll.Go.Strings.{Unicode, same_char}
use terraform_provider_scyll.Scylladb.Cluster.{Cluster}
use terraform_provider_scyll.Scylladb.Session.{Session, RoleRow}

pub record Role : Type 0 where
  pub role : String
  pub can_login : Bool
  pub is_superuser : Bool
  -- A slice that can be nil
  pub member_of : Option (List String)

-- The elements of a slice: a nil one has none.
abbrev pub slice : Option (List String) → List String
slice none = []
slice (some xs) = xs

-- `%v` of a bool
abbrev pub bool_text : Bool → String
bool_text true = "true"
bool_text false = "false"

-- What `GetRole` makes of the scan.
unfoldable pub role_of_scan : Result RoleRow → Result Role
role_of_scan (ok row) = ok (record {
  role = row.role;
  can_login = row.can_login;
  is_superuser = row.is_superuser;
  member_of = row.member_of;
})
role_of_scan (err (driver_not_found text)) = err role_not_found
role_of_scan (err e) = err e

-- The characters that `validateRoleName` lets pass.
abbrev pub is_role_char : ⦃u : Unicode⦄ → Char → Bool
is_role_char ⦃u⦄ c = u.is_letter c || u.is_digit c || same_char c "_"

unfoldable pub validate_role_name : ⦃u : Unicode⦄ → String → Result (Unit {0})
validate_role_name String.[] = ok tt
validate_role_name (String.◌∷◌ c s) =
    if is_role_char c
    then validate_role_name s
    else err (message ("invalid character in role name: " <> String.◌∷◌ c ""))

unfoldable pub role_options : Role → String
role_options r =
    "' WITH LOGIN = " <> bool_text r.can_login <> " AND SUPERUSER = " <> bool_text r.is_superuser

unfoldable pub create_role_query : Role → String
unfolding role_options
create_role_query r = "CREATE ROLE '" <> r.role <> role_options r

unfoldable pub update_role_query : Role → String
unfolding role_options
update_role_query r = "ALTER ROLE '" <> r.role <> role_options r

unfoldable pub delete_role_query : Role → String
delete_role_query r = "DROP ROLE '" <> r.role <> "'"

abbrev pub role_select : String → String
role_select ks =
    "SELECT role, can_login, is_superuser, member_of FROM " <> ks <> ".roles WHERE role = ?"

module _ (S : Session) (c : Cluster) where
  unfoldable pub get_role : String → Exec S.State Role
  unfolding role_of_scan
  get_role name s = (role_of_scan (S.scan_role (role_select c.system_auth_keyspace_name) name s), s)

module _ (S : Session) where
  unfoldable pub create_role : ⦃u : Unicode⦄ → Role → Exec S.State (Unit {0})
  unfolding create_role_query
  create_role r = do lift (validate_role_name r.role); S.exec (create_role_query r)

  unfoldable pub update_role : Role → Exec S.State (Unit {0})
  unfolding update_role_query
  update_role r = S.exec (update_role_query r)

  unfoldable pub delete_role : Role → Exec S.State (Unit {0})
  unfolding delete_role_query
  delete_role r = S.exec (delete_role_query r)
