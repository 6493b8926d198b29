-- ===== src/Scylladb/Grant.antt =====
-- scylladb/grant.go. The templates always execute: every field that they name is a string.
pub mod Render
pub mod Resource
use terraform_provider_scyll.Base.{
  String, ◌<>◌, Bool, true, false, ◌&&◌, ◌||◌, Option, none, some, List, [], ◌∷◌, ◌++◌, map, ◌==◌,
  if◌then◌else◌,
}
use terraform_provider_scyll.Base.Exec.{
  Error, driver_not_found, Result, ok, err, Exec, pure, raise, lift, ◌>>=◌, ◌>>◌,
}
use terraform_provider_scyll.Go.Strings.{Unicode, to_upper, contains_text}
use terraform_provider_scyll.Scylladb.Cluster.{Cluster}
use terraform_provider_scyll.Scylladb.Session.{Session, Rows, Permission}

pub record Grant : Type 0 where
  pub privilege : String
  pub resource_type : String
  pub role_name : String
  pub keyspace : String
  pub identifier : String

-- `{{if s}}` holds of a string that is not empty.
abbrev pub nonempty : String → Bool
nonempty String.[] = false
nonempty (String.◌∷◌ c s) = true

-- `{{if s}}"{{s}}"{{end}}`
abbrev pub quote : String → String
quote s = if nonempty s then "\"" <> s <> "\"" else ""

-- The part of the three templates between `ON` and the role's preposition.
object : Grant → String
object g =
    quote g.keyspace
    <> (if nonempty g.keyspace && nonempty g.identifier then "." else "")
    <> quote g.identifier

unfoldable pub delete_query : Grant → String
unfolding object
delete_query g =
    "REVOKE "
    <> g.privilege
    <> " ON "
    <> g.resource_type
    <> " "
    <> object g
    <> " FROM \""
    <> g.role_name
    <> "\""

unfoldable pub create_query : Grant → String
unfolding object
create_query g =
    "GRANT "
    <> g.privilege
    <> " ON "
    <> g.resource_type
    <> " "
    <> object g
    <> " TO \""
    <> g.role_name
    <> "\""

unfoldable pub read_query : Grant → String
unfolding object
read_query g =
    "LIST "
    <> g.privilege
    <> " ON "
    <> g.resource_type
    <> " "
    <> object g
    <> " OF \""
    <> g.role_name
    <> "\""

module _ ⦃u : Unicode⦄ where
  unfoldable pub get_resource_name : Grant → String
  get_resource_name g =
      let kind = to_upper g.resource_type in
      if kind == "ALL KEYSPACES"
      then "data"
      else if kind == "KEYSPACE"
      then "data/" <> g.keyspace
      else if kind == "TABLE"
      then "data/" <> g.keyspace <> "/" <> g.identifier
      else if kind == "ALL ROLES"
      then "roles"
      else if kind == "ROLE"
      then "roles/" <> g.keyspace
      else ""

  get_expanded_permissions : Grant → List String
  get_expanded_permissions g =
      let orig_perm = to_upper g.privilege in
      let kind = to_upper g.resource_type in
      if orig_perm == "ALL PERMISSIONS"
      then if kind == "ALL KEYSPACES" || kind == "KEYSPACE"
        then "ALTER" ∷ "AUTHORIZE" ∷ "CREATE" ∷ "DROP" ∷ "MODIFY" ∷ "SELECT" ∷ []
        else if kind == "TABLE"
        then "ALTER" ∷ "AUTHORIZE" ∷ "DROP" ∷ "MODIFY" ∷ "SELECT" ∷ []
        else if kind == "ALL ROLES" || kind == "ROLE"
        then "ALTER" ∷ "AUTHORIZE" ∷ "DROP" ∷ []
        else orig_perm ∷ []
      else orig_perm ∷ []

module _ (S : Session) where
  unfoldable pub create_grant : Grant → Exec S.State (Unit {0})
  create_grant g = S.exec (create_query g)

  unfoldable pub delete_grant : Grant → Exec S.State (Unit {0})
  delete_grant g = S.exec (delete_query g)

  unfoldable pub update_grant : Grant → Grant → Exec S.State (Unit {0})
  unfolding delete_grant create_grant
  update_grant from_grant to_grant = do delete_grant from_grant; create_grant to_grant

  -- The loop over `iter.Scan`: the rows, and whether there was one.
  scan_permission_rows : List Permission → Bool → List Permission → List Permission × Bool
  scan_permission_rows permissions found [] = (permissions, found)
  scan_permission_rows permissions found (p ∷ rest) =
      scan_permission_rows (permissions ++ p ∷ []) true rest

  close_rows : List Permission × Bool → Option Error → Result (List Permission × Bool)
  close_rows found none = ok found
  close_rows found (some e) = err e

  unfoldable pub list_grant : Grant → Exec S.State (List Permission × Bool)
  unfolding scan_permission_rows close_rows
  list_grant g s =
      let iter = S.iter_permissions (read_query g) s in
      (close_rows (scan_permission_rows [] false iter.rows) iter.close, s)

  -- No row is no error.
  none_if_missing : Result (List String) → Result (List String)
  none_if_missing (err (driver_not_found text)) = ok []
  none_if_missing r = r

  module _ ⦃u : Unicode⦄ (c : Cluster) where
    unfoldable pub get_role_permissions : Grant → Exec S.State (List String)
    unfolding none_if_missing
    get_role_permissions g s =
        let resource_name = get_resource_name g in
        if resource_name == "" then (ok [], s) else (
          none_if_missing (
              S.scan_permissions
                ("SELECT permissions FROM " <> c.system_auth_keyspace_name
                  <> ".role_permissions WHERE role = ? AND resource = ? LIMIT 1")
                g.role_name resource_name s),
          s,
        )

    unfoldable pub get_grant_permissions : Grant → Exec S.State (List String)
    unfolding get_role_permissions list_grant
    get_grant_permissions g =
        if contains_text (to_upper g.resource_type) "KEYSPACE"
          || to_upper g.resource_type == "TABLE"
        then get_role_permissions g
        else do (grant_perms, found) ← list_grant g; pure (map (λ p. p.permission) grant_perms)
