-- ===== src/Scylladb/Database.antt =====
-- What the code relies on of the database behind a session: what `role_permissions` holds, and what
-- `GRANT` and `REVOKE` do to it. Texts are read by the grammar of `Cql`.
use terraform_provider_scyll.Base.{
  String, ◌<>◌, ◌≡◌, Bool, true, false, ◌&&◌, none, some, [], contains, Distinct, ◌==◌,
  if◌then◌else◌,
}
use terraform_provider_scyll.Base.Dict
use terraform_provider_scyll.Base.Exec.{ok}
use terraform_provider_scyll.Go.Strings.Upper.{is_upper_ascii}
use terraform_provider_scyll.Cql.{Verb, grant, revoke, list, Statement, resource_path, parse}
use terraform_provider_scyll.Scylladb.Session.{Session}
use terraform_provider_scyll.Scylladb.Grant.Render.{IsPrivilege}

-- The statement is about this role, this resource and this privilege.
abbrev pub touches : Statement → String → String → String → Bool
touches st r path p = r == st.grantee && path == resource_path st.resource && p == st.privilege

-- Whether the permission is there behind the statement, from whether it was before.
abbrev pub outcome : Verb → Bool → Bool
outcome grant before = true
outcome revoke before = false
outcome list before = before

-- One word in upper case, as the database stores them.
abbrev pub IsStored : String → Type 0
IsStored p = IsPrivilege p × (is_upper_ascii p ≡ true)

pub record IsDatabase (S : Session) : Type 0 where
  -- the keyspace that holds `role_permissions`
  pub auth_keyspace : String
  -- role, resource and privilege
  pub granted : S.State → String → String → String → Bool
  pub granted-IsStored : (s : S.State) (r path p : String) → granted s r path p ≡ true → IsStored p
  -- A row for each role that has a permission on the resource, unless the read fails. The role is
  -- the rest of the primary key, so no role has two rows.
  pub rows-Distinct :
      (s : S.State) (path : String)
      → let q =
          "SELECT role, permissions FROM " <> auth_keyspace
          <> ".role_permissions WHERE resource = ?" in
        (S.iter_role_permissions q path s).close ≡ none
        → Distinct (Dict.keys (S.iter_role_permissions q path s).rows)
  pub rows-granted :
      (s : S.State) (path : String)
      → let q =
          "SELECT role, permissions FROM " <> auth_keyspace
          <> ".role_permissions WHERE resource = ?" in
        (S.iter_role_permissions q path s).close ≡ none
        → (r p : String)
        → contains (Dict.get_or r (S.iter_role_permissions q path s).rows []) p ≡ granted s r path p
  -- A statement that succeeds does what it says.
  pub exec-ok :
      (q : String) (st : Statement) (s : S.State)
      → parse q ≡ some st
      → IsStored st.privilege
      → (S.exec q s).0 ≡ ok tt
      → (r path p : String)
      → granted (S.exec q s).1 r path p
        ≡ (if touches st r path p then outcome st.verb (granted s r path p) else granted s r path p)
  -- Whether it succeeds or not, it changes nothing else.
  pub exec-frame :
      (q : String) (st : Statement) (s : S.State)
      → parse q ≡ some st
      → IsStored st.privilege
      → (r path p : String) → touches st r path p ≡ false
      → granted (S.exec q s).1 r path p ≡ granted s r path p
