-- ===== src/Scylladb/Role/Database.antt =====
-- What the code relies on of the `roles` table behind a session, and of `CREATE ROLE`,
-- `ALTER ROLE` and `DROP ROLE` on a name without the quotation mark that ends it.
use terraform_provider_scyll.Base.{
  String, ◌≡◌, ◌∙◌, refl, true, false, Option, none, some, List, [], ◌==◌, contains, if◌then◌else◌,
}
use terraform_provider_scyll.Base.Exec.{driver_not_found, role_not_found, ok, err}
use terraform_provider_scyll.Go.Strings.{lacks}
use terraform_provider_scyll.Scylladb.Session.{Session, RoleRow}
use terraform_provider_scyll.Scylladb.Role.{
  Role, slice, role_select, create_role_query, update_role_query, delete_role_query,
}

-- The row that `ALTER ROLE` leaves has the flags of its role.
abbrev pub new_row : Role → RoleRow
new_row r = record {
  role = r.role;
  can_login = r.can_login;
  is_superuser = r.is_superuser;
  member_of = none;
}

-- The roles that a role is a member of: a nil slice has none.
abbrev pub groups : RoleRow → List String
groups row = slice row.member_of

-- The row of a role before and behind a change of which it feels no more than that it is a member
-- of one role no longer
abbrev pub SameBut : String → Option RoleRow → Option RoleRow → Type 0
SameBut name none none = Unit
SameBut name none (some b) = ⊥
SameBut name (some a) none = ⊥
SameBut name (some a) (some b) =
    (a.role ≡ b.role)
    × (a.can_login ≡ b.can_login)
    × (a.is_superuser ≡ b.is_superuser)
    × ((group : String)
        → (group == name) ≡ false
        → contains (groups a) group ≡ contains (groups b) group)

pub SameBut-refl : (name : String) (o : Option RoleRow) → SameBut name o o
SameBut-refl name none = tt
SameBut-refl name (some a) = (refl, refl, refl, λ group differ. refl)

pub SameBut-trans :
    (name : String) (o p q : Option RoleRow)
    → SameBut name o p
    → SameBut name p q
    → SameBut name o q
SameBut-trans name none none none h k = tt
SameBut-trans name none none (some c) h k = absurd k
SameBut-trans name none (some b) q h k = absurd h
SameBut-trans name (some a) none q h k = absurd h
SameBut-trans name (some a) (some b) none h k = absurd k
SameBut-trans name (some a) (some b) (some c) (h₁, h₂, h₃, h₄) (k₁, k₂, k₃, k₄) =
    (h₁ ∙ k₁, h₂ ∙ k₂, h₃ ∙ k₃, λ group differ. h₄ group differ ∙ k₄ group differ)

pub record IsRoleDatabase (S : Session) : Type 0 where
  pub auth_keyspace : String
  pub found : S.State → String → Option RoleRow
  -- A scan that succeeds gives the row. The driver has an error of its own for a role that is not
  -- there, and does not know that of the code; a scan can fail with any other error.
  pub scan-ok :
      (s : S.State) (name : String) (row : RoleRow)
      → S.scan_role (role_select auth_keyspace) name s ≡ ok row
      → found s name ≡ some row
  pub scan-not_found :
      (s : S.State) (name text : String)
      → S.scan_role (role_select auth_keyspace) name s ≡ err (driver_not_found text)
      → found s name ≡ none
  pub scan-foreign :
      (s : S.State) (name : String)
      → S.scan_role (role_select auth_keyspace) name s ≡ err role_not_found
      → ⊥
  -- A statement that succeeds does what it says. A new role is a member of none.
  pub create-ok :
      (r : Role) (s : S.State)
      → lacks "'" r.role ≡ true
      → (S.exec (create_role_query r) s).0 ≡ ok tt
      → (members : Option (List String)) × (slice members ≡ [])
        × ((name : String)
            → found (S.exec (create_role_query r) s).1 name ≡ (
                if name == r.role
                then some (record (new_row r) { member_of = members })
                else found s name))
  -- The role has to be there; it keeps the roles that it is a member of.
  pub update-ok :
      (r : Role) (s : S.State)
      → lacks "'" r.role ≡ true
      → (S.exec (update_role_query r) s).0 ≡ ok tt
      → (row : RoleRow) × (found s r.role ≡ some row)
        × ((name : String)
            → found (S.exec (update_role_query r) s).1 name ≡ (
                if name == r.role
                then some (record (new_row r) { member_of = row.member_of })
                else found s name))
  -- The role is gone, and no more changes of another one than whether it is a member of that role.
  pub delete-ok :
      (r : Role) (s : S.State)
      → lacks "'" r.role ≡ true
      → (S.exec (delete_role_query r) s).0 ≡ ok tt
      → (found (S.exec (delete_role_query r) s).1 r.role ≡ none)
        × ((name : String)
            → (name == r.role) ≡ false
            → SameBut r.role (found s name) (found (S.exec (delete_role_query r) s).1 name))
