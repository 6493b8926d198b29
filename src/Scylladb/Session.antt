-- ===== src/Scylladb/Session.antt =====
-- `gocql.Session`, which the provider calls and does not implement: the statements and queries over
-- an unknown state of the database. A query has its text, its bound values and a destination type.
use terraform_provider_scyll.Base.{String, Bool, Option, List}
use terraform_provider_scyll.Base.Exec.{Error, Result, Exec}

-- `iter.Scan` until it gives false, then `iter.Close`
pub record Rows (A : Type 0) : Type 0 where
  pub rows : List A
  pub close : Option Error

-- The columns of `LIST <privilege>`
pub record Permission : Type 0 where
  pub role : String
  pub username : String
  pub resource : String
  pub permission : String

-- The columns of `system.roles` that the code reads
pub record RoleRow : Type 0 where
  pub role : String
  pub can_login : Bool
  pub is_superuser : Bool
  -- nil, where the driver leaves the slice so
  pub member_of : Option (List String)

pub record Session : Type 1 where
  pub State : Type 0
  -- `Query(q).Exec()`
  pub exec : String → Exec State (Unit {0})
  -- `Query(q).Iter()` over rows of four texts
  pub iter_permissions : String → State → Rows Permission
  -- `Query(q, resource).Iter()` over rows of a text and a set of texts
  pub iter_role_permissions : String → String → State → Rows (String × List String)
  -- `Query(q, role, resource).Scan` of a set of texts
  pub scan_permissions : String → String → String → State → Result (List String)
  -- `Query(q, role).Scan` of a role
  pub scan_role : String → String → State → Result RoleRow
