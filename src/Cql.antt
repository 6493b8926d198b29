-- ===== src/Cql.antt =====
-- The database's side of `scylladb/grant.go`: the grammar of CQL's statements on permissions
-- (keywords in upper case), and the names that the table `role_permissions` has for resources.
-- Nothing here is taken from the provider's code.
pub mod Lexer
pub mod CreateKeyspace
use terraform_provider_scyll.Base.{
  String, ◌<>◌, Option, none, some, List, [], ◌∷◌, ◌==◌, if◌then◌else◌,
}
use Lexer.{Token, word, quoted, period, tokens}

pub data Verb : Type 0 where
  grant revoke list : Verb

pub data Resource : Type 0 where
  all_keyspaces : Resource
  keyspace : String → Resource
  table : String → String → Resource
  all_roles : Resource
  role : String → Resource

pub record Statement : Type 0 where
  pub verb : Verb
  pub privilege : String
  pub resource : Resource
  pub grantee : String

-- `role_permissions.resource`
unfoldable pub resource_path : Resource → String
resource_path all_keyspaces = "data"
resource_path (keyspace k) = "data/" <> k
resource_path (table k t) = "data/" <> k <> "/" <> t
resource_path all_roles = "roles"
resource_path (role r) = "roles/" <> r

infixl 5 ◌>>=◌
abbrev ◌>>=◌ : {A B : Type 0} → Option A → (A → Option B) → Option B
none >>= f = none
some a >>= f = f a

parse_verb : String → Option Verb
parse_verb w =
    if w == "GRANT"
    then some grant
    else if w == "REVOKE"
    then some revoke
    else if w == "LIST"
    then some list
    else none

unfoldable pub preposition : Verb → String
preposition grant = "TO"
preposition revoke = "FROM"
preposition list = "OF"

-- One word, or `ALL PERMISSIONS`.
parse_privilege : List Token → Option (String × List Token)
parse_privilege (word a ∷ word b ∷ word c ∷ ts) =
    if b == "ON"
    then some (a, word c ∷ ts)
    else if a == "ALL"
    then (if b == "PERMISSIONS"
        then if c == "ON" then some ("ALL PERMISSIONS", ts) else none
        else none)
    else none
parse_privilege _ = none

parse_resource : List Token → Option (Resource × List Token)
parse_resource (word w ∷ quoted k ∷ period ∷ quoted t ∷ ts) =
    if w == "TABLE" then some (table k t, ts) else none
parse_resource (word w ∷ quoted k ∷ ts) =
    if w == "KEYSPACE"
    then some (keyspace k, ts)
    else if w == "ROLE"
    then some (role k, ts)
    else none
parse_resource (word a ∷ word b ∷ ts) =
    if a == "ALL"
    then if b == "KEYSPACES"
      then some (all_keyspaces, ts)
      else if b == "ROLES"
      then some (all_roles, ts)
      else none
    else none
parse_resource _ = none

parse_grantee : Verb → List Token → Option String
parse_grantee v (word w ∷ quoted r ∷ []) = if w == preposition v then some r else none
parse_grantee v _ = none

unfoldable pub parse_tokens : List Token → Option Statement
unfolding parse_verb parse_privilege parse_resource parse_grantee preposition
parse_tokens (word w ∷ ts) = do
  v ← parse_verb w
  (p, rest) ← parse_privilege ts
  (r, last) ← parse_resource rest
  g ← parse_grantee v last
  some (record { verb = v; privilege = p; resource = r; grantee = g })
parse_tokens _ = none

unfoldable pub parse : String → Option Statement
parse s = tokens s >>= parse_tokens
