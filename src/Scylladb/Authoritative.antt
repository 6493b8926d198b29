-- ===== src/Scylladb/Authoritative.antt =====
-- scylladb/authoritative_grant.go
pub mod Identifier
pub mod Requested
pub mod Steps
pub mod Revokes
pub mod Grants
pub mod Reads
pub mod Roles
pub mod Apply
pub mod Partial
pub mod Outcome
pub mod Accepted
pub mod RevokeAll
pub mod Idle
use terraform_provider_scyll.Base.{
  String, ◌<>◌, Bool, true, false, Option, none, some, List, [], ◌∷◌, contains, ◌==◌, if◌then◌else◌,
}
use terraform_provider_scyll.Base.Dict
use terraform_provider_scyll.Base.Dict.{Dict}
use terraform_provider_scyll.Base.Exec.{
  Error, message, Result, ok, err, Exec, pure, raise, lift, ◌>>=◌, ◌>>◌,
}
use terraform_provider_scyll.Go.Slices.{sort}
use terraform_provider_scyll.Go.Maps.{RangeOrder}
use terraform_provider_scyll.Go.Strings.{Unicode, to_upper, split_n}
use terraform_provider_scyll.Scylladb.Cluster.{Cluster}
use terraform_provider_scyll.Scylladb.Session.{Session, Rows}
use terraform_provider_scyll.Scylladb.Grant.{Grant, get_resource_name, create_grant, delete_grant}

pub record ParsedIdentifier : Type 0 where
  pub resource_type : String
  pub keyspace : String
  pub table : String
  pub original : String

pub record AuthoritativeBinding : Type 0 where
  pub privileges : List String
  pub role : String

abbrev pub valid_privileges : List String
valid_privileges = "ALTER" ∷ "AUTHORIZE" ∷ "CREATE" ∷ "DROP" ∷ "MODIFY" ∷ "SELECT" ∷ []

-- The test on the parts that `strings.SplitN(identifier, ".", 2)` gives.
identifier_of_parts : String → List String → ParsedIdentifier
identifier_of_parts identifier (k ∷ t ∷ []) = record {
  resource_type = "TABLE";
  keyspace = k;
  table = t;
  original = identifier;
}
identifier_of_parts identifier _ = record {
  resource_type = "KEYSPACE";
  keyspace = identifier;
  table = "";
  original = identifier;
}

unfoldable pub parse_identifier : String → ParsedIdentifier
unfolding identifier_of_parts
parse_identifier identifier = identifier_of_parts identifier (split_n "." 1 identifier)

-- The grant that the loops below make for a role and a privilege.
abbrev pub grant_on : ParsedIdentifier → String → String → Grant
grant_on id r p = record {
  role_name = r;
  privilege = p;
  resource_type = id.resource_type;
  keyspace = id.keyspace;
  identifier = id.table;
}

-- `m[k]` of a set kept as a `map[string]bool`
abbrev pub has : Dict Bool → String → Bool
has d k = Dict.get_or k d false

module _ ⦃u : Unicode⦄ where
  unfoldable pub validate_privileges : List String → Result (Unit {0})
  validate_privileges [] = ok tt
  validate_privileges (priv ∷ rest) =
      if contains valid_privileges (to_upper priv)
      then validate_privileges rest
      else err
          (message ("privilege " <> u.quote priv <> " is not allowed in an authoritative binding"))

  unfoldable pub validate : AuthoritativeBinding → Result (Unit {0})
  unfolding validate_privileges
  validate b = validate_privileges b.privileges

  unfoldable pub validate_bindings : List AuthoritativeBinding → Result (Unit {0})
  validate_bindings [] = ok tt
  validate_bindings (b ∷ bs) = elim (validate b) [ ok _ ↦ validate_bindings bs | err e ↦ err e ]

  -- `set[strings.ToUpper(p)] = true` for each `p`
  unfoldable pub add_privileges : Dict Bool → List String → Dict Bool
  add_privileges d [] = d
  add_privileges d (p ∷ ps) = add_privileges (Dict.insert (to_upper p) true d) ps

  -- The desired permissions; a missing role starts with an empty set.
  unfoldable pub add_bindings : Dict (Dict Bool) → List AuthoritativeBinding → Dict (Dict Bool)
  add_bindings d [] = d
  add_bindings d (b ∷ bs) =
      add_bindings (Dict.insert b.role (add_privileges (Dict.get_or b.role d []) b.privileges) d) bs

  -- The current permissions in upper case, for the roles in the order of the range.
  unfoldable pub add_current :
      Dict (List String) → Dict (Dict Bool) → List String → Dict (Dict Bool)
  add_current perms d [] = d
  add_current perms d (r ∷ rs) =
      add_current perms (Dict.insert r (add_privileges [] (Dict.get_or r perms [])) d) rs

module _ (S : Session) where
  -- `permissionMap[role] = permissions` for each row
  unfoldable pub collect_rows :
      Dict (List String) → List (String × List String) → Dict (List String)
  collect_rows d [] = d
  collect_rows d ((r, permissions) ∷ rest) = collect_rows (Dict.insert r permissions d) rest

  unfoldable pub close_map : Dict (List String) → Option Error → Result (Dict (List String))
  close_map d none = ok d
  close_map d (some e) = err e

  module _ ⦃u : Unicode⦄ (c : Cluster) where
    unfoldable pub get_all_role_permissions_per_id :
        ParsedIdentifier → Exec S.State (Dict (List String))
    unfolding collect_rows close_map
    get_all_role_permissions_per_id id s =
        let resource_name = get_resource_name (grant_on id "" "") in
        let iter =
          S.iter_role_permissions
            ("SELECT role, permissions FROM " <> c.system_auth_keyspace_name
              <> ".role_permissions WHERE resource = ?")
            resource_name s in
        if resource_name == ""
        then (
          err (
              message (
                "no valid resource name is found for identifier: {" <> id.resource_type <> " "
                <> id.keyspace <> " " <> id.table <> " " <> id.original <> "}")),
          s,
        )
        else (close_map (collect_rows [] iter.rows) iter.close, s)

module _ (S : Session) ⦃u : Unicode⦄ (id : ParsedIdentifier) where
  -- The inner loop of the revocations: the privileges of a role, and those to keep.
  unfoldable pub revoke_privileges : String → Dict Bool → List String → Exec S.State (Unit {0})
  revoke_privileges r wanted [] = pure tt
  revoke_privileges r wanted (p ∷ ps) = do
    if has wanted (to_upper p) then pure tt else delete_grant S (grant_on id r p)
    revoke_privileges r wanted ps

  unfoldable pub revoke_roles :
      Dict (List String) → Dict (Dict Bool) → List String → Exec S.State (Unit {0})
  revoke_roles perms desired [] = pure tt
  revoke_roles perms desired (r ∷ rs) = do
    revoke_privileges r (Dict.get_or r desired []) (Dict.get_or r perms [])
    revoke_roles perms desired rs

  -- The inner loop of the grants: the privileges wanted for a role, and those that it has.
  unfoldable pub grant_privileges : String → Dict Bool → List String → Exec S.State (Unit {0})
  grant_privileges r current [] = pure tt
  grant_privileges r current (p ∷ ps) = do
    if has current p then pure tt else create_grant S (grant_on id r p)
    grant_privileges r current ps

  unfoldable pub grant_roles :
      (String → List String → List String)
      → Dict (Dict Bool)
      → Dict (Dict Bool)
      → List String
      → Exec S.State (Unit {0})
  grant_roles visit current desired [] = pure tt
  grant_roles visit current desired (r ∷ rs) = do
    grant_privileges r (Dict.get_or r current []) (visit r (Dict.keys (Dict.get_or r desired [])))
    grant_roles visit current desired rs

  -- The body of `RevokeAllGrantsOnIdentifier` behind the read
  unfoldable pub revoke_all_privileges : String → List String → Exec S.State (Unit {0})
  revoke_all_privileges r [] = pure tt
  revoke_all_privileges r (p ∷ ps) = do delete_grant S (grant_on id r p); revoke_all_privileges r ps

  unfoldable pub revoke_all_roles : Dict (List String) → List String → Exec S.State (Unit {0})
  revoke_all_roles perms [] = pure tt
  revoke_all_roles perms (r ∷ rs) = do
    revoke_all_privileges r (Dict.get_or r perms [])
    revoke_all_roles perms rs

-- The `range` statements over maps.
pub data Loop : Type 0 where
  revokes lookups grants : Loop
  grants_of : String → Loop

module _ (S : Session) ⦃u : Unicode⦄ (order : RangeOrder Loop) (c : Cluster) where
  open order use {visit}

  unfoldable pub apply_authoritative_grant :
      ParsedIdentifier → List AuthoritativeBinding → Exec S.State (Unit {0})
  apply_authoritative_grant id bindings = do
    lift (validate_bindings bindings)
    perms ← get_all_role_permissions_per_id S c id
    let desired = add_bindings [] bindings
    revoke_roles S id perms desired (visit revokes (Dict.keys perms))
    let current = add_current perms [] (visit lookups (Dict.keys perms))
    grant_roles S id (λ r. visit (grants_of r)) current desired (visit grants (Dict.keys desired))

  unfoldable pub revoke_all_grants_on_identifier : ParsedIdentifier → Exec S.State (Unit {0})
  revoke_all_grants_on_identifier id = do
    perms ← get_all_role_permissions_per_id S c id
    revoke_all_roles S id perms (visit revokes (Dict.keys perms))
