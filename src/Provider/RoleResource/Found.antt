-- ===== src/Provider/RoleResource/Found.antt =====
-- What the handlers of the role resource leave in the table, and which state they set.
use terraform_provider_scyll.Base.{
  String, ◌≡◌, ◌∙◌, sym, ap, subst, Bool, true, false, Option, some, none, List, [], ◌==◌,
  if◌then◌else◌,
}
use terraform_provider_scyll.Base.Exec.{ok}
use terraform_provider_scyll.Go.Strings.{Unicode, lacks}
use terraform_provider_scyll.Scylladb.Session.{Session, RoleRow}
use terraform_provider_scyll.Scylladb.Role.{
  Role, slice, create_role, update_role, delete_role, delete_role_query,
}
use terraform_provider_scyll.Scylladb.Role.Names.{create_role-ok}
use terraform_provider_scyll.Scylladb.Role.Database.{IsRoleDatabase, SameBut}
use terraform_provider_scyll.Provider.Framework.{
  Value, known, done, with_summary, list_value_from, value_string,
}
use terraform_provider_scyll.Provider.Framework.Laws.{
  follow-done, done-injective, with_summary-done,
}
use terraform_provider_scyll.Provider.RoleResource.{
  RoleResourceModel, plan_to_role, create, update, delete,
}

module _ (name : String) (login super : Bool) where
  -- A state of a role in the database
  abbrev pub stored : Value (List (Value String)) → RoleResourceModel
  stored members = record {
    id = known name;
    role = known name;
    can_login = known login;
    is_superuser = known super;
    member_of = members;
  }

  abbrev pub plan : Value String → Value (List (Value String)) → RoleResourceModel
  plan id members = record (stored members) { id = id }

  abbrev pub row_of : Option (List String) → RoleRow
  row_of members = record {
    role = name;
    can_login = login;
    is_superuser = super;
    member_of = members;
  }

  abbrev role : Role
  role = record { role = name; can_login = login; is_superuser = super; member_of = none }

module _ (S : Session) (D : IsRoleDatabase S) (name : String) (login super : Bool)
    (id : Value String) (members : Value (List (Value String))) (s : S.State) where
  pub created-found :
      ⦃u : Unicode⦄ (st : RoleResourceModel)
      → (create S (done (plan name login super id members)) s).0 ≡ done st
      → (st ≡ stored name login super (list_value_from (some [])))
        × (lacks "'" name ≡ true)
        × (new : Option (List String)) × (slice new ≡ [])
        × ((other : String)
            → D.found (create S (done (plan name login super id members)) s).1 other
              ≡ (if other == name then some (row_of name login super new) else D.found s other))
  unfolding create plan_to_role
  created-found st h =
      let run = create_role S (role name login super) s in
      let (_, ran, rest, end) =
        follow-done (with_summary "Unable to create the role" run.0) _ run.1 st h in
      let sent = with_summary-done "Unable to create the role" run.0 tt ran in
      let (plain, same) = create_role-ok S (role name login super) s sent in
      let after = ap (λ o. o.1) end ∙ ap (λ o. o.1) same in
      let (new, lone, now) =
        D.create-ok (role name login super) s plain (ap (λ o. o.0) (sym same) ∙ sent) in
      (
        sym (done-injective _ st rest),
        plain,
        new,
        lone,
        λ other. ap (λ x. D.found x other) after ∙ now other,
      )

  pub updated-found :
      (old st : RoleResourceModel)
      → lacks "'" name ≡ true
      → (update S (done (plan name login super id members)) (done old) s).0 ≡ done st
      → (row : RoleRow) × (D.found s name ≡ some row)
        × (st ≡ stored name login super old.member_of)
        × ((other : String)
            → D.found (update S (done (plan name login super id members)) (done old) s).1 other ≡ (
                if other == name
                then some (row_of name login super row.member_of)
                else D.found s other))
  unfolding update update_role plan_to_role
  updated-found old st plain h =
      let run = update_role S (role name login super) s in
      let (_, ran, rest, end) =
        follow-done (with_summary "Unable to update the role" run.0) _ run.1 st h in
      let sent = with_summary-done "Unable to update the role" run.0 tt ran in
      let (row, was, now) = D.update-ok (role name login super) s plain sent in
      (
        row,
        was,
        sym (done-injective _ st rest),
        λ other. ap (λ x. D.found x other) (ap (λ o. o.1) end) ∙ now other,
      )

-- The role that `Delete` names
abbrev bare : String → Role
bare n = record { role = n; can_login = false; is_superuser = false; member_of = none }

module _ (S : Session) (D : IsRoleDatabase S) (name : String) (m : RoleResourceModel) (s : S.State)
    (named : m.role ≡ known name) where
  pub deleted-found :
      lacks "'" name ≡ true
      → (delete S (done m) s).0 ≡ done tt
      → (D.found (delete S (done m) s).1 name ≡ none)
        × ((other : String)
            → (other == name) ≡ false
            → SameBut name (D.found s other) (D.found (delete S (done m) s).1 other))
  unfolding delete delete_role
  deleted-found plain h =
      let gone = λ (n : String). S.exec (delete_role_query (bare n)) s in
      subst
        (λ n.
          (gone n).0 ≡ ok tt
          → (D.found (gone n).1 name ≡ none)
            × ((other : String)
                → (other == name) ≡ false
                → SameBut name (D.found s other) (D.found (gone n).1 other)))
        (sym (ap value_string named)) (λ sent. D.delete-ok (bare name) s plain sent)
        (with_summary-done "Unable to delete the role" _ tt h)
