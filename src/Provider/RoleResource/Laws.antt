-- ===== src/Provider/RoleResource/Laws.antt =====
-- The handlers of the role resource against the `roles` table.
use terraform_provider_scyll.Base.{
  String, ◌≡◌, ◌∙◌, refl, sym, ap, subst, Bool, true, false, Option, none, some, List, ◌==◌, arith,
  if◌then◌else◌,
}
use terraform_provider_scyll.Base.Exec.{driver_not_found, role_not_found, message, Result, ok, err}
use terraform_provider_scyll.Go.Strings.{lacks}
use terraform_provider_scyll.Scylladb.Cluster.{Cluster}
use terraform_provider_scyll.Scylladb.Session.{Session, RoleRow}
use terraform_provider_scyll.Scylladb.Role.{get_role, role_of_scan, role_select}
use terraform_provider_scyll.Scylladb.Role.Database.{IsRoleDatabase}
use terraform_provider_scyll.Provider.Framework.{Value, done, list_value_from, value_string}
use terraform_provider_scyll.Provider.Framework.Laws.{done-injective}
use terraform_provider_scyll.Provider.RoleResource.Found.{stored, plan, updated-found}
use terraform_provider_scyll.Provider.RoleResource.{
  RoleResourceModel, read_role_result, state_of_role, read, update,
}

pub some-injective : {A : Type 0} (a b : A) → some a ≡ some b → a ≡ b
some-injective a b h = cc

-- The state that `Read` makes of a row, and of none
abbrev pub shown : Option RoleRow → Option RoleResourceModel
shown none = none
shown (some row) =
    some (stored row.role row.can_login row.is_superuser (list_value_from row.member_of))

-- If `Read` ends without an error, it sets the role of its identifier as the table holds it, or
-- removes the state of a role that is not there.
module _ (S : Session) (D : IsRoleDatabase S) (c : Cluster)
    (own : c.system_auth_keyspace_name ≡ D.auth_keyspace) (m : RoleResourceModel)
    (t : S.State) where
  abbrev query : String → Result RoleRow
  query ks = S.scan_role (role_select ks) (value_string m.id) t

  scanned-seen :
      (r : Result RoleRow) (seen : Option RoleResourceModel)
      → query D.auth_keyspace ≡ r
      → read_role_result (role_of_scan r) ≡ done seen
      → seen ≡ shown (D.found t (value_string m.id))
  unfolding read_role_result role_of_scan state_of_role
  scanned-seen (ok row) seen e h =
      sym (done-injective _ seen h) ∙ ap shown (sym (D.scan-ok t (value_string m.id) row e))
  scanned-seen (err (driver_not_found text)) seen e h =
      sym (done-injective _ seen h) ∙ ap shown (sym (D.scan-not_found t (value_string m.id) text e))
  scanned-seen (err role_not_found) seen e h = absurd (D.scan-foreign t (value_string m.id) e)
  scanned-seen (err (message text)) seen e h = absurd (cc h)

  pub role_read-seen :
      (seen : Option RoleResourceModel)
      → (read S c (done m) t).0 ≡ done seen
      → (seen ≡ shown (D.found t (value_string m.id))) × ((read S c (done m) t).1 ≡ t)
  unfolding read get_role
  role_read-seen seen h = (
    scanned-seen (query D.auth_keyspace) seen refl
        (subst (λ ks. read_role_result (role_of_scan (query ks)) ≡ done seen) own h),
    refl,
  )

pub if_same : {A : Type 0} (n : String) (x y : A) → (if n == n then x else y) ≡ x
if_same n x y = ground arith

module _ (S : Session) (D : IsRoleDatabase S) (c : Cluster)
    (own : c.system_auth_keyspace_name ≡ D.auth_keyspace) (id : Value String) (name : String)
    (login super : Bool) (members : Value (List (Value String))) (s : S.State) where
  abbrev planned : RoleResourceModel
  planned = plan name login super id members

  -- If `Update` ends without an error, and then `Read` of the state that it set does, `Read` gives
  -- that state again and changes nothing in the database, if the state before held the roles that
  -- the role is a member of as `Read` sets them, that is as a null list where the driver gives a
  -- nil slice; every role of another name is as it was, so that a plan which renames a role leaves
  -- the old one in the database. The name has no quotation mark, and the cluster's keyspace is the
  -- one that holds the roles.
  pub role_update-read :
      (old st : RoleResourceModel) (row : RoleRow) (seen : Option RoleResourceModel)
      → lacks "'" name ≡ true
      → D.found s name ≡ some row
      → old.member_of ≡ list_value_from row.member_of
      → (update S (done planned) (done old) s).0 ≡ done st
      → (read S c (done st) (update S (done planned) (done old) s).1).0 ≡ done seen
      → (seen ≡ some st)
        × ((read S c (done st) (update S (done planned) (done old) s).1).1
            ≡ (update S (done planned) (done old) s).1)
        × ((other : String)
            → (other == name) ≡ false
            → D.found (update S (done planned) (done old) s).1 other ≡ D.found s other)
  role_update-read old st row seen plain there groups h looked =
      let (held, was, form, after) =
        updated-found S D name login super id members s old st plain h in
      let T = (update S (done planned) (done old) s).1 in
      let same = ap (λ (x : RoleRow). x.member_of) (some-injective held row (sym was ∙ there)) in
      let found = after name ∙ if_same name _ _ in
      let (answer, still) = role_read-seen S D c own st T seen looked in
      (
        answer
            ∙ ap (λ x. shown (D.found T x)) (ap (λ (x : RoleResourceModel). value_string x.id) form)
            ∙ ap shown found
            ∙ ap (λ x. some (stored name login super (list_value_from x))) same
            ∙ ap (λ x. some (stored name login super x)) (sym groups)
            ∙ ap some (sym form),
        still,
        λ other differ. after other ∙ rw differ refl,
      )
