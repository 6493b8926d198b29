-- ===== src/Tests/RoleTable.antt =====
-- A table of roles in memory, which reads the statements of the code at their quotation marks.
use text.Mathlib.TextLemmas.{cons-append, nil-append, append_assoc}
use terraform_provider_scyll.Base.{
  String, ◌<>◌, ◌≡◌, ◌∙◌, refl, sym, ap, subst, Bool, true, false, ◌||◌, Option, none, some, List,
  [], ◌∷◌, ◌==◌, arith, if◌then◌else◌, text_discrete,
}
use terraform_provider_scyll.Base.Dict
use terraform_provider_scyll.Base.Dict.{Dict, lookup-insert}
use terraform_provider_scyll.Base.Exec.{
  Exec, Result, ok, err, message, driver_not_found, role_not_found,
}
use terraform_provider_scyll.Go.Strings.{lacks, split_n}
use terraform_provider_scyll.Go.Strings.Split.{split_n-append, split_n_zero}
use terraform_provider_scyll.Scylladb.Session.{Session, RoleRow}
use terraform_provider_scyll.Scylladb.Role.{
  Role, bool_text, role_options, create_role_query, update_role_query, delete_role_query,
}
use terraform_provider_scyll.Scylladb.Role.Database.{IsRoleDatabase, SameBut, SameBut-refl, new_row}

-- The answer of the driver to a query of one row
abbrev pub scanned : Option RoleRow → Result RoleRow
scanned none = err (driver_not_found "not found")
scanned (some row) = ok row

unfoldable pub erase : String → Dict RoleRow → Dict RoleRow
erase n [] = []
erase n ((m, row) ∷ d) = let rest = erase n d in if n == m then rest else (m, row) ∷ rest

lookup-erase :
    (j n : String) (d : Dict RoleRow)
    → Dict.lookup j (erase n d) ≡ (if j == n then none else Dict.lookup j d)
unfolding erase Dict.lookup
lookup-erase j n [] = ground arith
lookup-erase j n ((m, row) ∷ d) = ground (arith, lookup-erase j n d)

abbrev options : Bool → Bool → String
options true true = " WITH LOGIN = true AND SUPERUSER = true"
options true false = " WITH LOGIN = true AND SUPERUSER = false"
options false true = " WITH LOGIN = false AND SUPERUSER = true"
options false false = " WITH LOGIN = false AND SUPERUSER = false"

abbrev row_of : String → String → Option (List String) → RoleRow
row_of name opts groups = record {
  role = name;
  can_login = opts == options true true || opts == options true false;
  is_superuser = opts == options true true || opts == options false true;
  member_of = groups;
}

unfoldable pub alter : Option RoleRow → String → String → Exec (Dict RoleRow) (Unit {0})
alter none name opts s = (err (message "no such role"), s)
alter (some row) name opts s = (ok tt, Dict.insert name (row_of name opts row.member_of) s)

unfoldable pub perform : List String → Exec (Dict RoleRow) (Unit {0})
perform (verb ∷ name ∷ opts ∷ []) s =
    if verb == "CREATE ROLE "
    then (ok tt, Dict.insert name (row_of name opts none) s)
    else if verb == "ALTER ROLE "
    then alter (Dict.lookup name s) name opts s
    else if verb == "DROP ROLE "
    then (ok tt, erase name s)
    else (err (message "syntax error"), s)
perform _ s = (err (message "syntax error"), s)

abbrev pub role_session : Session
role_session = record {
  State = Dict RoleRow;
  exec = λ q. perform (split_n "'" 2 q);
  iter_permissions = λ q s. record { rows = []; close = none };
  iter_role_permissions = λ q path s. record { rows = []; close = none };
  scan_permissions = λ q r path s. err (driver_not_found "not found");
  scan_role = λ q r s. scanned (Dict.lookup r s);
}

parts :
    (verb name opts : String)
    → lacks "'" verb ≡ true
    → lacks "'" name ≡ true
    → split_n "'" 2 (verb <> String.◌∷◌ "'" (name <> String.◌∷◌ "'" opts)) ≡ verb ∷ name ∷ opts ∷ []
parts verb name opts hv hn =
    split_n-append "'" 1 verb _ hv
    ∙ ap (λ ps. verb ∷ ps)
        (split_n-append "'" 0 name opts hn ∙ ap (λ ps. name ∷ ps) (split_n_zero "'" opts))

options_text :
    (l s : Bool)
    → "' WITH LOGIN = " <> bool_text l <> " AND SUPERUSER = " <> bool_text s
      ≡ String.◌∷◌ "'" (options l s)
options_text true true = refl
options_text true false = refl
options_text false true = refl
options_text false false = refl

front : (verb s : String) → (verb <> "'") <> s ≡ verb <> String.◌∷◌ "'" s
front verb s =
    append_assoc verb "'" s
    ∙ ap (λ x. verb <> x) (cons-append "'" "" s ∙ ap (String.◌∷◌ "'") (nil-append s))

abbrev statement : String → Role → String
statement verb r = (verb <> "'") <> r.role <> role_options r

statement-parts :
    (verb : String) (r : Role)
    → lacks "'" verb ≡ true
    → lacks "'" r.role ≡ true
    → split_n "'" 2 (statement verb r) ≡ verb ∷ r.role ∷ options r.can_login r.is_superuser ∷ []
unfolding role_options
statement-parts verb r hv hr =
    ap (split_n "'" 2) (
      front verb _
      ∙ ap (λ o. verb <> String.◌∷◌ "'" (r.role <> o)) (options_text r.can_login r.is_superuser))
    ∙ parts verb r.role (options r.can_login r.is_superuser) hv hr

row_of-options :
    (name : String) (l s : Bool) (groups : Option (List String))
    → row_of name (options l s) groups
      ≡ record { role = name; can_login = l; is_superuser = s; member_of = groups }
unfolding text_discrete
row_of-options name true true groups = refl
row_of-options name true false groups = refl
row_of-options name false true groups = refl
row_of-options name false false groups = refl

create_parts :
    (r : Role)
    → lacks "'" r.role ≡ true
    → split_n "'" 2 (create_role_query r)
      ≡ "CREATE ROLE " ∷ r.role ∷ options r.can_login r.is_superuser ∷ []
unfolding create_role_query lacks
create_parts r h = statement-parts "CREATE ROLE " r refl h

update_parts :
    (r : Role)
    → lacks "'" r.role ≡ true
    → split_n "'" 2 (update_role_query r)
      ≡ "ALTER ROLE " ∷ r.role ∷ options r.can_login r.is_superuser ∷ []
unfolding update_role_query lacks
update_parts r h = statement-parts "ALTER ROLE " r refl h

delete_parts :
    (r : Role)
    → lacks "'" r.role ≡ true
    → split_n "'" 2 (delete_role_query r) ≡ "DROP ROLE " ∷ r.role ∷ "" ∷ []
unfolding delete_role_query lacks
delete_parts r h =
    ap (split_n "'" 2) (front "DROP ROLE " (r.role <> "'")) ∙ parts "DROP ROLE " r.role "" refl h

pub create-found :
    (r : Role) (s : Dict RoleRow)
    → lacks "'" r.role ≡ true
    → (name : String)
    → Dict.lookup name (role_session.exec (create_role_query r) s).1
      ≡ (if name == r.role then some (new_row r) else Dict.lookup name s)
unfolding perform text_discrete
create-found r s h name =
    ap (λ ps. Dict.lookup name (perform ps s).1) (create_parts r h)
    ∙ lookup-insert name r.role _ s
    ∙ ap (λ row. if name == r.role then some row else Dict.lookup name s)
        (row_of-options r.role r.can_login r.is_superuser none)

pub delete-found :
    (r : Role) (s : Dict RoleRow)
    → lacks "'" r.role ≡ true
    → (name : String)
    → Dict.lookup name (role_session.exec (delete_role_query r) s).1
      ≡ (if name == r.role then none else Dict.lookup name s)
unfolding perform text_discrete
delete-found r s h name =
    ap (λ ps. Dict.lookup name (perform ps s).1) (delete_parts r h) ∙ lookup-erase name r.role s

alter-found :
    (o : Option RoleRow) (r : Role) (s : Dict RoleRow)
    → (alter o r.role (options r.can_login r.is_superuser) s).0 ≡ ok tt
    → (row : RoleRow) × (o ≡ some row)
      × ((name : String)
          → Dict.lookup name (alter o r.role (options r.can_login r.is_superuser) s).1 ≡ (
              if name == r.role
              then some (record (new_row r) { member_of = row.member_of })
              else Dict.lookup name s))
unfolding alter
alter-found none r s h = cc
alter-found (some row) r s h = (
  row,
  refl,
  λ name.
      lookup-insert name r.role _ s
      ∙ ap (λ x. if name == r.role then some x else Dict.lookup name s)
          (row_of-options r.role r.can_login r.is_superuser row.member_of),
)

pub update-found :
    (r : Role) (s : Dict RoleRow)
    → lacks "'" r.role ≡ true
    → (role_session.exec (update_role_query r) s).0 ≡ ok tt
    → (row : RoleRow) × (Dict.lookup r.role s ≡ some row)
      × ((name : String)
          → Dict.lookup name (role_session.exec (update_role_query r) s).1 ≡ (
              if name == r.role
              then some (record (new_row r) { member_of = row.member_of })
              else Dict.lookup name s))
unfolding perform text_discrete
update-found r s h =
    subst
      (λ ps.
        (perform ps s).0 ≡ ok tt
        → (row : RoleRow) × (Dict.lookup r.role s ≡ some row)
          × ((name : String)
              → Dict.lookup name (perform ps s).1 ≡ (
                  if name == r.role
                  then some (record (new_row r) { member_of = row.member_of })
                  else Dict.lookup name s)))
      (sym (update_parts r h)) (alter-found (Dict.lookup r.role s) r s)

pub scanned-ok : (o : Option RoleRow) (row : RoleRow) → scanned o ≡ ok row → o ≡ some row
scanned-ok none row h = absurd (cc h)
scanned-ok (some r) row h = cc

pub scanned-not_found :
    (o : Option RoleRow) (text : String) → scanned o ≡ err (driver_not_found text) → o ≡ none
scanned-not_found none text h = refl
scanned-not_found (some r) text h = absurd (cc h)

pub scanned-foreign : (o : Option RoleRow) → scanned o ≡ err role_not_found → ⊥
scanned-foreign none h = cc
scanned-foreign (some r) h = cc

pub deleted-SameBut :
    (r : Role) (s : Dict RoleRow)
    → lacks "'" r.role ≡ true
    → (name : String) → (name == r.role) ≡ false
    → SameBut r.role
        (Dict.lookup name s)
        (Dict.lookup name (role_session.exec (delete_role_query r) s).1)
deleted-SameBut r s h name differ =
    subst (SameBut r.role (Dict.lookup name s)) (sym (delete-found r s h name ∙ rw differ refl))
      (SameBut-refl r.role (Dict.lookup name s))

pub if_same : {A : Type 0} (n : String) (x y : A) → (if n == n then x else y) ≡ x
if_same n x y = ground arith

abbrev pub role_database : IsRoleDatabase role_session
role_database = record {
  auth_keyspace = "system";
  found = λ s name. Dict.lookup name s;
  scan-ok = λ s name row h. scanned-ok (Dict.lookup name s) row h;
  scan-not_found = λ s name text h. scanned-not_found (Dict.lookup name s) text h;
  scan-foreign = λ s name h. scanned-foreign (Dict.lookup name s) h;
  create-ok = λ r s h done. (none, refl, create-found r s h);
  update-ok = update-found;
  delete-ok = λ r s h done. (delete-found r s h r.role ∙ if_same r.role _ _, deleted-SameBut r s h);
}
