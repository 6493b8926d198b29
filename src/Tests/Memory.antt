-- ===== src/Tests/Memory.antt =====
-- A database in memory that reads the texts of its statements by the grammar of `Cql`: it shows that
-- the hypotheses on the database can hold, and runs the code in tests.
use terraform_provider_scyll.Base.{
  String, ◌≡◌, ◌∙◌, refl, Bool, true, false, ◌&&◌, ◌||◌, Option, none, some, List, [], ◌∷◌, ◌==◌,
  contains, Distinct, arith, if◌then◌else◌, Bool-cases, inl, inr, text_discrete,
}
use terraform_provider_scyll.Base.Dict
use terraform_provider_scyll.Base.Dict.{Dict, lookup-insert, insert-Distinct}
use terraform_provider_scyll.Base.Exec.{Exec, Result, ok, err, message, driver_not_found}
use terraform_provider_scyll.Go.Strings.Upper.{is_upper_ascii}
use terraform_provider_scyll.Cql.{grant, revoke, list, Statement, resource_path, parse}
use terraform_provider_scyll.Cql.Lexer.{is_word}
use terraform_provider_scyll.Scylladb.Session.{Session, Rows}
use terraform_provider_scyll.Scylladb.Grant.{nonempty}
use terraform_provider_scyll.Scylladb.Authoritative.Accepted.{IsAccepting}
use terraform_provider_scyll.Scylladb.Database.{IsDatabase, IsStored, touches, outcome}

pub record Held : Type 0 where
  pub role : String
  pub path : String
  pub privilege : String

unfoldable pub is_stored : String → Bool
is_stored p = nonempty p && is_word p && is_upper_ascii p

unfoldable pub is_held : String → String → String → Held → Bool
is_held r path p h = r == h.role && path == h.path && p == h.privilege

unfoldable pub holds : List Held → String → String → String → Bool
unfolding is_held
holds [] r path p = false
holds (h ∷ hs) r path p = is_held r path p h || holds hs r path p

unfoldable pub remove : String → String → String → List Held → List Held
unfolding is_held
remove r path p [] = []
remove r path p (h ∷ hs) =
    let rest = remove r path p hs in if is_held r path p h then rest else h ∷ rest

unfoldable pub perform : Statement → List Held → List Held
unfolding remove
perform st hs = elim st.verb [
  | grant ↦
      record { role = st.grantee; path = resource_path st.resource; privilege = st.privilege } ∷ hs
  | revoke ↦ remove st.grantee (resource_path st.resource) st.privilege hs
  | list ↦ hs
]

unfoldable pub run_statement : Option Statement → Exec (List Held) (Unit {0})
unfolding perform
run_statement none hs = (err (message "syntax error"), hs)
run_statement (some st) hs = (ok tt, perform st hs)

-- The rows of a resource.
unfoldable pub rows_of : String → List Held → Dict (List String)
unfolding is_stored
rows_of path [] = []
rows_of path (h ∷ hs) =
    let rest = rows_of path hs in
    if path == h.path && is_stored h.privilege
    then Dict.insert h.role (h.privilege ∷ Dict.get_or h.role rest []) rest
    else rest

abbrev pub select_roles : String
select_roles = "SELECT role, permissions FROM system.role_permissions WHERE resource = ?"

unfoldable pub read_roles : Bool → Dict (List String) → Rows (String × List String)
read_roles true rows = record { rows = rows; close = none }
read_roles false rows = record { rows = []; close = none }

unfoldable pub read_role : Option (List String) → Result (List String)
read_role none = err (driver_not_found "not found")
read_role (some ps) = ok ps

abbrev pub memory_session : Session
memory_session = record {
  State = List Held;
  exec = λ q. run_statement (parse q);
  iter_permissions = λ q s. record { rows = []; close = none };
  iter_role_permissions = λ q path s. read_roles (q == select_roles) (rows_of path s);
  scan_permissions = λ q r path s. read_role (Dict.lookup r (rows_of path s));
  scan_role = λ q r s. err (driver_not_found "not found");
}

unfoldable pub memory_granted : List Held → String → String → String → Bool
unfolding is_stored holds
memory_granted s r path p = holds s r path p && is_stored p

pub memory_granted-IsStored :
    (s : List Held) (r path p : String) → memory_granted s r path p ≡ true → IsStored p
unfolding memory_granted
memory_granted-IsStored s r path p h = ground arith

pub rows_of-Distinct : (path : String) (s : List Held) → Distinct (Dict.keys (rows_of path s))
unfolding rows_of Dict.keys
rows_of-Distinct path [] = tt
rows_of-Distinct path (h ∷ hs) = elim (Bool-cases (path == h.path && is_stored h.privilege)) [
  | inl e ↦ rw e (insert-Distinct h.role _ (rows_of path hs) (rows_of-Distinct path hs))
  | inr e ↦ rw e (rows_of-Distinct path hs)
]

pub rows_of-granted :
    (path : String) (s : List Held) (r p : String)
    → contains (Dict.get_or r (rows_of path s) []) p ≡ memory_granted s r path p
unfolding rows_of memory_granted Dict.lookup
rows_of-granted path [] r p = refl
rows_of-granted path (h ∷ hs) r p =
    let rest = rows_of path hs in
    ground (
      arith,
      rows_of-granted path hs r p,
      lookup-insert r h.role (h.privilege ∷ Dict.get_or h.role rest []) rest,
    )

select_roles_lem : (select_roles == select_roles) ≡ true
unfolding text_discrete
select_roles_lem = refl

pub rows-Distinct :
    (s : List Held) (path : String)
    → Distinct (Dict.keys (memory_session.iter_role_permissions select_roles path s).rows)
unfolding read_roles
rows-Distinct s path = rw select_roles_lem (rows_of-Distinct path s)

pub rows-granted :
    (s : List Held) (path r p : String)
    → contains (Dict.get_or r (memory_session.iter_role_permissions select_roles path s).rows []) p
      ≡ memory_granted s r path p
unfolding read_roles
rows-granted s path r p = rw select_roles_lem (rows_of-granted path s r p)

holds-remove :
    (r path p : String) (hs : List Held) (r' path' p' : String)
    → holds (remove r path p hs) r' path' p'
      ≡ (if r' == r && path' == path && p' == p then false else holds hs r' path' p')
unfolding holds remove
holds-remove r path p [] r' path' p' = ground arith
holds-remove r path p (h ∷ hs) r' path' p' = ground (arith, holds-remove r path p hs r' path' p')

holds-perform :
    (st : Statement) (s : List Held) (r path p : String)
    → holds (perform st s) r path p
      ≡ (if touches st r path p then outcome st.verb (holds s r path p) else holds s r path p)
unfolding holds perform
holds-perform st s r path p =
    ground (arith, holds-remove st.grantee (resource_path st.resource) st.privilege s r path p)

pub exec-granted :
    (q : String) (st : Statement) (s : List Held)
    → parse q ≡ some st
    → IsStored st.privilege
    → (r path p : String)
    → memory_granted (memory_session.exec q s).1 r path p ≡ (
        if touches st r path p
        then outcome st.verb (memory_granted s r path p)
        else memory_granted s r path p)
unfolding run_statement memory_granted
exec-granted q st s e stored r path p = rw e (ground (arith, holds-perform st s r path p))

pub exec_frame :
    (q : String) (st : Statement) (s : List Held)
    → parse q ≡ some st
    → IsStored st.privilege
    → (r path p : String) → touches st r path p ≡ false
    → memory_granted (memory_session.exec q s).1 r path p ≡ memory_granted s r path p
exec_frame q st s e stored r path p h = exec-granted q st s e stored r path p ∙ rw h

abbrev pub memory_database : IsDatabase memory_session
memory_database = record {
  auth_keyspace = "system";
  granted = memory_granted;
  granted-IsStored = memory_granted-IsStored;
  rows-Distinct = λ s path closed. rows-Distinct s path;
  rows-granted = λ s path closed. rows-granted s path;
  exec-ok = λ q st s e stored done. exec-granted q st s e stored;
  exec-frame = exec_frame;
}

close-none : (b : Bool) (rows : Dict (List String)) → (read_roles b rows).close ≡ none
unfolding read_roles
close-none true rows = refl
close-none false rows = refl

run-ok :
    (q : String) (st : Statement) (s : List Held)
    → parse q ≡ some st
    → (memory_session.exec q s).0 ≡ ok tt
unfolding run_statement
run-ok q st s e = rw e refl

pub memory-IsAccepting : IsAccepting memory_session
memory-IsAccepting = record {
  answers = λ q path s. close-none (q == select_roles) (rows_of path s);
  accepts = λ q st s e stored. run-ok q st s e;
}
