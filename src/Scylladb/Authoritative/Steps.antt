-- ===== src/Scylladb/Authoritative/Steps.antt =====
-- What one statement of the reconciliation does to the permissions of the database.
use terraform_provider_scyll.Base.{String, ◌≡◌, Bool, true, false, ◌&&◌, ◌==◌, if◌then◌else◌, some}
use terraform_provider_scyll.Base.Exec.{ok}
use terraform_provider_scyll.Go.Strings.{lacks}
use terraform_provider_scyll.Cql.{Verb, grant, revoke, Resource, Statement, resource_path, parse}
use terraform_provider_scyll.Scylladb.Session.{Session}
use terraform_provider_scyll.Scylladb.Grant.{create_grant, delete_grant}
use terraform_provider_scyll.Scylladb.Grant.Render.{IsNamed, query, parse-query}
use terraform_provider_scyll.Scylladb.Database.{IsDatabase, IsStored}
use terraform_provider_scyll.Scylladb.Authoritative.{ParsedIdentifier, grant_on}
use terraform_provider_scyll.Scylladb.Authoritative.Identifier.{Denotes}

-- A role's name that can stand between quotation marks.
abbrev pub IsRole : String → Type 0
IsRole r = lacks "\"" r ≡ true

module _ (S : Session) (D : IsDatabase S) (id : ParsedIdentifier) (res : Resource)
    (den : Denotes id res) (named : IsNamed res) where
  abbrev pub statement : Verb → String → String → Statement
  statement v r p = record { verb = v; privilege = p; resource = res; grantee = r }

  pub parse-grant_on :
      (v : Verb) (r p : String)
      → IsRole r
      → IsStored p
      → parse (query v (grant_on id r p)) ≡ some (statement v r p)
  parse-grant_on v r p hr hp = rw (den r p) (parse-query p res r hp.0 named hr v)

  -- The permission that a statement of the loops is about.
  abbrev pub hits : String → String → String → String → String → Bool
  hits r p r' path p' = r' == r && path == resource_path res && p' == p

  module _ (r p : String) (hr : IsRole r) (hp : IsStored p) (s : S.State)
      (r' path p' : String) where
    pub delete_grant-ok :
        (delete_grant S (grant_on id r p) s).0 ≡ ok tt
        → D.granted (delete_grant S (grant_on id r p) s).1 r' path p'
          ≡ (if hits r p r' path p' then false else D.granted s r' path p')
    unfolding delete_grant
    delete_grant-ok h =
        D.exec-ok _ (statement revoke r p) s (parse-grant_on revoke r p hr hp) hp h r' path p'

    pub create_grant-ok :
        (create_grant S (grant_on id r p) s).0 ≡ ok tt
        → D.granted (create_grant S (grant_on id r p) s).1 r' path p'
          ≡ (if hits r p r' path p' then true else D.granted s r' path p')
    unfolding create_grant
    create_grant-ok h =
        D.exec-ok _ (statement grant r p) s (parse-grant_on grant r p hr hp) hp h r' path p'

    pub delete_grant-frame :
        hits r p r' path p' ≡ false
        → D.granted (delete_grant S (grant_on id r p) s).1 r' path p' ≡ D.granted s r' path p'
    unfolding delete_grant
    delete_grant-frame h =
        D.exec-frame _ (statement revoke r p) s (parse-grant_on revoke r p hr hp) hp r' path p' h

    pub create_grant-frame :
        hits r p r' path p' ≡ false
        → D.granted (create_grant S (grant_on id r p) s).1 r' path p' ≡ D.granted s r' path p'
    unfolding create_grant
    create_grant-frame h =
        D.exec-frame _ (statement grant r p) s (parse-grant_on grant r p hr hp) hp r' path p' h
