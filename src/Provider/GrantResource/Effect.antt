-- ===== src/Provider/GrantResource/Effect.antt =====
-- What `Create` and `Delete` of a grant of one privilege leave in the database.
use terraform_provider_scyll.Base.{
  String, ◌≡◌, ◌∙◌, sym, ap, subst, true, false, some, ◌==◌, ◌&&◌, if◌then◌else◌,
}
use terraform_provider_scyll.Go.Strings.{Unicode}
use terraform_provider_scyll.Cql.{grant, revoke, Resource, resource_path, parse}
use terraform_provider_scyll.Scylladb.Cluster.{Cluster}
use terraform_provider_scyll.Scylladb.Session.{Session}
use terraform_provider_scyll.Scylladb.Grant.{create_grant, delete_grant, create_query, delete_query}
use terraform_provider_scyll.Scylladb.Grant.Render.{IsNamed, grant_for, parse-query}
use terraform_provider_scyll.Scylladb.Database.{IsDatabase, IsStored}
use terraform_provider_scyll.Scylladb.Authoritative.Steps.{IsRole}
use terraform_provider_scyll.Provider.Framework.{done, with_summary}
use terraform_provider_scyll.Provider.Framework.Laws.{follow-done, with_summary-done}
use terraform_provider_scyll.Provider.GrantResource.{GrantResourceModel, grant_of, create, delete}
use terraform_provider_scyll.Provider.GrantResource.Drift.{completed}

module _ (S : Session) (D : IsDatabase S) (res : Resource) (named : IsNamed res) (r p : String)
    (role : IsRole r) (stored : IsStored p) (plan : GrantResourceModel)
    (stands : grant_of plan ≡ grant_for p res r) (s : S.State) where
  -- If `Create` ends without an error, the role has the privilege on the resource, and no other
  -- permission has changed. The privilege is one word in upper case, as the database stores them,
  -- the plan or state names a resource and a role, no name has a quotation mark, and that of the
  -- resource is not empty.
  pub create-granted :
      ⦃u : Unicode⦄ (c : Cluster) (st : GrantResourceModel)
      → (create S c (done plan) s).0 ≡ done st
      → (r' path p' : String)
      → D.granted (create S c (done plan) s).1 r' path p'
        ≡ (if r' == r && path == resource_path res && p' == p then true else D.granted s r' path p')
  unfolding create create_grant
  create-granted c st h r' path p' =
      let run = create_grant S (grant_of plan) s in
      let (_, ran, rest, end) =
        follow-done (with_summary "Error Creating Grant" run.0) _ run.1 st h in
      let (ps, got, same, still) = completed S c plan st run.1 rest in
      let sent = with_summary-done "Error Creating Grant" run.0 tt ran in
      let meant =
        subst
          (λ g.
            parse (create_query g)
            ≡ some (record { verb = grant; privilege = p; resource = res; grantee = r }))
          (sym stands) (parse-query p res r stored.0 named role grant) in
      ap (λ t. D.granted t r' path p') (ap (λ o. o.1) end ∙ still)
      ∙ D.exec-ok _ _ s meant stored sent r' path p'

  -- If `Delete` ends without an error, the role has the privilege on the resource no more, and no
  -- other permission has changed. The privilege is one word in upper case, as the database stores
  -- them, the plan or state names a resource and a role, no name has a quotation mark, and that of
  -- the resource is not empty.
  pub delete-revoked :
      (delete S (done plan) s).0 ≡ done tt
      → (r' path p' : String)
      → D.granted (delete S (done plan) s).1 r' path p' ≡ (
          if r' == r && path == resource_path res && p' == p then false else D.granted s r' path p')
  unfolding delete delete_grant
  delete-revoked h r' path p' =
      let meant =
        subst
          (λ g.
            parse (delete_query g)
            ≡ some (record { verb = revoke; privilege = p; resource = res; grantee = r }))
          (sym stands) (parse-query p res r stored.0 named role revoke) in
      D.exec-ok _ _ s meant stored
        (with_summary-done "Error Deleting Grant" (delete_grant S (grant_of plan) s).0 tt h) r' path
        p'
