-- ===== src/Scylladb/Authoritative/Revokes.antt =====
-- The loops of revocations.
use terraform_provider_scyll.Base.{
  String, ◌≡◌, Bool, true, false, not, ◌&&◌, List, [], ◌∷◌, ◌==◌, contains, arith, if◌then◌else◌,
}
use terraform_provider_scyll.Base.Dict
use terraform_provider_scyll.Base.Dict.{Dict}
use terraform_provider_scyll.Base.Exec.{ok, pure}
use terraform_provider_scyll.Go.Strings.{Unicode, to_upper}
use terraform_provider_scyll.Cql.{Resource, resource_path}
use terraform_provider_scyll.Scylladb.Session.{Session}
use terraform_provider_scyll.Scylladb.Grant.{delete_grant}
use terraform_provider_scyll.Scylladb.Grant.Render.{IsNamed}
use terraform_provider_scyll.Scylladb.Database.{IsDatabase, IsStored}
use terraform_provider_scyll.Scylladb.Authoritative.{
  ParsedIdentifier, grant_on, has, revoke_privileges, revoke_roles,
}
use terraform_provider_scyll.Scylladb.Authoritative.Identifier.{Denotes}
use terraform_provider_scyll.Base.Exec.Inversion.{>>-eq-ok}
use terraform_provider_scyll.Scylladb.Authoritative.Steps.{IsRole, delete_grant-ok}

module _ (S : Session) (D : IsDatabase S) (id : ParsedIdentifier) (res : Resource)
    (den : Denotes id res) (named : IsNamed res) ⦃u : Unicode⦄ where
  step-ok :
      (r p : String)
      → IsRole r
      → IsStored p
      → (keep : Bool) (s : S.State)
      → ((if keep then pure tt else delete_grant S (grant_on id r p)) s).0 ≡ ok tt
      → (r' path p' : String)
      → D.granted ((if keep then pure tt else delete_grant S (grant_on id r p)) s).1 r' path p' ≡ (
          if r' == r && path == resource_path res && p' == p && not keep
          then false
          else D.granted s r' path p')
  step-ok r p hr hp true s h r' path p' = ground arith
  step-ok r p hr hp false s h r' path p' =
      ground (arith, delete_grant-ok S D id res den named r p hr hp s r' path p' h)

  -- Behind the loop for a role, those of its listed permissions are gone that are not wanted.
  revoke_privileges-ok :
      (r : String) (wanted : Dict Bool) (ps : List String) (s : S.State)
      → ((p : String) → contains ps p ≡ true → IsRole r × IsStored p)
      → (revoke_privileges S id r wanted ps s).0 ≡ ok tt
      → (r' path p' : String)
      → D.granted (revoke_privileges S id r wanted ps s).1 r' path p' ≡ (
          if r' == r
            && path == resource_path res
            && contains ps p'
            && not (has wanted (to_upper p'))
          then false
          else D.granted s r' path p')
  unfolding revoke_privileges
  revoke_privileges-ok r wanted [] s hs h r' path p' = ground arith
  revoke_privileges-ok r wanted (p ∷ ps) s hs h r' path p' =
      let here = hs p (ground arith) in
      let keep = has wanted (to_upper p) in
      let m = if keep then pure tt else delete_grant S (grant_on id r p) in
      let (first, rest, end) = >>-eq-ok m (revoke_privileges S id r wanted ps) s h in
      rw end (
        ground (
          arith,
          step-ok r p here.0 here.1 keep s first r' path p',
          revoke_privileges-ok r wanted ps (m s).1 (λ x hx. hs x (ground arith)) rest r' path p',
        ))

  pub revoke_roles-ok :
      (perms : Dict (List String)) (desired : Dict (Dict Bool)) (rs : List String) (s : S.State)
      → ((r p : String) → contains (Dict.get_or r perms []) p ≡ true → IsRole r × IsStored p)
      → (revoke_roles S id perms desired rs s).0 ≡ ok tt
      → (r path p : String)
      → D.granted (revoke_roles S id perms desired rs s).1 r path p ≡ (
          if contains rs r
            && path == resource_path res
            && contains (Dict.get_or r perms []) p
            && not (has (Dict.get_or r desired []) (to_upper p))
          then false
          else D.granted s r path p)
  unfolding revoke_roles
  revoke_roles-ok perms desired [] s hs h r path p = ground arith
  revoke_roles-ok perms desired (q ∷ rs) s hs h r path p =
      let m = revoke_privileges S id q (Dict.get_or q desired []) (Dict.get_or q perms []) in
      let (first, rest, end) = >>-eq-ok m (revoke_roles S id perms desired rs) s h in
      rw end (
        ground (
          arith,
          revoke_privileges-ok q (Dict.get_or q desired []) (Dict.get_or q perms []) s (hs q) first
              r path p,
          revoke_roles-ok perms desired rs (m s).1 hs rest r path p,
        ))
