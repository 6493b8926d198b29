-- ===== src/Scylladb/Authoritative/Grants.antt =====
-- The loops of grants.
use terraform_provider_scyll.Base.{
  String, ◌≡◌, sym, ◌∙◌, Bool, true, false, not, ◌&&◌, List, [], ◌∷◌, ◌==◌, contains, arith,
  if◌then◌else◌,
}
use terraform_provider_scyll.Base.Dict
use terraform_provider_scyll.Base.Dict.{Dict}
use terraform_provider_scyll.Base.Exec.{ok, pure}
use terraform_provider_scyll.Go.Strings.{Unicode}
use terraform_provider_scyll.Cql.{Resource, resource_path}
use terraform_provider_scyll.Scylladb.Session.{Session}
use terraform_provider_scyll.Scylladb.Grant.{create_grant}
use terraform_provider_scyll.Scylladb.Grant.Render.{IsNamed}
use terraform_provider_scyll.Scylladb.Database.{IsDatabase, IsStored}
use terraform_provider_scyll.Scylladb.Authoritative.{
  ParsedIdentifier, grant_on, has, grant_privileges, grant_roles,
}
use terraform_provider_scyll.Scylladb.Authoritative.Identifier.{Denotes}
use terraform_provider_scyll.Base.Exec.Inversion.{>>-eq-ok}
use terraform_provider_scyll.Scylladb.Authoritative.Steps.{IsRole, create_grant-ok}

module _ (S : Session) (D : IsDatabase S) (id : ParsedIdentifier) (res : Resource)
    (den : Denotes id res) (named : IsNamed res) ⦃u : Unicode⦄ where
  step-ok :
      (r p : String)
      → IsRole r
      → IsStored p
      → (there : Bool) (s : S.State)
      → ((if there then pure tt else create_grant S (grant_on id r p)) s).0 ≡ ok tt
      → (r' path p' : String)
      → D.granted ((if there then pure tt else create_grant S (grant_on id r p)) s).1 r' path p' ≡ (
          if r' == r && path == resource_path res && p' == p && not there
          then true
          else D.granted s r' path p')
  step-ok r p hr hp true s h r' path p' = ground arith
  step-ok r p hr hp false s h r' path p' =
      ground (arith, create_grant-ok S D id res den named r p hr hp s r' path p' h)

  -- Behind the loop for a role, it has those of the privileges that were missing.
  grant_privileges-ok :
      (r : String) (current : Dict Bool) (ps : List String) (s : S.State)
      → ((p : String) → contains ps p ≡ true → IsRole r × IsStored p)
      → (grant_privileges S id r current ps s).0 ≡ ok tt
      → (r' path p' : String)
      → D.granted (grant_privileges S id r current ps s).1 r' path p' ≡ (
          if r' == r && path == resource_path res && contains ps p' && not (has current p')
          then true
          else D.granted s r' path p')
  unfolding grant_privileges
  grant_privileges-ok r current [] s hs h r' path p' = ground arith
  grant_privileges-ok r current (p ∷ ps) s hs h r' path p' =
      let here = hs p (ground arith) in
      let there = has current p in
      let m = if there then pure tt else create_grant S (grant_on id r p) in
      let (first, rest, end) = >>-eq-ok m (grant_privileges S id r current ps) s h in
      rw end (
        ground (
          arith,
          step-ok r p here.0 here.1 there s first r' path p',
          grant_privileges-ok r current ps (m s).1 (λ x hx. hs x (ground arith)) rest r' path p',
        ))

  pub grant_roles-ok :
      (visit : String → List String → List String)
      → ((r : String) (ks : List String) (p : String) → contains (visit r ks) p ≡ contains ks p)
      → (current desired : Dict (Dict Bool)) (rs : List String) (s : S.State)
      → ((r p : String)
          → contains (Dict.keys (Dict.get_or r desired [])) p ≡ true
          → IsRole r × IsStored p)
      → (grant_roles S id visit current desired rs s).0 ≡ ok tt
      → (r path p : String)
      → D.granted (grant_roles S id visit current desired rs s).1 r path p ≡ (
          if contains rs r
            && path == resource_path res
            && contains (Dict.keys (Dict.get_or r desired [])) p
            && not (has (Dict.get_or r current []) p)
          then true
          else D.granted s r path p)
  unfolding grant_roles
  grant_roles-ok visit hv current desired [] s hs h r path p = ground arith
  grant_roles-ok visit hv current desired (q ∷ rs) s hs h r path p =
      let ps = visit q (Dict.keys (Dict.get_or q desired [])) in
      let m = grant_privileges S id q (Dict.get_or q current []) ps in
      let (first, rest, end) = >>-eq-ok m (grant_roles S id visit current desired rs) s h in
      rw end (
        ground (
          arith,
          hv q (Dict.keys (Dict.get_or q desired [])) p,
          grant_privileges-ok q (Dict.get_or q current []) ps s
              (λ x hx. hs q x (sym (hv q _ x) ∙ hx)) first r path p,
          grant_roles-ok visit hv current desired rs (m s).1 hs rest r path p,
        ))
