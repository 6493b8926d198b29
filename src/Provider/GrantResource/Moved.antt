-- ===== src/Provider/GrantResource/Moved.antt =====
-- What `Update` of a grant of one privilege leaves in the database, whether it ends well or not.
use terraform_provider_scyll.Base.{
  String, ◌≡◌, ◌∙◌, refl, sym, ap, subst, Bool, true, false, ◌==◌, ◌&&◌, if◌then◌else◌,
}
use terraform_provider_scyll.Base.Exec.{ok, Exec, Keeps, Keeps-bind}
use terraform_provider_scyll.Base.Exec.Inversion.{>>-eq-ok}
use terraform_provider_scyll.Go.Strings.{Unicode}
use terraform_provider_scyll.Cql.{grant, revoke, Resource, resource_path}
use terraform_provider_scyll.Scylladb.Cluster.{Cluster}
use terraform_provider_scyll.Scylladb.Session.{Session}
use terraform_provider_scyll.Scylladb.Grant.{create_grant, delete_grant, update_grant}
use terraform_provider_scyll.Scylladb.Grant.Render.{IsNamed, grant_for, parse-query}
use terraform_provider_scyll.Scylladb.Database.{IsDatabase, IsStored}
use terraform_provider_scyll.Scylladb.Authoritative.Steps.{IsRole}
use terraform_provider_scyll.Provider.Framework.{done, with_summary, elements_as}
use terraform_provider_scyll.Provider.Framework.Laws.{follow-done, follow_keeps, with_summary-done}
use terraform_provider_scyll.Provider.GrantResource.{GrantResourceModel, grant_of, complete, update}
use terraform_provider_scyll.Provider.GrantResource.Drift.{completed, complete-state}

-- One privilege of a role on a resource, as a grant of the provider names it
pub record Single : Type 0 where
  pub res : Resource
  pub role : String
  pub privilege : String
  pub named : IsNamed res
  pub plain : IsRole role
  pub stored : IsStored privilege

-- The permission is the one that is granted.
abbrev pub is_of : Single → String → String → String → Bool
is_of g r path p = r == g.role && path == resource_path g.res && p == g.privilege

-- The plan or the state stands for it.
abbrev pub StandsFor : GrantResourceModel → Single → Type 0
StandsFor m g = grant_of m ≡ grant_for g.privilege g.res g.role

module _ (S : Session) (D : IsDatabase S) (from to : Single) where
  abbrev revoking : Exec S.State (Unit {0})
  revoking = delete_grant S (grant_for from.privilege from.res from.role)

  abbrev granting : Exec S.State (Unit {0})
  granting = create_grant S (grant_for to.privilege to.res to.role)

  revoking-Keeps :
      (r path p : String) (b : Bool)
      → is_of from r path p ≡ false
      → Keeps (λ s. D.granted s r path p ≡ b) revoking
  unfolding delete_grant
  revoking-Keeps r path p b other = record {
    at = λ s h.
        D.exec-frame _ _ s
          (parse-query from.privilege from.res from.role from.stored.0 from.named from.plain revoke)
          from.stored r path p other
        ∙ h;
  }

  granting-Keeps :
      (r path p : String) (b : Bool)
      → is_of to r path p ≡ false
      → Keeps (λ s. D.granted s r path p ≡ b) granting
  unfolding create_grant
  granting-Keeps r path p b other = record {
    at = λ s h.
        D.exec-frame _ _ s
          (parse-query to.privilege to.res to.role to.stored.0 to.named to.plain grant) to.stored r
          path p other
        ∙ h;
  }

  -- `UpdateGrant`, whether it succeeds or not
  update_grant-Keeps :
      (r path p : String) (b : Bool)
      → is_of from r path p ≡ false
      → is_of to r path p ≡ false
      → Keeps
          (λ s. D.granted s r path p ≡ b)
          (update_grant S
            (grant_for from.privilege from.res from.role)
            (grant_for to.privilege to.res to.role))
  unfolding update_grant
  update_grant-Keeps r path p b other_from other_to =
      Keeps-bind revoking (λ _. granting) (revoking-Keeps r path p b other_from)
        (λ _. granting-Keeps r path p b other_to)

  -- `UpdateGrant` that succeeds
  update_grant-moved :
      (s : S.State)
      → (update_grant S
          (grant_for from.privilege from.res from.role)
          (grant_for to.privilege to.res to.role)
          s).0
        ≡ ok tt
      → (r path p : String)
      → D.granted
          (update_grant S
            (grant_for from.privilege from.res from.role)
            (grant_for to.privilege to.res to.role)
            s).1
          r
          path
          p
        ≡ (if is_of to r path p
            then true
            else if is_of from r path p
            then false
            else D.granted s r path p)
  unfolding update_grant delete_grant create_grant
  update_grant-moved s h r path p =
      let (revoked, granted, end) = >>-eq-ok revoking granting s h in
      let behind =
        D.exec-ok _ _ s
          (parse-query from.privilege from.res from.role from.stored.0 from.named from.plain revoke)
          from.stored revoked r path p in
      ap (λ t. D.granted t r path p) end
      ∙ D.exec-ok _ _ _
          (parse-query to.privilege to.res to.role to.stored.0 to.named to.plain grant) to.stored
          granted r path p
      ∙ ap (λ x. if is_of to r path p then true else x) behind

  module _ ⦃u : Unicode⦄ (c : Cluster) (state plan : GrantResourceModel)
      (stands_from : StandsFor state from) (stands_to : StandsFor plan to) (s : S.State) where
    abbrev pub updated : S.State
    updated = (update S c (done state) (done plan) s).1

    -- If `Update` ends without an error, the role of the plan has its privilege on its resource,
    -- the role of the state has its privilege on its resource no more, unless the plan asks for
    -- just that one, and no other permission has changed. The two privileges are one word in upper
    -- case, as the database stores them, the plan and the state name a resource and a role, no name
    -- has a quotation mark, and those of the resources are not empty.
    pub update-moved :
        (st : GrantResourceModel)
        → (update S c (done state) (done plan) s).0 ≡ done st
        → (r path p : String)
        → D.granted updated r path p ≡ (
            if is_of to r path p
            then true
            else if is_of from r path p
            then false
            else D.granted s r path p)
    unfolding update
    update-moved st h r path p =
        let run = update_grant S (grant_of state) (grant_of plan) s in
        let expected =
          if is_of to r path p
          then true
          else if is_of from r path p
          then false
          else D.granted s r path p in
        let (_, _, behind, whole) = follow-done (elements_as state.permissions) _ s st h in
        let (_, ran, rest, end) =
          follow-done (with_summary "Error Updating Grant" run.0) _ run.1 st behind in
        let (_, _, _, still) = completed S c plan st run.1 rest in
        let moved : run.0 ≡ ok tt → D.granted run.1 r path p ≡ expected =
          subst
            (λ g.
              (update_grant S g (grant_of plan) s).0 ≡ ok tt
              → D.granted (update_grant S g (grant_of plan) s).1 r path p ≡ expected)
            (sym stands_from)
            (subst
              (λ g.
                (update_grant S (grant_for from.privilege from.res from.role) g s).0 ≡ ok tt
                → D.granted (update_grant S (grant_for from.privilege from.res from.role) g s).1 r
                    path p
                  ≡ expected)
              (sym stands_to) (λ e. update_grant-moved s e r path p)) in
        ap (λ t. D.granted t r path p) (ap (λ o. o.1) (whole ∙ end) ∙ still)
        ∙ moved (with_summary-done "Error Updating Grant" run.0 tt ran)

    -- Whether `Update` ends with an error or not, and wherever it stops, each permission is as it
    -- was that is neither the one of the state nor the one of the plan. The two privileges are one
    -- word in upper case, as the database stores them, the plan and the state name a resource and a
    -- role, no name has a quotation mark, and those of the resources are not empty.
    pub update-elsewhere :
        (r path p : String)
        → is_of from r path p ≡ false
        → is_of to r path p ≡ false
        → D.granted updated r path p ≡ D.granted s r path p
    unfolding update
    update-elsewhere r path p other_from other_to =
        let run = update_grant S (grant_of state) (grant_of plan) s in
        let before = D.granted s r path p in
        let kept : D.granted run.1 r path p ≡ before =
          subst (λ g. D.granted (update_grant S g (grant_of plan) s).1 r path p ≡ before)
            (sym stands_from)
            (subst
              (λ g.
                D.granted (update_grant S (grant_for from.privilege from.res from.role) g s).1 r
                  path p
                ≡ before)
              (sym stands_to)
              ((update_grant-Keeps r path p before other_from other_to).at s refl)) in
        follow_keeps (λ t. D.granted t r path p ≡ before) (elements_as state.permissions) _ s refl
          (λ ps.
            follow_keeps (λ t. D.granted t r path p ≡ before)
              (with_summary "Error Updating Grant" run.0) (λ _. complete S c plan (grant_of plan))
              run.1 kept (λ _. rw (complete-state S c plan (grant_of plan) run.1) kept))
