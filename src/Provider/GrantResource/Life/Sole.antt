-- ===== src/Provider/GrantResource/Life/Sole.antt =====
-- The database holds the grant of the recorded state, and no other that one grant resource has left.
use terraform_provider_scyll.Base.{◌≡◌, ◌∙◌, refl, ap, subst, Option, none, some, arith}
use terraform_provider_scyll.Go.Strings.{Unicode}
use terraform_provider_scyll.Scylladb.Cluster.{Cluster}
use terraform_provider_scyll.Scylladb.Session.{Session}
use terraform_provider_scyll.Scylladb.Database.{IsDatabase}
use terraform_provider_scyll.Scylladb.Grant.{create_grant, update_grant}
use terraform_provider_scyll.Provider.Framework.{done, with_summary, elements_as}
use terraform_provider_scyll.Provider.Framework.Laws.{follow-done}
use terraform_provider_scyll.Provider.GrantResource.{
  GrantResourceModel, grant_of, complete, create, update,
}
use terraform_provider_scyll.Provider.GrantResource.Drift.{completed}
use terraform_provider_scyll.Provider.GrantResource.Effect.{create-granted, delete-revoked}
use terraform_provider_scyll.Provider.GrantResource.Moved.{Single, StandsFor, update-moved}
use terraform_provider_scyll.Provider.Lifecycle.{World}
use terraform_provider_scyll.Provider.GrantResource.Life.{
  GrantStep, creates, updates, deletes, GrantLife, here, next, Matches, neither, both, is_current,
  IsSole,
}

some-injective : {A : Type 0} (a b : A) → some a ≡ some b → a ≡ b
some-injective a b h = cc

module _ (Allowed : Single → Type 0) where
  Matches-some :
      {o : Option GrantResourceModel} {now : Option Single} (m : GrantResourceModel)
      → Matches Allowed o now
      → o ≡ some m
      → (g : Single) × (now ≡ some g) × Allowed g × StandsFor m g
  Matches-some m neither e = cc
  Matches-some m (both n g allowed stands) e =
      (g, refl, allowed, subst (λ x. StandsFor x g) (some-injective n m e) stands)

  Matches-none :
      {o : Option GrantResourceModel} {now : Option Single}
      → Matches Allowed o now
      → o ≡ none
      → now ≡ none
  Matches-none neither e = refl
  Matches-none (both n g allowed stands) e = cc

module _ (S : Session) ⦃u : Unicode⦄ (c : Cluster) where
  completed_stands :
      (plan st : GrantResourceModel) (s : S.State)
      → (complete S c plan (grant_of plan) s).0 ≡ done st
      → grant_of st ≡ grant_of plan
  unfolding grant_of
  completed_stands plan st s h = let (_, _, form, _) = completed S c plan st s h in ap grant_of form

  create_stands :
      (plan st : GrantResourceModel) (s : S.State)
      → (create S c (done plan) s).0 ≡ done st
      → grant_of st ≡ grant_of plan
  unfolding create
  create_stands plan st s h =
      let run = create_grant S (grant_of plan) s in
      let (_, _, rest, _) = follow-done (with_summary "Error Creating Grant" run.0) _ run.1 st h in
      completed_stands plan st run.1 rest

  update_stands :
      (old plan st : GrantResourceModel) (s : S.State)
      → (update S c (done old) (done plan) s).0 ≡ done st
      → grant_of st ≡ grant_of plan
  unfolding update
  update_stands old plan st s h =
      let run = update_grant S (grant_of old) (grant_of plan) s in
      let (_, _, behind, _) = follow-done (elements_as old.permissions) _ s st h in
      let (_, _, rest, _) =
        follow-done (with_summary "Error Updating Grant" run.0) _ run.1 st behind in
      completed_stands plan st run.1 rest

module _ (S : Session) (D : IsDatabase S) ⦃u : Unicode⦄ (c : Cluster) (Allowed : Single → Type 0)
    (start : S.State) where
  GrantStep-IsSole :
      (w v : World GrantResourceModel S.State)
      → IsSole S D Allowed start w
      → GrantStep S c Allowed w v
      → IsSole S D Allowed start v
  GrantStep-IsSole w v before (creates g plan st allowed stands e h) =
      let effect =
        create-granted S D g.res g.named g.role g.privilege g.plain g.stored plan stands w.database
          c st h in
      let now = Matches-none Allowed before.matches e in
      record {
        current = some g;
        matches = both st g allowed (create_stands S c plan st w.database h ∙ stands);
        held = λ r path p is. ground (arith, effect r path p);
        nothing_else = λ r path p granted other.
            before.nothing_else r path p (ground (arith, effect r path p))
              (ap (λ o. is_current o r path p) now);
        elsewhere = λ r path p never.
            ground (arith, effect r path p, never g allowed, before.elsewhere r path p never);
      }
  GrantStep-IsSole w v before (updates g plan old st allowed stands e h) =
      let (from, now, was_allowed, stood) = Matches-some Allowed old before.matches e in
      let effect = update-moved S D from g c old plan stood stands w.database st h in
      record {
        current = some g;
        matches = both st g allowed (update_stands S c old plan st w.database h ∙ stands);
        held = λ r path p is. ground (arith, effect r path p);
        nothing_else = λ r path p granted other.
            before.nothing_else r path p (ground (arith, effect r path p))
              (ap (λ o. is_current o r path p) now ∙ ground (arith, effect r path p));
        elsewhere = λ r path p never. ground (
          arith,
          effect r path p,
          never g allowed,
          never from was_allowed,
          before.elsewhere r path p never,
        );
      }
  GrantStep-IsSole w v before (deletes old e h) =
      let (from, now, was_allowed, stood) = Matches-some Allowed old before.matches e in
      let effect =
        delete-revoked S D from.res from.named from.role from.privilege from.plain from.stored old
          stood w.database h in
      record {
        current = none;
        matches = neither;
        held = λ r path p is. cc;
        nothing_else = λ r path p granted other.
            before.nothing_else r path p (ground (arith, effect r path p))
              (ap (λ o. is_current o r path p) now ∙ ground (arith, effect r path p));
        elsewhere = λ r path p never.
            ground
              (arith, effect r path p, never from was_allowed, before.elsewhere r path p never);
      }

  -- Behind any sequence of `Create`, `Update` and `Delete` of a grant resource, each of which ends
  -- without an error, the recorded state, if there is one, stands for a grant that was planned, and
  -- the database holds it; every other permission that the database holds it held at the start, so
  -- no grant of an earlier plan is left; and a permission that no plan names is as it was at the
  -- start. Each privilege that is planned is one word in upper case, as the database stores them,
  -- each plan names a resource and a role, no name has a quotation mark, and those of the resources
  -- are not empty.
  pub GrantLife-IsSole :
      (w : World GrantResourceModel S.State)
      → GrantLife S c Allowed (record { managed = none; database = start }) w
      → IsSole S D Allowed start w
  GrantLife-IsSole w here = record {
    current = none;
    matches = neither;
    held = λ r path p is. cc;
    nothing_else = λ r path p granted other. granted;
    elsewhere = λ r path p never. refl;
  }
  GrantLife-IsSole w (next {v = v} steps step) =
      GrantStep-IsSole v w (GrantLife-IsSole v steps) step
