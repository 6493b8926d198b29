-- ===== src/Provider/Lifecycle/Managed.antt =====
-- A resource whose handlers are exact stays managed through its whole life.
use terraform_provider_scyll.Base.{◌≡◌, ◌∙◌, refl, sym, subst, none, some, List, arith}
use terraform_provider_scyll.Go.Strings.{Unicode}
use terraform_provider_scyll.Scylladb.Session.{Session}
use terraform_provider_scyll.Scylladb.Database.{IsDatabase}
use terraform_provider_scyll.Scylladb.Authoritative.{AuthoritativeBinding}
use terraform_provider_scyll.Scylladb.Authoritative.Roles.{requested-IsRole}
use terraform_provider_scyll.Provider.Framework.{done}
use terraform_provider_scyll.Provider.Framework.Laws.{done-injective}
use terraform_provider_scyll.Provider.Domains.{GrantModel}
use terraform_provider_scyll.Provider.Lifecycle.{
  World, GrantsResource, IsPlanned, Step, creates, updates, refreshes, deletes, Lifecycle, here,
  next, IsExact, IsManaged, IsWritable, stored,
}

module _ ⦃u : Unicode⦄ (S : Session) (D : IsDatabase S) (R : GrantsResource S.State)
    (exact : IsExact S D R) (start : S.State) where
  applied-IsManaged :
      (w : World R.Model S.State) (grants : List GrantModel) (bs : List AuthoritativeBinding)
      (pl : IsPlanned S.State R grants bs) (st : R.Model)
      → IsManaged S D R start w
      → (R.create (R.plan pl.id grants) w.database).0 ≡ done st
      → IsManaged S D R start
          (record { managed = some st; database = (R.create (R.plan pl.id grants) w.database).1 })
  applied-IsManaged w grants bs pl st before h =
      let (state, effect) =
        exact.create-exact pl.id grants bs w.database pl.admitted pl.converts pl.roles
          before.writable in
      let as_planned = done-injective _ st (sym state ∙ h) in
      record {
        in_step = λ m e. (grants, bs, cc, pl.converts, λ r p. ground (arith, effect r R.path p));
        elsewhere = λ r path p ne. ground (arith, effect r path p, before.elsewhere r path p ne);
        writable = λ r p held. requested-IsRole bs r p pl.roles (ground (arith, effect r R.path p));
      }

  deleted-IsManaged :
      (w : World R.Model S.State) (grants : List GrantModel)
      → IsManaged S D R start w
      → IsManaged S D R start
          (record { managed = none; database = (R.delete (stored S D R grants) w.database).1 })
  deleted-IsManaged w grants before =
      let effect = exact.delete-exact grants w.database before.writable in
      record {
        in_step = λ m e. cc;
        elsewhere = λ r path p ne. ground (arith, effect r path p, before.elsewhere r path p ne);
        writable = λ r p held. ground (arith, effect r R.path p);
      }

  refreshed-IsManaged :
      (w : World R.Model S.State) (grants : List GrantModel) (st : R.Model)
      → IsManaged S D R start w
      → (R.read (stored S D R grants) w.database).0 ≡ done st
      → IsManaged S D R start
          (record { managed = some st; database = (R.read (stored S D R grants) w.database).1 })
  refreshed-IsManaged w grants st before h =
      let (found, bs, form, converts, seen, kept) = exact.read-exact grants w.database st h in
      subst (λ d. IsManaged S D R start (record { managed = some st; database = d })) (sym kept)
        (record {
          in_step = λ m e. let same : m ≡ st = cc in (found, bs, same ∙ form, converts, seen);
          elsewhere = before.elsewhere;
          writable = before.writable;
        })

  Step-IsManaged :
      (w v : World R.Model S.State)
      → IsManaged S D R start w
      → Step S.State R w v
      → IsManaged S D R start v
  Step-IsManaged w v before (creates grants bs pl st _ h) =
      applied-IsManaged w grants bs pl st before h
  Step-IsManaged w v before (updates grants bs pl _ st _ h) =
      let same = exact.update-create (R.plan pl.id grants) w.database in
      subst
        (λ o. o.0 ≡ done st → IsManaged S D R start (record { managed = some st; database = o.1 }))
        (sym same) (applied-IsManaged w grants bs pl st before) h
  Step-IsManaged w v before (refreshes m st e h) =
      let (grants, bs, form, converts, seen) = before.in_step m e in
      subst
        (λ x.
          (R.read x w.database).0 ≡ done st
          → IsManaged S D R start
              (record { managed = some st; database = (R.read x w.database).1 }))
        (sym form) (refreshed-IsManaged w grants st before) h
  Step-IsManaged w v before (deletes m e h) =
      let (grants, bs, form, converts, seen) = before.in_step m e in
      subst
        (λ x.
          IsManaged S D R start (record { managed = none; database = (R.delete x w.database).1 }))
        (sym form) (deleted-IsManaged w grants before)

  -- From a start at which the resource is not managed, every life ends managed.
  pub life-IsManaged :
      (w : World R.Model S.State)
      → IsWritable S D R start
      → Lifecycle S.State R (record { managed = none; database = start }) w
      → IsManaged S D R start w
  life-IsManaged w writable here = record {
    in_step = λ m e. cc;
    elsewhere = λ r path p ne. refl;
    writable = writable;
  }
  life-IsManaged w writable (next {v = v} steps step) =
      Step-IsManaged v w (life-IsManaged v writable steps) step
