-- ===== src/Provider/GrantResource/Life.antt =====
-- The life of one grant resource: the calls that Terraform makes of its handlers, in any order that the
-- state allows. Its `Read` leaves the state and the database as they are.
pub mod Sole
use terraform_provider_scyll.Base.{
  String, ◌≡◌, ◌∙◌, refl, sym, ap, subst, Bool, true, false, ◌⊎◌, inl, inr, Option, none, some,
  ◌==◌, Bool-cases, if◌then◌else◌, arith,
}
use terraform_provider_scyll.Base.Exec.{ok}
use terraform_provider_scyll.Go.Strings.{Unicode}
use terraform_provider_scyll.Cql.{resource_path}
use terraform_provider_scyll.Scylladb.Cluster.{Cluster}
use terraform_provider_scyll.Scylladb.Session.{Session}
use terraform_provider_scyll.Scylladb.Database.{IsDatabase}
use terraform_provider_scyll.Scylladb.Grant.{create_grant, update_grant}
use terraform_provider_scyll.Provider.Framework.{done, with_summary, elements_as}
use terraform_provider_scyll.Provider.Framework.Laws.{follow-done}
use terraform_provider_scyll.Provider.GrantResource.{
  GrantResourceModel, grant_of, complete, create, update, delete,
}
use terraform_provider_scyll.Provider.GrantResource.Drift.{completed}
use terraform_provider_scyll.Provider.GrantResource.Effect.{create-granted, delete-revoked}
use terraform_provider_scyll.Provider.GrantResource.Moved.{Single, is_of, StandsFor, update-moved}
use terraform_provider_scyll.Provider.Lifecycle.{World}

-- `Allowed` is what is known of the grants that are planned.
module _ (S : Session) ⦃u : Unicode⦄ (c : Cluster) (Allowed : Single → Type 0) where
  -- A call of a handler that ends without an error
  pub data GrantStep (w : World GrantResourceModel S.State)
      : World GrantResourceModel S.State → Type 0 where
    creates :
        (g : Single) (plan st : GrantResourceModel)
        → Allowed g
        → StandsFor plan g
        → w.managed ≡ none
        → (create S c (done plan) w.database).0 ≡ done st
        → GrantStep w
            (record { managed = some st; database = (create S c (done plan) w.database).1 })
    updates :
        (g : Single) (plan before st : GrantResourceModel)
        → Allowed g
        → StandsFor plan g
        → w.managed ≡ some before
        → (update S c (done before) (done plan) w.database).0 ≡ done st
        → GrantStep w (record {
          managed = some st;
          database = (update S c (done before) (done plan) w.database).1;
        })
    deletes :
        (before : GrantResourceModel)
        → w.managed ≡ some before
        → (delete S (done before) w.database).0 ≡ done tt
        → GrantStep w (record { managed = none; database = (delete S (done before) w.database).1 })

  pub data GrantLife (w : World GrantResourceModel S.State)
      : World GrantResourceModel S.State → Type 0 where
    here : GrantLife w w
    next : {v x : World GrantResourceModel S.State} → GrantLife w v → GrantStep v x → GrantLife w x

-- The state stands for a grant that was planned, or there is neither.
pub data Matches (Allowed : Single → Type 0)
    : Option GrantResourceModel → Option Single → Type 0 where
  neither : Matches Allowed none none
  both :
      (m : GrantResourceModel) (g : Single)
      → Allowed g
      → StandsFor m g
      → Matches Allowed (some m) (some g)

abbrev pub is_current : Option Single → String → String → String → Bool
is_current none r path p = false
is_current (some g) r path p = is_of g r path p

module _ (S : Session) (D : IsDatabase S) (Allowed : Single → Type 0) where
  pub record IsSole (start : S.State) (w : World GrantResourceModel S.State) : Type 0 where
    pub current : Option Single
    pub matches : Matches Allowed w.managed current
    -- The database holds the grant of the state.
    pub held :
        (r path p : String)
        → is_current current r path p ≡ true
        → D.granted w.database r path p ≡ true
    -- What else it holds it held at the start.
    pub nothing_else :
        (r path p : String)
        → D.granted w.database r path p ≡ true
        → is_current current r path p ≡ false
        → D.granted start r path p ≡ true
    -- A permission that no plan names is as it was.
    pub elsewhere :
        (r path p : String)
        → ((g : Single) → Allowed g → is_of g r path p ≡ false)
        → D.granted w.database r path p ≡ D.granted start r path p
