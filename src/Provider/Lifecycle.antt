-- ===== src/Provider/Lifecycle.antt =====
-- The life of one resource that manages all grants on a keyspace or a table: the calls that
-- Terraform makes of its handlers, in any order that the recorded state allows. `GrantsResource` is
-- what the resources of internal/provider/scylla_resource_table_grants.go and
-- scylla_resource_keyspace_grants.go have in common; the modules below them fill it.
pub mod Managed
use terraform_provider_scyll.Base.{
  String, ◌≡◌, true, false, Option, none, some, List, ◌==◌, All, if◌then◌else◌,
}
use terraform_provider_scyll.Go.Strings.{Unicode}
use terraform_provider_scyll.Scylladb.Session.{Session}
use terraform_provider_scyll.Scylladb.Database.{IsDatabase}
use terraform_provider_scyll.Scylladb.Authoritative.{AuthoritativeBinding}
use terraform_provider_scyll.Scylladb.Authoritative.Requested.{requested}
use terraform_provider_scyll.Scylladb.Authoritative.Steps.{IsRole}
use terraform_provider_scyll.Provider.Framework.{Value, known, Handler, done}
use terraform_provider_scyll.Provider.Domains.{GrantModel, bindings_from_grants}

-- What Terraform has recorded of the resource, and the database
pub record World (Model T : Type 0) : Type 0 where
  pub managed : Option Model
  pub database : T

-- A resource on one keyspace or table. The handlers take a plan or a state that is decoded.
pub record GrantsResource (T : Type 0) : Type 1 where
  pub Model : Type 0
  -- a plan or a state, from its identifier and its grants
  pub plan : Value String → List GrantModel → Model
  -- what the schema says of it
  pub IsAdmitted : Value String → List GrantModel → Type 0
  pub identifier : String
  -- the name under which the database stores permissions on it
  pub path : String
  pub create : Model → Handler T Model
  pub read : Model → Handler T Model
  pub update : Model → Handler T Model
  pub delete : Model → Handler T (Unit {0})

module _ (T : Type 0) (R : GrantsResource T) where
  -- A plan that the framework passes on
  pub record IsPlanned (grants : List GrantModel) (bs : List AuthoritativeBinding) : Type 0 where
    pub id : Value String
    pub admitted : R.IsAdmitted id grants
    pub converts : bindings_from_grants grants ≡ done bs
    pub roles : All (λ b. IsRole b.role) bs

  -- A call of a handler that ends without an error
  pub data Step (w : World R.Model T) : World R.Model T → Type 0 where
    creates :
        (grants : List GrantModel) (bs : List AuthoritativeBinding) (pl : IsPlanned grants bs)
        (st : R.Model)
        → w.managed ≡ none
        → (R.create (R.plan pl.id grants) w.database).0 ≡ done st
        → Step w
            (record { managed = some st; database = (R.create (R.plan pl.id grants) w.database).1 })
    updates :
        (grants : List GrantModel) (bs : List AuthoritativeBinding) (pl : IsPlanned grants bs)
        (before st : R.Model)
        → w.managed ≡ some before
        → (R.update (R.plan pl.id grants) w.database).0 ≡ done st
        → Step w
            (record { managed = some st; database = (R.update (R.plan pl.id grants) w.database).1 })
    refreshes :
        (before st : R.Model)
        → w.managed ≡ some before
        → (R.read before w.database).0 ≡ done st
        → Step w (record { managed = some st; database = (R.read before w.database).1 })
    deletes :
        (before : R.Model)
        → w.managed ≡ some before
        → (R.delete before w.database).0 ≡ done tt
        → Step w (record { managed = none; database = (R.delete before w.database).1 })

  pub data Lifecycle (w : World R.Model T) : World R.Model T → Type 0 where
    here : Lifecycle w w
    next : {v x : World R.Model T} → Lifecycle w v → Step v x → Lifecycle w x

module _ (S : Session) (D : IsDatabase S) (R : GrantsResource S.State) where
  -- The database holds no permission on the resource for a role whose name has a quotation mark.
  abbrev pub IsWritable : S.State → Type 0
  IsWritable s = (r p : String) → D.granted s r R.path p ≡ true → IsRole r

  abbrev pub stored : List GrantModel → R.Model
  stored grants = R.plan (known R.identifier) grants

module _ ⦃u : Unicode⦄ (S : Session) (D : IsDatabase S) (R : GrantsResource S.State) where
  -- What the handlers have been shown to do
  pub record IsExact : Type 0 where
    pub create-exact :
        (id : Value String) (grants : List GrantModel) (bs : List AuthoritativeBinding)
        (s : S.State)
        → R.IsAdmitted id grants
        → bindings_from_grants grants ≡ done bs
        → All (λ b. IsRole b.role) bs
        → IsWritable S D R s
        → ((R.create (R.plan id grants) s).0 ≡ done (stored S D R grants))
          × ((r path p : String)
              → D.granted (R.create (R.plan id grants) s).1 r path p
                ≡ (if path == R.path then requested bs r p else D.granted s r path p))
    pub update-create : (m : R.Model) (s : S.State) → R.update m s ≡ R.create m s
    pub read-exact :
        (grants : List GrantModel) (s : S.State) (st : R.Model)
        → (R.read (stored S D R grants) s).0 ≡ done st
        → (found : List GrantModel) × (bs : List AuthoritativeBinding) × (st ≡ stored S D R found)
          × (bindings_from_grants found ≡ done bs)
          × ((r p : String) → requested bs r p ≡ D.granted s r R.path p)
          × ((R.read (stored S D R grants) s).1 ≡ s)
    pub delete-exact :
        (grants : List GrantModel) (s : S.State)
        → IsWritable S D R s
        → (r path p : String)
        → D.granted (R.delete (stored S D R grants) s).1 r path p
          ≡ (if path == R.path then false else D.granted s r path p)

  -- The state asks for exactly what the database holds on the resource.
  abbrev pub IsInStep : R.Model → S.State → Type 0
  IsInStep m s =
      (grants : List GrantModel) × (bs : List AuthoritativeBinding) × (m ≡ stored S D R grants)
      × (bindings_from_grants grants ≡ done bs)
      × ((r p : String) → requested bs r p ≡ D.granted s r R.path p)

  pub record IsManaged (start : S.State) (w : World R.Model S.State) : Type 0 where
    pub in_step : (m : R.Model) → w.managed ≡ some m → IsInStep m w.database
    pub elsewhere :
        (r path p : String)
        → (path == R.path) ≡ false
        → D.granted w.database r path p ≡ D.granted start r path p
    pub writable : IsWritable S D R w.database
