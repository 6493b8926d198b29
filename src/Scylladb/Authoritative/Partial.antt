-- ===== src/Scylladb/Authoritative/Partial.antt =====
-- `ApplyAuthoritativeGrant` on every path, those that stop at an error included.
use terraform_provider_scyll.Base.{
  String, ◌≡◌, refl, Bool, true, false, List, [], ◌∷◌, contains, arith, if◌then◌else◌,
}
use terraform_provider_scyll.Base.Dict
use terraform_provider_scyll.Base.Dict.{Dict}
use terraform_provider_scyll.Base.Exec.{Result, ok, err, pure, Exec, continue, Keeps, Keeps-bind}
use terraform_provider_scyll.Go.Strings.{Unicode, to_upper}
use terraform_provider_scyll.Cql.{Resource, resource_path}
use terraform_provider_scyll.Scylladb.Session.{Session}
use terraform_provider_scyll.Scylladb.Grant.{create_grant, delete_grant}
use terraform_provider_scyll.Scylladb.Grant.Render.{IsNamed}
use terraform_provider_scyll.Scylladb.Database.{IsDatabase, IsStored}
use terraform_provider_scyll.Scylladb.Authoritative.{
  ParsedIdentifier, grant_on, has, revoke_privileges, revoke_roles, grant_privileges, grant_roles,
}
use terraform_provider_scyll.Scylladb.Authoritative.Identifier.{Denotes}
use terraform_provider_scyll.Scylladb.Authoritative.Steps.{
  IsRole, delete_grant-frame, create_grant-frame,
}

pub continue_lem :
    {A B T : Type 0} (P : T → Type 0) (r : Result A) (f : A → Exec T B) (t : T)
    → P t
    → ((a : A) → r ≡ ok a → P (f a t).1)
    → P (continue r f t).1
continue_lem P (ok a) f t h k = k a refl
continue_lem P (err e) f t h k = h

module _ (S : Session) (D : IsDatabase S) (id : ParsedIdentifier) (res : Resource)
    (den : Denotes id res) (named : IsNamed res) (s : S.State)
    (goal : String → String → String → Bool) where
  -- A permission that is in `s` as it has to be in the end is also so in the state.
  abbrev pub Settled : S.State → Type 0
  Settled t =
      (r path p : String)
      → D.granted s r path p ≡ goal r path p
      → D.granted t r path p ≡ D.granted s r path p

  delete_grant-Settled :
      (q x : String)
      → IsRole q
      → IsStored x
      → D.granted s q (resource_path res) x ≡ true
      → goal q (resource_path res) x ≡ false
      → Keeps Settled (delete_grant S (grant_on id q x))
  delete_grant-Settled q x hq hx there unwanted = record {
    at = λ t h r path p e.
        ground (arith, delete_grant-frame S D id res den named q x hq hx t r path p, h r path p e);
  }

  create_grant-Settled :
      (q x : String)
      → IsRole q
      → IsStored x
      → D.granted s q (resource_path res) x ≡ false
      → goal q (resource_path res) x ≡ true
      → Keeps Settled (create_grant S (grant_on id q x))
  create_grant-Settled q x hq hx missing wanted = record {
    at = λ t h r path p e.
        ground (arith, create_grant-frame S D id res den named q x hq hx t r path p, h r path p e);
  }

  module _ ⦃u : Unicode⦄ where
    -- What the loops know of a permission that they revoke, and of one that they grant.
    abbrev pub Revocable : String → Dict Bool → String → Type 0
    Revocable r wanted p =
        IsRole r
        × IsStored p
        × (D.granted s r (resource_path res) p ≡ true)
        × (has wanted (to_upper p) ≡ false → goal r (resource_path res) p ≡ false)

    abbrev pub Grantable : String → Dict Bool → String → Type 0
    Grantable r current p =
        IsRole r
        × IsStored p
        × (goal r (resource_path res) p ≡ true)
        × (has current p ≡ false → D.granted s r (resource_path res) p ≡ false)

    keep-Settled :
        (b : Bool) (m : Exec S.State (Unit {0}))
        → (b ≡ false → Keeps Settled m)
        → Keeps Settled (if b then pure tt else m)
    keep-Settled true m h = record { at = λ t k. k }
    keep-Settled false m h = h refl

    revoke_privileges-Settled :
        (r : String) (wanted : Dict Bool) (ps : List String)
        → ((p : String) → contains ps p ≡ true → Revocable r wanted p)
        → Keeps Settled (revoke_privileges S id r wanted ps)
    unfolding revoke_privileges
    revoke_privileges-Settled r wanted [] h = record { at = λ t k. k }
    revoke_privileges-Settled r wanted (p ∷ ps) h =
        let (hr, hp, there, unwanted) = h p (ground arith) in
        Keeps-bind _ _
          (keep-Settled (has wanted (to_upper p)) _
            (λ e. delete_grant-Settled r p hr hp there (unwanted e)))
          (λ _. revoke_privileges-Settled r wanted ps (λ x hx. h x (ground arith)))

    pub revoke_roles-Settled :
        (perms : Dict (List String)) (desired : Dict (Dict Bool)) (rs : List String)
        → ((r p : String)
            → contains (Dict.get_or r perms []) p ≡ true
            → Revocable r (Dict.get_or r desired []) p)
        → Keeps Settled (revoke_roles S id perms desired rs)
    unfolding revoke_roles
    revoke_roles-Settled perms desired [] h = record { at = λ t k. k }
    revoke_roles-Settled perms desired (r ∷ rs) h =
        Keeps-bind _ _ (revoke_privileges-Settled r _ _ (h r))
          (λ _. revoke_roles-Settled perms desired rs h)

    grant_privileges-Settled :
        (r : String) (current : Dict Bool) (ps : List String)
        → ((p : String) → contains ps p ≡ true → Grantable r current p)
        → Keeps Settled (grant_privileges S id r current ps)
    unfolding grant_privileges
    grant_privileges-Settled r current [] h = record { at = λ t k. k }
    grant_privileges-Settled r current (p ∷ ps) h =
        let (hr, hp, wanted, missing) = h p (ground arith) in
        Keeps-bind _ _
          (keep-Settled (has current p) _ (λ e. create_grant-Settled r p hr hp (missing e) wanted))
          (λ _. grant_privileges-Settled r current ps (λ x hx. h x (ground arith)))

    pub grant_roles-Settled :
        (visit : String → List String → List String) (current desired : Dict (Dict Bool))
        (rs : List String)
        → ((r p : String)
            → contains (visit r (Dict.keys (Dict.get_or r desired []))) p ≡ true
            → Grantable r (Dict.get_or r current []) p)
        → Keeps Settled (grant_roles S id visit current desired rs)
    unfolding grant_roles
    grant_roles-Settled visit current desired [] h = record { at = λ t k. k }
    grant_roles-Settled visit current desired (r ∷ rs) h =
        Keeps-bind _ _ (grant_privileges-Settled r _ _ (h r))
          (λ _. grant_roles-Settled visit current desired rs h)
