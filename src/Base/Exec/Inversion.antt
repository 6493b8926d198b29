-- ===== src/Base/Exec/Inversion.antt =====
-- What an action that succeeds has been through.
use mathlib.Core.Path.{◌≡◌, refl}
use mathlib.Core.Logic.{◌⊎◌, inl, inr}
use terraform_provider_scyll.Base.Exec.{Error, Result, ok, err, Exec, ◌>>◌, ◌>>=◌}

err-ne-ok : {A : Type 0} {e : Error} {a : A} → err e ≡ ok a → ⊥
err-ne-ok h = cc

module _ {S : Type 0} {A : Type 0} where
  -- A bind that succeeds is its parts, which succeed.
  pub >>=-eq-ok :
      {B : Type 0} (m : Exec S B) (f : B → Exec S A) (s : S) {a : A}
      → ((m >>= f) s).0 ≡ ok a
      → (b : B) × ((m s).0 ≡ ok b) × ((f b (m s).1).0 ≡ ok a) × (((m >>= f) s).1 ≡ (f b (m s).1).1)
  >>=-eq-ok {B} m f s {a} h = go (m s).0 refl h
    where
      go :
          (o : Result B)
          → (m s).0 ≡ o
          → ((m >>= f) s).0 ≡ ok a
          → (b : B) × ((m s).0 ≡ ok b)
            × ((f b (m s).1).0 ≡ ok a)
            × (((m >>= f) s).1 ≡ (f b (m s).1).1)
      go (ok b) e k = (b, e, rw e at k, rw e)
      go (err x) e k = absurd (err-ne-ok (rw e at k))

  -- A sequence that succeeds is its parts, which succeed.
  pub >>-eq-ok :
      (m : Exec S (Unit {0})) (n : Exec S A) (s : S) {a : A}
      → ((m >> n) s).0 ≡ ok a
      → ((m s).0 ≡ ok tt) × ((n (m s).1).0 ≡ ok a) × (((m >> n) s).1 ≡ (n (m s).1).1)
  >>-eq-ok m n s {a} h = go (m s).0 refl h
    where
      go :
          (o : Result (Unit {0}))
          → (m s).0 ≡ o
          → ((m >> n) s).0 ≡ ok a
          → ((m s).0 ≡ ok tt) × ((n (m s).1).0 ≡ ok a) × (((m >> n) s).1 ≡ (n (m s).1).1)
      go (ok _) e k = (e, rw e at k, rw e)
      go (err x) e k = absurd (err-ne-ok (rw e at k))

-- A result is a value or an error.
pub Result-cases :
    {A : Type 0} (r : Result A) → ((a : A) × (r ≡ ok a)) ⊎ ((e : Error) × (r ≡ err e))
Result-cases (ok a) = inl (a, refl)
Result-cases (err e) = inr (e, refl)
