-- ===== src/Provider/Framework/Laws.antt =====
-- What a handler that ended without an error has been through.
use terraform_provider_scyll.Base.{String, ◌≡◌, refl}
use terraform_provider_scyll.Base.Exec.{Result, ok, err}
use terraform_provider_scyll.Provider.Framework.{
  Fallible, done, failed, Handler, with_summary, follow,
}

module _ {T A B : Type 0} where
  pub follow-done :
      (r : Fallible A) (f : A → Handler T B) (t : T) (b : B)
      → (follow r f t).0 ≡ done b
      → (a : A) × (r ≡ done a) × ((f a t).0 ≡ done b) × (follow r f t ≡ f a t)
  follow-done (done a) f t b h = (a, refl, h, refl)
  follow-done (failed ds) f t b h = cc

  -- What holds of the state holds behind a step that keeps it, and behind one that is not taken.
  pub follow_keeps :
      (P : T → Type 0) (r : Fallible A) (f : A → Handler T B) (t : T)
      → P t
      → ((a : A) → P (f a t).1)
      → P (follow r f t).1
  follow_keeps P (done a) f t h k = k a
  follow_keeps P (failed ds) f t h k = h

pub with_summary-done :
    {A : Type 0} (summary : String) (r : Result A) (a : A)
    → with_summary summary r ≡ done a
    → r ≡ ok a
with_summary-done summary (ok a) b h = cc
with_summary-done summary (err e) b h = cc

pub done-injective : {A : Type 0} (a b : A) → done a ≡ done b → a ≡ b
done-injective a b h = cc
