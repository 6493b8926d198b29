-- ===== src/Base/Dict.antt =====
-- Go's maps with string keys, as association lists. Proofs go by the laws.
use Prim.Native.String.{String}
use mathlib.Core.Path.{◌≡◌, refl}
use mathlib.Core.Logic.{◌≢◌}
use mathlib.Core.Bool.{true, false, ◌||◌}
use mathlib.Core.Option.{Option, none, some}
use mathlib.Core.List.{List, [], ◌∷◌}
use native.Mathlib.Omega.{arith}
use terraform_provider_scyll.Base.Tests.{if◌then◌else◌}
use terraform_provider_scyll.Base.Texts.{◌==◌}
use terraform_provider_scyll.Base.Lists.{contains, Distinct}

abbrev pub Dict {ℓ} : Type ℓ → Type ℓ
Dict V = List (String × V)

module _ {ℓ} {V : Type ℓ} where
  unfoldable pub lookup : String → Dict V → Option V
  lookup k [] = none
  lookup k ((j, v) ∷ d) = if k == j then some v else lookup k d

  -- `m[k] = v`
  unfoldable pub insert : String → V → Dict V → Dict V
  insert k v [] = (k, v) ∷ []
  insert k v ((j, w) ∷ d) = if k == j then (k, v) ∷ d else (j, w) ∷ insert k v d

  unfoldable pub keys : Dict V → List String
  keys [] = []
  keys ((k, _) ∷ d) = k ∷ keys d

  pub lookup-nil : (k : String) → lookup k [] ≡ none
  unfolding lookup
  lookup-nil k = refl

  pub lookup-insert :
      (j k : String) (v : V) (d : Dict V)
      → lookup j (insert k v d) ≡ (if j == k then some v else lookup j d)
  unfolding lookup insert
  lookup-insert j k v [] = refl
  lookup-insert j k v ((i, w) ∷ d) = ground (arith, lookup-insert j k v d)

  -- `m[k]`, with the zero value of a missing key.
  abbrev pub get_or : String → Dict V → V → V
  get_or k d zero_value = elim (lookup k d) [ none ↦ zero_value | some v ↦ v ]

  pub lookup-ne-none : (d : Dict V) (k : String) → contains (keys d) k ≡ true → lookup k d ≢ none
  unfolding lookup keys
  lookup-ne-none [] k h = cc
  lookup-ne-none ((j, w) ∷ d) k h = ground (arith, lookup-ne-none d k)

  pub lookup-eq-none : (d : Dict V) (k : String) → contains (keys d) k ≡ false → lookup k d ≡ none
  unfolding lookup keys
  lookup-eq-none [] k h = refl
  lookup-eq-none ((j, w) ∷ d) k h = ground (arith, lookup-eq-none d k)

  pub contains-keys-insert :
      (j k : String) (v : V) (d : Dict V)
      → contains (keys (insert k v d)) j ≡ (j == k || contains (keys d) j)
  unfolding insert keys
  contains-keys-insert j k v [] = refl
  contains-keys-insert j k v ((i, w) ∷ d) = ground (arith, contains-keys-insert j k v d)

  pub insert-Distinct :
      (k : String) (v : V) (d : Dict V) → Distinct (keys d) → Distinct (keys (insert k v d))
  unfolding insert keys
  insert-Distinct k v [] h = (refl, tt)
  insert-Distinct k v ((j, w) ∷ d) (fresh, h) =
      ground (arith, insert-Distinct k v d h, contains-keys-insert j k v d)
