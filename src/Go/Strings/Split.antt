-- ===== src/Go/Strings/Split.antt =====
-- What the parts of a split are.
use text.Mathlib.TextLemmas.{nil-append, cons-append}
use terraform_provider_scyll.Base.{ℕ, suc, Char, String, ◌<>◌, ◌≡◌, refl, true, [], ◌∷◌, arith}
use terraform_provider_scyll.Go.Strings.{lacks, split_n, split}

-- A text without the separator is one part.
pub split_n_of_lacks :
    (sep : Char) (n : ℕ) (s : String) → lacks sep s ≡ true → split_n sep (suc n) s ≡ s ∷ []
unfolding lacks split_n
split_n_of_lacks sep n String.[] h = refl
split_n_of_lacks sep n (String.◌∷◌ c s) h = ground (arith, split_n_of_lacks sep n s)

pub split_of_lacks : (sep : Char) (s : String) → lacks sep s ≡ true → split sep s ≡ s ∷ []
unfolding lacks split
split_of_lacks sep String.[] h = refl
split_of_lacks sep (String.◌∷◌ c s) h = ground (arith, split_of_lacks sep s)

-- The first cut is at the first separator.
pub split_n-append :
    (sep : Char) (n : ℕ) (a b : String)
    → lacks sep a ≡ true
    → split_n sep (suc n) (a <> String.◌∷◌ sep b) ≡ a ∷ split_n sep n b
unfolding lacks split_n
split_n-append sep n String.[] b h = rw nil-append (ground arith)
split_n-append sep n (String.◌∷◌ c a) b h =
    rw cons-append (ground (arith, split_n-append sep n a b))

pub split-append :
    (sep : Char) (a b : String)
    → lacks sep a ≡ true
    → split sep (a <> String.◌∷◌ sep b) ≡ a ∷ split sep b
unfolding lacks split
split-append sep String.[] b h = rw nil-append (ground arith)
split-append sep (String.◌∷◌ c a) b h = rw cons-append (ground (arith, split-append sep a b))

-- No cut is left: the rest is the last part, whatever it holds.
pub split_n_zero : (sep : Char) (s : String) → split_n sep 0 s ≡ s ∷ []
unfolding split_n
split_n_zero sep String.[] = refl
split_n_zero sep (String.◌∷◌ c s) = refl
