-- ===== src/Go/Slices.antt =====
-- `slices.Sort` on strings. Equal strings are alike, so every sorting algorithm gives this list.
use Prim.Native.Nat.{Ordering}
use Prim.Native.String.{compare}
use terraform_provider_scyll.Base.{
  String, ◌≡◌, refl, Bool, true, false, ◌||◌, List, [], ◌∷◌, contains, arith, if◌then◌else◌, ◌==◌,
}

-- `<=` on strings: by bytes, which for UTF-8 is by code points
abbrev pub text_leb : String → String → Bool
text_leb s t = elim (compare s t) [ Ordering.gt ↦ false | _ ↦ true ]

unfoldable pub insert_sorted : String → List String → List String
insert_sorted x [] = x ∷ []
insert_sorted x (y ∷ ys) = if text_leb x y then x ∷ y ∷ ys else y ∷ insert_sorted x ys

unfoldable pub sort : List String → List String
unfolding insert_sorted
sort [] = []
sort (x ∷ xs) = insert_sorted x (sort xs)

contains-insert_sorted :
    (x : String) (ys : List String) (z : String)
    → contains (insert_sorted x ys) z ≡ (z == x || contains ys z)
unfolding insert_sorted
contains-insert_sorted x [] z = refl
contains-insert_sorted x (y ∷ ys) z = ground (arith, contains-insert_sorted x ys z)

pub contains-sort : (xs : List String) (z : String) → contains (sort xs) z ≡ contains xs z
unfolding sort
contains-sort [] z = refl
contains-sort (x ∷ xs) z = ground (arith, contains-insert_sorted x (sort xs) z, contains-sort xs z)
