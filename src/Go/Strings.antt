-- ===== src/Go/Strings.antt =====
-- `strings.ToUpper`, `strings.Split`, `strings.SplitN`, `strings.Contains`. A text is a valid UTF-8
-- string, walked by code points. The tables of package `unicode` are a parameter, with what their
-- documentation says of ASCII.
pub mod Split
pub mod Upper
pub mod Fold
use Prim.Native.Nat.{compare, Ordering}
use text.Mathlib.Text.{find?}
use terraform_provider_scyll.Base.{
  ℕ, zero, suc, ◌+◌, ◌-◌, ◌<◌, Char, code, String, ◌≡◌, Bool, true, false, not, ◌&&◌, ◌||◌, Option,
  none, some, List, [], ◌∷◌, leb, if◌then◌else◌,
}

-- Two code points are the same.
abbrev pub same_char : Char → Char → Bool
same_char c d = elim (compare (code c) (code d)) [ Ordering.eq ↦ true | _ ↦ false ]

-- `unicode.ToUpper`, `unicode.IsLetter`, `unicode.IsDigit`, whether `unicode.SimpleFold` leads from
-- one code point to the other, and how `fmt` writes `%q`, which escapes what `unicode` says is not
-- printable. Of the capital letters of ASCII only K folds with a code point that has another upper
-- case, the sign of the kelvin.
pub record Unicode : Type 0 where
  pub quote : String → String
  pub upper : Char → Char
  pub is_letter : Char → Bool
  pub is_digit : Char → Bool
  pub fold : Char → Char → Bool
  pub fold_upper :
      (c d : Char)
      → (leb b'A' (code d) && leb (code d) b'Z' && not (same_char d "K")) ≡ true
      → fold c d ≡ true
      → upper c ≡ d
  pub upper_ascii :
      (c : Char)
      → code c < 128
      → code (upper c) ≡ (if leb b'a' (code c) && leb (code c) b'z' then code c - 32 else code c)
  pub is_letter_ascii :
      (c : Char)
      → code c < 128
      → is_letter c
        ≡ (leb b'A' (code c) && leb (code c) b'Z' || leb b'a' (code c) && leb (code c) b'z')
  pub is_digit_ascii :
      (c : Char) → code c < 128 → is_digit c ≡ (leb b'0' (code c) && leb (code c) b'9')

unfoldable pub to_upper : ⦃u : Unicode⦄ → String → String
to_upper String.[] = ""
to_upper ⦃u⦄ (String.◌∷◌ c s) = String.◌∷◌ (u.upper c) (to_upper s)

-- `strings.EqualFold`
unfoldable pub equal_fold : ⦃u : Unicode⦄ → String → String → Bool
equal_fold String.[] String.[] = true
equal_fold ⦃u⦄ (String.◌∷◌ c s) (String.◌∷◌ d t) = u.fold c d && equal_fold s t
equal_fold _ _ = false

-- `strings.Contains`
abbrev pub contains_text : String → String → Bool
contains_text s t = elim (find? s t) [ none ↦ false | some _ ↦ true ]

-- The text does not hold the code point.
unfoldable pub lacks : Char → String → Bool
lacks d String.[] = true
lacks d (String.◌∷◌ c s) = not (same_char c d) && lacks d s

-- A code point in front of the first part.
unfoldable pub onto_first : Char → List String → List String
onto_first c [] = String.◌∷◌ c "" ∷ []
onto_first c (p ∷ ps) = String.◌∷◌ c p ∷ ps

-- `strings.SplitN(s, sep, n + 1)`: at most `n` cuts.
unfoldable pub split_n : Char → ℕ → String → List String
unfolding onto_first
split_n sep n String.[] = "" ∷ []
split_n sep zero (String.◌∷◌ c s) = String.◌∷◌ c s ∷ []
split_n sep (suc n) (String.◌∷◌ c s) = elim (same_char c sep) [
  | true ↦ "" ∷ split_n sep n s
  | false ↦ onto_first c (split_n sep (suc n) s)
]

-- `strings.Split`
unfoldable pub split : Char → String → List String
unfolding onto_first
split sep String.[] = "" ∷ []
split sep (String.◌∷◌ c s) =
    let rest = split sep s in if same_char c sep then "" ∷ rest else onto_first c rest
