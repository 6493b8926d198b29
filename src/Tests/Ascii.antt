-- ===== src/Tests/Ascii.antt =====
-- Tables that know ASCII alone, and the order in which the keys stand.
use Prim.Native.Nat.{compare, Ordering}
use Prim.Native.Char.{char}
use text.Mathlib.TextEquality.{Char-path}
use terraform_provider_scyll.Base.{
  not, ◌∙◌, ℕ, ◌-◌, ◌<◌, Char, code, ◌<>◌, ◌≡◌, refl, Bool, true, false, ◌&&◌, ◌||◌, leb,
  if◌then◌else◌, arith,
}
use terraform_provider_scyll.Go.Strconv.{IsScalar-below}
use terraform_provider_scyll.Go.Maps.{RangeOrder}
use terraform_provider_scyll.Go.Strings.{Unicode, same_char, to_upper}

pub below : (n : ℕ) → (leb 97 n && leb n 122) ≡ true → compare (n - 32) 55296 ≡ Ordering.lt
below n h = ground arith

abbrev is_lower : Char → Bool
is_lower c = leb b'a' (code c) && leb (code c) b'z'

abbrev upper_at : (c : Char) (b : Bool) → is_lower c ≡ b → Char
upper_at c true e = char (code c - 32) (IsScalar-below (code c - 32) (below (code c) e))
upper_at c false e = c

unfoldable pub ascii_upper : Char → Char
ascii_upper c = upper_at c (is_lower c) refl

code-upper_at :
    (c : Char) (b : Bool) (e : is_lower c ≡ b)
    → code (upper_at c b e) ≡ (if b then code c - 32 else code c)
code-upper_at c true e = refl
code-upper_at c false e = refl

pub code-ascii_upper :
    (c : Char)
    → code c < 128
    → code (ascii_upper c)
      ≡ (if leb b'a' (code c) && leb (code c) b'z' then code c - 32 else code c)
unfolding ascii_upper
code-ascii_upper c h = code-upper_at c (is_lower c) refl

code-same : (c d : Char) → same_char c d ≡ true → code c ≡ code d
code-same c d h = ground arith

pub folded_upper :
    (c d : Char)
    → (leb b'A' (code d) && leb (code d) b'Z' && not (same_char d "K")) ≡ true
    → same_char (ascii_upper c) (ascii_upper d) ≡ true
    → ascii_upper c ≡ d
folded_upper c d capital h =
    Char-path (ascii_upper c) d
      (code-same (ascii_upper c) (ascii_upper d) h ∙ ground (arith, code-ascii_upper d))

instance abbrev pub ascii : Unicode
ascii = record {
  quote = λ s. "\"" <> s <> "\"";
  upper = ascii_upper;
  is_letter = λ c. leb b'A' (code c) && leb (code c) b'Z' || leb b'a' (code c) && leb (code c) b'z';
  is_digit = λ c. leb b'0' (code c) && leb (code c) b'9';
  fold = λ c d. same_char (ascii_upper c) (ascii_upper d);
  fold_upper = folded_upper;
  upper_ascii = code-ascii_upper;
  is_letter_ascii = λ c h. refl;
  is_digit_ascii = λ c h. refl;
}

abbrev pub in_order : {A : Type 0} → RangeOrder A
in_order = record {
  visit = λ a ks. ks;
  contains-visit = λ a ks k. refl;
  visit-Distinct = λ a ks h. h;
}

shouts : to_upper "select_1" ≡ "SELECT_1"
unfolding to_upper ascii_upper
shouts = refl
