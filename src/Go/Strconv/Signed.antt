-- ===== src/Go/Strconv/Signed.antt =====
-- How `fmt` writes `%d` of an `int`, and how the text is read back.
use terraform_provider_scyll.Base.{
  suc, ◌-◌, Char, code, ◌||◌, ltb, String, ◌<>◌, ◌≡◌, ◌∙◌, refl, ap, true, false, arith,
  if◌then◌else◌,
}
use terraform_provider_scyll.Base.Ints.{ℤ, pos, negsuc}
use text.Mathlib.TextLemmas.{nil-append, cons-append}
use terraform_provider_scyll.Go.Strings.{same_char, lacks}
use terraform_provider_scyll.Go.Strconv.{decimal}
use terraform_provider_scyll.Go.Strconv.Read.{read, read-decimal, lacks-decimal}

unfoldable pub decimal_int : ℤ → String
decimal_int (pos n) = decimal n
decimal_int (negsuc n) = "-" <> decimal (suc n)

unfoldable pub read_int : String → ℤ
read_int String.[] = pos 0
read_int (String.◌∷◌ c s) =
    if same_char c "-" then negsuc (read s 0 - 1) else pos (read (String.◌∷◌ c s) 0)

minus_append : (s : String) → "-" <> s ≡ String.◌∷◌ "-" s
minus_append s = cons-append "-" "" s ∙ ap (String.◌∷◌ "-") (nil-append s)

read_int_unsigned : (s : String) → lacks "-" s ≡ true → read_int s ≡ pos (read s 0)
unfolding read_int read lacks
read_int_unsigned String.[] h = refl
read_int_unsigned (String.◌∷◌ c s) h = ground (arith, h)

pub read_int-decimal_int : (z : ℤ) → read_int (decimal_int z) ≡ z
unfolding decimal_int read_int
read_int-decimal_int (pos n) =
    read_int_unsigned (decimal n) (lacks-decimal "-" n refl) ∙ ap pos (read-decimal n)
read_int-decimal_int (negsuc n) =
    ap read_int (minus_append (decimal (suc n)))
    ∙ ap (λ k. negsuc (k - 1)) (read-decimal (suc n))
    ∙ ap negsuc (omega arith)

-- The sign aside, there are only digits.
pub lacks-decimal_int :
    (c : Char) (z : ℤ)
    → same_char "-" c ≡ false
    → (ltb (code c) 48 || ltb 57 (code c)) ≡ true
    → lacks c (decimal_int z) ≡ true
unfolding decimal_int lacks
lacks-decimal_int c (pos n) sign h = lacks-decimal c n h
lacks-decimal_int c (negsuc n) sign h =
    ap (lacks c) (minus_append (decimal (suc n))) ∙ rw sign (lacks-decimal c (suc n) h)
