-- ===== src/Go/Strconv/Read.antt =====
-- Different numbers are written differently, in digits.
use terraform_provider_scyll.Base.{
  ℕ, zero, suc, ◌+◌, ◌-◌, ◌*◌, ◌/◌, ◌%◌, ◌<◌, Char, code, ◌||◌, String, ◌≡◌, ◌∙◌, refl, sym, ap,
  true, false, arith, ltb, Bool-cases, inl, inr,
}
use terraform_provider_scyll.Go.Strings.{lacks}
use terraform_provider_scyll.Go.Strconv.{digit, emit, decimal}

unfoldable pub read : String → ℕ → ℕ
read String.[] n = n
read (String.◌∷◌ c s) n = read s (n * 10 + (code c - 48))

last_digit : (n : ℕ) → ltb n 10 ≡ true → 0 * 10 + (48 + n % 10 - 48) ≡ n
last_digit n e = ground arith

next_digit : (n : ℕ) → n / 10 * 10 + (48 + n % 10 - 48) ≡ n
next_digit n = omega arith

fewer : (n fuel : ℕ) → n < suc fuel → ltb n 10 ≡ false → n / 10 < fuel
fewer n fuel h e = ground arith

read-emit : (fuel n : ℕ) (out : String) → n < fuel → read (emit fuel n out) 0 ≡ read out n
unfolding read emit
read-emit zero n out h = absurd (omega arith)
read-emit (suc fuel) n out h = elim (Bool-cases (ltb n 10)) [
  | inl e ↦ rw e (ap (read out) (last_digit n e))
  | inr e ↦ rw e (
      read-emit fuel (n / 10) (String.◌∷◌ (digit n) out) (fewer n fuel h e)
      ∙ ap (read out) (next_digit n))
]

lacks-digit :
    (c : Char) (n : ℕ) (out : String)
    → (ltb (code c) 48 || ltb 57 (code c)) ≡ true
    → lacks c out ≡ true
    → lacks c (String.◌∷◌ (digit n) out) ≡ true
unfolding lacks
lacks-digit c n out h none_yet = ground arith

lacks-emit :
    (c : Char) (fuel n : ℕ) (out : String)
    → (ltb (code c) 48 || ltb 57 (code c)) ≡ true
    → lacks c out ≡ true
    → lacks c (emit fuel n out) ≡ true
unfolding lacks emit
lacks-emit c zero n out h none_yet = none_yet
lacks-emit c (suc fuel) n out h none_yet = elim (Bool-cases (ltb n 10)) [
  | inl e ↦ rw e (lacks-digit c n out h none_yet)
  | inr e ↦
      rw e
        (lacks-emit c fuel (n / 10) (String.◌∷◌ (digit n) out) h (lacks-digit c n out h none_yet))
]

-- A character that is no digit is not in a number.
pub lacks-decimal :
    (c : Char) (n : ℕ) → (ltb (code c) 48 || ltb 57 (code c)) ≡ true → lacks c (decimal n) ≡ true
unfolding decimal lacks
lacks-decimal c n h = lacks-emit c (suc n) n "" h refl

pub read-decimal : (n : ℕ) → read (decimal n) 0 ≡ n
unfolding decimal read
read-decimal n = read-emit (suc n) n "" (omega arith)

pub decimal-injective : (m n : ℕ) → decimal m ≡ decimal n → m ≡ n
decimal-injective m n h = sym (read-decimal m) ∙ ap (λ s. read s 0) h ∙ read-decimal n
