-- ===== src/Go/Strconv.antt =====
-- How `fmt` writes `%d` of a number that is not negative.
pub mod Read
pub mod Signed
use Prim.Native.Nat.{compare, Ordering}
use Prim.Native.Char.{IsScalar, char}
use terraform_provider_scyll.Base.{
  ℕ, zero, suc, ◌+◌, ◌/◌, ◌%◌, Char, String, ◌≡◌, Bool, ltb, if◌then◌else◌, arith,
}

pub IsScalar-below : (n : ℕ) → compare n 55296 ≡ Ordering.lt → IsScalar n
IsScalar-below n e = rw e tt

pub digit_below : (n : ℕ) → compare (48 + n % 10) 55296 ≡ Ordering.lt
digit_below n = ground arith

abbrev digit : ℕ → Char
digit n = char (48 + n % 10) (IsScalar-below (48 + n % 10) (digit_below n))

-- The digits in front of a text, one for each unit of fuel.
unfoldable pub emit : ℕ → ℕ → String → String
emit zero n out = out
emit (suc fuel) n out =
    let rest = emit fuel (n / 10) (String.◌∷◌ (digit n) out) in
    if ltb n 10 then String.◌∷◌ (digit n) out else rest

-- A number has no more digits than one more than itself.
unfoldable pub decimal : ℕ → String
unfolding emit
decimal n = emit (suc n) n ""
