-- ===== src/Go/Strings/Upper.antt =====
-- Texts that `strings.ToUpper` leaves alone, whatever the tables hold outside ASCII.
use text.Mathlib.TextEquality.{Char-path}
use terraform_provider_scyll.Base.{
  Char, code, String, ◌≡◌, refl, Bool, true, ◌&&◌, not, arith, ltb, leb,
}
use terraform_provider_scyll.Go.Strings.{Unicode, to_upper}

-- ASCII, with no lower-case letter.
unfoldable pub is_upper_ascii : String → Bool
is_upper_ascii String.[] = true
is_upper_ascii (String.◌∷◌ c s) =
    ltb (code c) 128 && not (leb b'a' (code c) && leb (code c) b'z') && is_upper_ascii s

module _ ⦃u : Unicode⦄ where
  upper_fixed :
      (c : Char)
      → (ltb (code c) 128 && not (leb b'a' (code c) && leb (code c) b'z')) ≡ true
      → u.upper c ≡ c
  upper_fixed c h = Char-path (u.upper c) c (ground (arith, u.upper_ascii c))

  pub to_upper_fixed : (s : String) → is_upper_ascii s ≡ true → to_upper s ≡ s
  unfolding to_upper is_upper_ascii
  to_upper_fixed String.[] h = refl
  to_upper_fixed (String.◌∷◌ c s) h =
      λ i. String.◌∷◌ (upper_fixed c (ground arith) i) (to_upper_fixed s (ground arith) i)
