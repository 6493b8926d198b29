-- ===== src/Go/Strings/Fold.antt =====
-- What `strings.EqualFold` has to do with `strings.ToUpper`.
use terraform_provider_scyll.Base.{code, String, ◌≡◌, refl, Bool, true, not, ◌&&◌, leb, arith}
use terraform_provider_scyll.Go.Strings.{Unicode, same_char, to_upper, equal_fold}

-- Capital letters of ASCII, other than K
unfoldable pub is_folded_alone : String → Bool
is_folded_alone String.[] = true
is_folded_alone (String.◌∷◌ c s) =
    leb b'A' (code c) && leb (code c) b'Z' && not (same_char c "K") && is_folded_alone s

module _ ⦃u : Unicode⦄ where
  -- A text that differs from such a word in case alone has it as its upper case.
  pub to_upper_of_fold :
      (s t : String) → is_folded_alone t ≡ true → equal_fold s t ≡ true → to_upper s ≡ t
  unfolding is_folded_alone equal_fold to_upper
  to_upper_of_fold String.[] String.[] plain h = refl
  to_upper_of_fold String.[] (String.◌∷◌ d t) plain h = cc
  to_upper_of_fold (String.◌∷◌ c s) String.[] plain h = cc
  to_upper_of_fold (String.◌∷◌ c s) (String.◌∷◌ d t) plain h = λ i.
      String.◌∷◌ (u.fold_upper c d (ground arith) (ground arith) i)
        (to_upper_of_fold s t (ground arith) (ground arith) i)
