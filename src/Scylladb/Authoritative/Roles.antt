-- ===== src/Scylladb/Authoritative/Roles.antt =====
-- A role that bindings ask for is the role of one of them.
use terraform_provider_scyll.Base.{
  String, ◌≡◌, subst, true, List, [], ◌∷◌, ◌==◌, ◌&&◌, contains, map, All, Bool-cases, inl, inr,
  arith,
}
use terraform_provider_scyll.Go.Strings.{Unicode, to_upper}
use terraform_provider_scyll.Scylladb.Authoritative.{AuthoritativeBinding}
use terraform_provider_scyll.Scylladb.Authoritative.Requested.{requested}
use terraform_provider_scyll.Scylladb.Authoritative.Steps.{IsRole}

module _ ⦃u : Unicode⦄ where
  pub requested-IsRole :
      (bs : List AuthoritativeBinding) (r p : String)
      → All (λ b. IsRole b.role) bs
      → requested bs r p ≡ true
      → IsRole r
  unfolding requested
  requested-IsRole [] r p roles h = cc
  requested-IsRole (b ∷ bs) r p (role, roles) h =
      elim (Bool-cases (r == b.role && contains (map to_upper b.privileges) p)) [
        | inl e ↦ let same : b.role ≡ r = ground arith in subst IsRole same role
        | inr e ↦ requested-IsRole bs r p roles (ground arith)
      ]
