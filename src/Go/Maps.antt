-- ===== src/Go/Maps.antt =====
-- `range` over a map: Go does not say in which order it visits the keys, only that it visits each
-- of them once. `A` names the `range` statements, and each may have its own order.
use terraform_provider_scyll.Base.{String, ◌≡◌, List, contains, Distinct}

pub record RangeOrder (A : Type 0) : Type 0 where
  pub visit : A → List String → List String
  pub contains-visit :
      (a : A) (ks : List String) (k : String) → contains (visit a ks) k ≡ contains ks k
  pub visit-Distinct : (a : A) (ks : List String) → Distinct ks → Distinct (visit a ks)
