-- ===== src/Provider/GrantResource/Import.antt =====
-- Identifiers that `Create` writes and `ImportState` reads.
use text.Mathlib.TextLemmas.{nil-append, cons-append}
use terraform_provider_scyll.Base.{String, ◌<>◌, ◌≡◌, ◌∙◌, refl, ap, true, some, ◌∷◌}
use terraform_provider_scyll.Go.Strings.{lacks, split}
use terraform_provider_scyll.Go.Strings.Split.{split-append, split_of_lacks}
use terraform_provider_scyll.Scylladb.Grant.{Grant}
use terraform_provider_scyll.Provider.GrantResource.{grant_id, grant_of_parts}

-- No part holds the separator.
abbrev pub IsPlain : Grant → Type 0
IsPlain g =
    (lacks "|" g.role_name ≡ true)
    × (lacks "|" g.privilege ≡ true)
    × (lacks "|" g.resource_type ≡ true)
    × (lacks "|" g.keyspace ≡ true)
    × (lacks "|" g.identifier ≡ true)

split-bar : (a b : String) → lacks "|" a ≡ true → split "|" (a <> "|" <> b) ≡ a ∷ split "|" b
split-bar a b h =
    ap (λ (s : String). split "|" (a <> s))
      (cons-append "|" "" b ∙ ap (String.◌∷◌ "|") (nil-append b))
    ∙ split-append "|" a b h

-- The identifier that `Create` and `Update` give a grant is read back by `ImportState` as the same
-- grant, if no field holds the separator.
pub grant_of_parts-grant_id :
    (g : Grant) → IsPlain g → grant_of_parts (split "|" (grant_id g)) ≡ some g
unfolding grant_id grant_of_parts
grant_of_parts-grant_id g (hr, hp, ht, hk, hi) =
    rw
      (
        split-bar g.role_name _ hr,
        split-bar g.privilege _ hp,
        split-bar g.resource_type _ ht,
        split-bar g.keyspace _ hk,
        split_of_lacks "|" g.identifier hi,
      )
      refl
