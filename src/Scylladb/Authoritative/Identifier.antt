-- ===== src/Scylladb/Authoritative/Identifier.antt =====
-- Which resource an identifier stands for.
use text.Mathlib.TextLemmas.{nil-append, cons-append}
use terraform_provider_scyll.Base.{String, ◌<>◌, ◌≡◌, ◌∙◌, ap, true, ◌∷◌}
use terraform_provider_scyll.Go.Strings.{lacks, split_n}
use terraform_provider_scyll.Go.Strings.Split.{split_n_of_lacks, split_n-append, split_n_zero}
use terraform_provider_scyll.Cql.{Resource, keyspace, table}
use terraform_provider_scyll.Scylladb.Grant.Render.{grant_for}
use terraform_provider_scyll.Scylladb.Authoritative.{
  ParsedIdentifier, identifier_of_parts, parse_identifier, grant_on,
}

-- The identifier names this resource in every grant.
abbrev pub Denotes : ParsedIdentifier → Resource → Type 0
Denotes id res = (r p : String) → grant_on id r p ≡ grant_for p res r

-- An identifier without a period is a keyspace, with no table.
pub parse_identifier_keyspace :
    (k : String)
    → lacks "." k ≡ true
    → parse_identifier k
      ≡ record { resource_type = "KEYSPACE"; keyspace = k; table = ""; original = k }
unfolding parse_identifier
parse_identifier_keyspace k h = rw (split_n_of_lacks "." 0 k h)

-- Behind the first period of an identifier stands the table, with any further periods; in front of
-- it the keyspace, which has none.
pub parse_identifier_table :
    (k t : String)
    → lacks "." k ≡ true
    → parse_identifier (k <> "." <> t)
      ≡ record { resource_type = "TABLE"; keyspace = k; table = t; original = k <> "." <> t }
unfolding parse_identifier
parse_identifier_table k t h = ap (identifier_of_parts (k <> "." <> t)) (
    ap (λ (s : String). split_n "." 1 (k <> s))
      (cons-append "." "" t ∙ ap (String.◌∷◌ ".") (nil-append t))
    ∙ split_n-append "." 0 k t h
    ∙ ap (λ ps. k ∷ ps) (split_n_zero "." t))

pub Denotes-keyspace : (k : String) → lacks "." k ≡ true → Denotes (parse_identifier k) (keyspace k)
unfolding grant_for
Denotes-keyspace k h r p = rw (parse_identifier_keyspace k h)

pub Denotes-table :
    (k t : String) → lacks "." k ≡ true → Denotes (parse_identifier (k <> "." <> t)) (table k t)
unfolding grant_for
Denotes-table k t h r p = rw (parse_identifier_table k t h)
