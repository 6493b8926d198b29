-- ===== src/Scylladb/Grant/Render.antt =====
-- The statements of the templates, read back by CQL's grammar.
use text.Mathlib.TextLemmas.{nil-append, append_assoc}
use terraform_provider_scyll.Base.{
  String, ◌<>◌, ◌≡◌, refl, true, List, [], ◌∷◌, ◌++◌, some, ◌∙◌, ap, text_discrete,
}
use terraform_provider_scyll.Go.Strings.{lacks}
use terraform_provider_scyll.Cql.{
  Verb, grant, revoke, list, Resource, all_keyspaces, keyspace, table, all_roles, role, parse,
  parse_tokens, preposition,
}
use terraform_provider_scyll.Cql.Lexer.{
  Token, word, quoted, period, between, in_word, in_quotes, closing, run, finish, tokens, is_word,
  run-append, run_word, run_quoted,
}
use terraform_provider_scyll.Scylladb.Grant.{
  Grant, nonempty, quote, object, create_query, delete_query, read_query,
}

-- A name that can stand between quotation marks.
abbrev pub IsName : String → Type 0
IsName n = (nonempty n ≡ true) × (lacks "\"" n ≡ true)

abbrev pub IsNamed : Resource → Type 0
IsNamed all_keyspaces = Unit
IsNamed (keyspace k) = IsName k
IsNamed (table k t) = IsName k × IsName t
IsNamed all_roles = Unit
IsNamed (role r) = IsName r

-- A privilege of one word, in front of a blank.
abbrev pub IsPrivilege : String → Type 0
IsPrivilege p = (nonempty p ≡ true) × (is_word p ≡ true)

-- How a `Grant` names a privilege, a resource and a role.
unfoldable pub grant_for : String → Resource → String → Grant
grant_for p all_keyspaces r = record {
  privilege = p;
  resource_type = "ALL KEYSPACES";
  role_name = r;
  keyspace = "";
  identifier = "";
}
grant_for p (keyspace k) r = record {
  privilege = p;
  resource_type = "KEYSPACE";
  role_name = r;
  keyspace = k;
  identifier = "";
}
grant_for p (table k t) r = record {
  privilege = p;
  resource_type = "TABLE";
  role_name = r;
  keyspace = k;
  identifier = t;
}
grant_for p all_roles r = record {
  privilege = p;
  resource_type = "ALL ROLES";
  role_name = r;
  keyspace = "";
  identifier = "";
}
grant_for p (role k) r = record {
  privilege = p;
  resource_type = "ROLE";
  role_name = r;
  keyspace = k;
  identifier = "";
}

-- A privilege is read whole.
run_privilege :
    (out : List Token) (p : String) → IsPrivilege p → run (out, between) p ≡ (out, in_word p)
run_privilege out String.[] h = absurd (cc)
run_privilege out (String.◌∷◌ c s) h = run_word out c s h.1

run_name :
    (out : List Token) (n : String)
    → lacks "\"" n ≡ true
    → run (out, in_quotes "") n ≡ (out, in_quotes n)
run_name out n h = run_quoted out "" n h ∙ ap (λ (t : String). (out, in_quotes t)) (nil-append n)

quote-IsName : (n : String) → IsName n → quote n ≡ "\"" <> n <> "\""
quote-IsName String.[] h = absurd (cc)
quote-IsName (String.◌∷◌ c s) h = refl

abbrev pub query : Verb → Grant → String
query grant = create_query
query revoke = delete_query
query list = read_query

-- `out`, and the tokens of a resource behind it.
abbrev then_resource : List Token → Resource → List Token
then_resource out all_keyspaces = (out ++ word "ALL" ∷ []) ++ word "KEYSPACES" ∷ []
then_resource out (keyspace k) = (out ++ word "KEYSPACE" ∷ []) ++ quoted k ∷ []
then_resource out (table k t) =
    (((out ++ word "TABLE" ∷ []) ++ quoted k ∷ []) ++ period ∷ []) ++ quoted t ∷ []
then_resource out all_roles = (out ++ word "ALL" ∷ []) ++ word "ROLES" ∷ []
then_resource out (role k) = (out ++ word "ROLE" ∷ []) ++ quoted k ∷ []

-- The resource is read whole by the blank behind it.
run-object :
    (out : List Token) (p : String) (r : Resource) (g : String)
    → IsNamed r
    → run
        (run
          (run (run (out, between) (grant_for p r g).resource_type) " ")
          (object (grant_for p r g)))
        " "
      ≡ (then_resource out r, between)
unfolding run grant_for object
run-object out p all_keyspaces g h = refl
run-object out p (keyspace k) g h = simp (h.0, append_assoc, run-append, run_name _ k h.1)
run-object out p (table k t) g (hk, ht) =
    simp (hk.0, ht.0, append_assoc, run-append, run_name _ k hk.1, run_name _ t ht.1)
run-object out p all_roles g h = refl
run-object out p (role k) g h = simp (h.0, append_assoc, run-append, run_name _ k h.1)

-- A text of the shape of the three templates, from its parts.
tokens-parts :
    (pre p kind obj post g : String) (v w : Token) (r : Resource)
    → run ([], between) pre ≡ (v ∷ [], between)
    → IsPrivilege p
    → run (run (run (run (v ∷ word p ∷ word "ON" ∷ [], between) kind) " ") obj) " "
      ≡ (then_resource (v ∷ word p ∷ word "ON" ∷ []) r, between)
    → ((out : List Token) → run (out, between) post ≡ (out ++ w ∷ [], in_quotes ""))
    → lacks "\"" g ≡ true
    → tokens (pre <> p <> " ON " <> kind <> " " <> obj <> (" " <> post) <> g <> "\"")
      ≡ some ((then_resource (v ∷ word p ∷ word "ON" ∷ []) r ++ w ∷ []) ++ quoted g ∷ [])
unfolding tokens finish
tokens-parts pre p kind obj post g v w r hv hp hobj hw hg =
    simp (run-append, hv, run_privilege _ p hp, on, hobj, hw, run_name _ g hg, last)
  where
    on : run (v ∷ [], in_word p) " ON " ≡ (v ∷ word p ∷ word "ON" ∷ [], between)
    on = unfold run in refl

    last : (out : List Token) → run (out, in_quotes g) "\"" ≡ (out, closing g)
    last out = unfold run in refl

privilege-grant_for : (p : String) (r : Resource) (g : String) → (grant_for p r g).privilege ≡ p
unfolding grant_for
privilege-grant_for p all_keyspaces g = refl
privilege-grant_for p (keyspace k) g = refl
privilege-grant_for p _ g = refl

role_name-grant_for : (p : String) (r : Resource) (g : String) → (grant_for p r g).role_name ≡ g
unfolding grant_for
role_name-grant_for p all_keyspaces g = refl
role_name-grant_for p (keyspace k) g = refl
role_name-grant_for p _ g = refl

abbrev keyword : Verb → String
keyword grant = "GRANT"
keyword revoke = "REVOKE"
keyword list = "LIST"

parse_tokens-statement :
    (v : Verb) (p : String) (r : Resource) (g : String)
    → parse_tokens (
        (then_resource (word (keyword v) ∷ word p ∷ word "ON" ∷ []) r ++ word (preposition v) ∷ [])
        ++ quoted g ∷ [])
      ≡ some (record { verb = v; privilege = p; resource = r; grantee = g })
unfolding parse_tokens text_discrete
parse_tokens-statement grant p all_keyspaces g = refl
parse_tokens-statement grant p (keyspace k) g = refl
parse_tokens-statement grant p _ g = refl
parse_tokens-statement _ p all_keyspaces g = refl
parse_tokens-statement _ p (keyspace k) g = refl
parse_tokens-statement _ p _ g = refl

module _ (p : String) (r : Resource) (g : String) (hp : IsPrivilege p) (hr : IsNamed r)
    (hg : lacks "\"" g ≡ true) where
  tokens-fields :
      (pre post : String) (v w : Token)
      → run ([], between) pre ≡ (v ∷ [], between)
      → ((out : List Token) → run (out, between) post ≡ (out ++ w ∷ [], in_quotes ""))
      → let q = grant_for p r g in
        tokens (
          pre
          <> q.privilege
          <> " ON "
          <> q.resource_type
          <> " "
          <> object q
          <> (" " <> post)
          <> q.role_name
          <> "\"")
        ≡ some ((then_resource (v ∷ word p ∷ word "ON" ∷ []) r ++ w ∷ []) ++ quoted g ∷ [])
  tokens-fields pre post v w hv hw =
      (λ i. tokens (
        pre
        <> privilege-grant_for p r g i
        <> " ON "
        <> q.resource_type
        <> " "
        <> object q
        <> (" " <> post)
        <> role_name-grant_for p r g i
        <> "\""))
      ∙ tokens-parts pre p q.resource_type (object q) post g v w r hv hp (run-object _ p r g hr) hw
          hg
    where
      q : Grant
      q = grant_for p r g

  tokens-query :
      (v : Verb)
      → tokens (query v (grant_for p r g))
        ≡ some (
            (then_resource (word (keyword v) ∷ word p ∷ word "ON" ∷ []) r
              ++ word (preposition v) ∷ [])
            ++ quoted g ∷ [])
  unfolding create_query delete_query read_query run preposition
  tokens-query grant = tokens-fields "GRANT " "TO \"" (word "GRANT") (word "TO") refl (λ out. refl)
  tokens-query revoke =
      tokens-fields "REVOKE " "FROM \"" (word "REVOKE") (word "FROM") refl (λ out. refl)
  tokens-query list = tokens-fields "LIST " "OF \"" (word "LIST") (word "OF") refl (λ out. refl)

  -- Every statement that the three templates write reads back in CQL's grammar as the verb, the
  -- privilege, the resource and the role that it was made from, if the privilege is one word, the
  -- names have no quotation mark and those of the resource are not empty.
  pub parse-query :
      (v : Verb)
      → parse (query v (grant_for p r g))
        ≡ some (record { verb = v; privilege = p; resource = r; grantee = g })
  unfolding parse
  parse-query v = rw (tokens-query v) (parse_tokens-statement v p r g)
