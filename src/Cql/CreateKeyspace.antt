-- ===== src/Cql/CreateKeyspace.antt =====
-- How the database reads `CREATE KEYSPACE` with a simple replication, written with the spaces, the
-- keywords and the order of options that scylladb/keyspace.go uses. Nothing here is taken from the code.
use text.Mathlib.TextLemmas.{nil-append, cons-append}
use terraform_provider_scyll.Base.{
  ℕ, zero, suc, ◌-◌, Char, code, leb, ◌&&◌, ◌||◌, String, ◌<>◌, ◌≡◌, ◌∙◌, refl, ap, Bool, true,
  false, Option, none, some, ◌==◌, arith, if◌then◌else◌,
}
use terraform_provider_scyll.Base.Ints.{ℤ}
use terraform_provider_scyll.Go.Strings.{same_char, lacks}
use terraform_provider_scyll.Go.Strconv.Signed.{read_int}

-- The options of a keyspace that the statement names
pub record Definition : Type 0 where
  pub name : String
  pub class : String
  pub replication_factor : ℤ
  pub durable_writes : Bool

-- What follows a text
unfoldable pub strip : String → String → Option String
strip String.[] t = some t
strip (String.◌∷◌ c s) String.[] = none
strip (String.◌∷◌ c s) (String.◌∷◌ d t) = if same_char c d then strip s t else none

onto : Char → Option (String × String) → Option (String × String)
onto c none = none
onto c (some (s, t)) = some (String.◌∷◌ c s, t)

-- What stands before and behind the first `c`
unfoldable pub until : Char → String → Option (String × String)
unfolding onto
until c String.[] = none
until c (String.◌∷◌ d s) = elim (same_char d c) [ true ↦ some ("", s) | false ↦ onto d (until c s) ]

abbrev is_capital : Char → Bool
is_capital c = leb b'A' (code c) && leb (code c) b'Z'

abbrev is_letter : Char → Bool
is_letter c = is_capital c || leb b'a' (code c) && leb (code c) b'z'

-- Letters of ASCII, digits and underscores
unfoldable pub is_identifier_rest : String → Bool
is_identifier_rest String.[] = true
is_identifier_rest (String.◌∷◌ c s) =
    (is_letter c || leb b'0' (code c) && leb (code c) b'9' || same_char c "_")
    && is_identifier_rest s

-- A name that can stand without quotation marks
unfoldable pub is_identifier : String → Bool
unfolding is_identifier_rest
is_identifier String.[] = false
is_identifier (String.◌∷◌ c s) = is_letter c && is_identifier_rest s

unfoldable pub at : ℕ → String → Char → Char
at n String.[] d = d
at zero (String.◌∷◌ c s) d = c
at (suc n) (String.◌∷◌ c s) d = at n s d

-- A name without quotation marks means the one in lower case.
unfoldable pub folded : String → String
unfolding at
folded String.[] = ""
folded (String.◌∷◌ c s) =
    String.◌∷◌ (if is_capital c then at (code c - b'A') "abcdefghijklmnopqrstuvwxyz" c else c)
      (folded s)

unfoldable pub read_name : String → Option String
unfolding is_identifier folded
read_name s = if is_identifier s then some (folded s) else none

infixl 5 ◌>>=◌
abbrev ◌>>=◌ : {A B : Type 0} → Option A → (A → Option B) → Option B
none >>= f = none
some a >>= f = f a

unfoldable pub read_bool : String → Option Bool
read_bool s = if s == "true" then some true else if s == "false" then some false else none

unfoldable pub read_create_keyspace : String → Option Definition
unfolding strip until read_name read_bool read_int
read_create_keyspace text = do
  at_name ← strip "CREATE KEYSPACE IF NOT EXISTS " text
  (identifier, options) ← until " " at_name
  name ← read_name identifier
  at_class ← strip "WITH replication = {'class': '" options
  (class, more) ← until "'" at_class
  at_factor ← strip ", 'replication_factor': " more
  (factor, last) ← until "}" at_factor
  at_writes ← strip " AND durable_writes = " last
  durable ← read_bool at_writes
  some (record {
    name = name;
    class = class;
    replication_factor = read_int factor;
    durable_writes = durable;
  })

pub strip-append : (s t : String) → strip s (s <> t) ≡ some t
unfolding strip
strip-append String.[] t = ap some (nil-append t)
strip-append (String.◌∷◌ c s) t = rw cons-append (ground (arith, strip-append s t))

pub until-append :
    (c : Char) (s t : String) → lacks c s ≡ true → until c (s <> String.◌∷◌ c t) ≡ some (s, t)
unfolding until lacks
until-append c String.[] t h = rw nil-append (ground arith)
until-append c (String.◌∷◌ d s) t h = rw cons-append (ground (arith, until-append c s t))

-- Up to a separator that begins a longer text
pub until_text :
    (c : Char) (s u t : String)
    → lacks c s ≡ true
    → until c (s <> (String.◌∷◌ c u <> t)) ≡ some (s, u <> t)
until_text c s u t h = ap (λ x. until c (s <> x)) (cons-append c u t) ∙ until-append c s (u <> t) h

pub rest_without_space : (s : String) → is_identifier_rest s ≡ true → lacks " " s ≡ true
unfolding is_identifier_rest lacks
rest_without_space String.[] h = refl
rest_without_space (String.◌∷◌ c s) h = ground (arith, rest_without_space s)

pub identifier_without_space : (s : String) → is_identifier s ≡ true → lacks " " s ≡ true
unfolding is_identifier lacks
identifier_without_space String.[] h = refl
identifier_without_space (String.◌∷◌ c s) h = ground (arith, rest_without_space s)
