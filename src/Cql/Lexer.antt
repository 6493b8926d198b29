-- ===== src/Cql/Lexer.antt =====
-- The tokens of a CQL statement. In a quoted identifier `""` stands for one quotation mark.
use text.Mathlib.TextLemmas.{append-nil, nil-append, cons-append, append_assoc}
use terraform_provider_scyll.Base.{
  Char, String, ◌<>◌, ◌≡◌, Bool, true, false, Option, none, some, List, [], ◌∷◌, ◌++◌, arith,
  if◌then◌else◌,
}
use terraform_provider_scyll.Go.Strings.{same_char, lacks}

pub data Token : Type 0 where
  word : String → Token
  quoted : String → Token
  period : Token

pub data Mode : Type 0 where
  between : Mode
  in_word : String → Mode
  in_quotes : String → Mode
  -- behind a quotation mark that may be the first of two
  closing : String → Mode

-- The tokens read, and what is being read.
abbrev pub Lex : Type 0
Lex = List Token × Mode

pub data Class : Type 0 where
  blank mark dot plain : Class

classify : Char → Class
classify c =
    if same_char c " "
    then blank
    else if same_char c "\""
    then mark
    else if same_char c "."
    then dot
    else plain

abbrev start : List Token → Char → Class → Lex
start out c blank = (out, between)
start out c mark = (out, in_quotes "")
start out c dot = (out ++ period ∷ [], between)
start out c plain = (out, in_word (String.◌∷◌ c ""))

abbrev step_quotes : List Token → String → Char → Class → Lex
step_quotes out q c mark = (out, closing q)
step_quotes out q c k = (out, in_quotes (q <> String.◌∷◌ c ""))

abbrev step_word : List Token → String → Char → Class → Lex
step_word out w c plain = (out, in_word (w <> String.◌∷◌ c ""))
step_word out w c k = start (out ++ word w ∷ []) c k

abbrev step_closing : List Token → String → Char → Class → Lex
step_closing out q c mark = (out, in_quotes (q <> "\""))
step_closing out q c k = start (out ++ quoted q ∷ []) c k

step : Lex → Char → Lex
unfolding classify
step (out, between) c = start out c (classify c)
step (out, in_word w) c = step_word out w c (classify c)
step (out, in_quotes q) c = step_quotes out q c (classify c)
step (out, closing q) c = step_closing out q c (classify c)

unfoldable pub run : Lex → String → Lex
unfolding step
run l String.[] = l
run l (String.◌∷◌ c s) = run (step l c) s

unfoldable pub finish : Lex → Option (List Token)
finish (out, between) = some out
finish (out, in_word w) = some (out ++ word w ∷ [])
finish (out, in_quotes q) = none
finish (out, closing q) = some (out ++ quoted q ∷ [])

unfoldable pub tokens : String → Option (List Token)
tokens s = finish (run ([], between) s)

-- No blank, quotation mark or period.
unfoldable pub is_word : String → Bool
unfolding classify
is_word String.[] = true
is_word (String.◌∷◌ c s) = elim (classify c) [ plain ↦ is_word s | _ ↦ false ]

pub run-append : (l : Lex) (s t : String) → run l (s <> t) ≡ run (run l s) t
unfolding run
run-append l String.[] t = rw nil-append
run-append l (String.◌∷◌ c s) t = rw cons-append (run-append (step l c) s t)

snoc : (s : String) (c : Char) (t : String) → (s <> String.◌∷◌ c "") <> t ≡ s <> String.◌∷◌ c t
snoc s c t = rw (append_assoc, cons-append, nil-append)

run_in_word :
    (out : List Token) (w s : String)
    → is_word s ≡ true
    → run (out, in_word w) s ≡ (out, in_word (w <> s))
unfolding run is_word
run_in_word out w String.[] h = rw append-nil
run_in_word out w (String.◌∷◌ c s) h =
    ground (arith, run_in_word out (w <> String.◌∷◌ c "") s, snoc w c s)

-- A word is read whole.
pub run_word :
    (out : List Token) (c : Char) (s : String)
    → is_word (String.◌∷◌ c s) ≡ true
    → run (out, between) (String.◌∷◌ c s) ≡ (out, in_word (String.◌∷◌ c s))
unfolding run is_word
run_word out c s h =
    ground (arith, run_in_word out (String.◌∷◌ c "") s, cons-append c "" s, nil-append s)

-- A name with no quotation mark is read whole between two of them.
pub run_quoted :
    (out : List Token) (q s : String)
    → lacks "\"" s ≡ true
    → run (out, in_quotes q) s ≡ (out, in_quotes (q <> s))
unfolding run lacks
run_quoted out q String.[] h = rw append-nil
run_quoted out q (String.◌∷◌ c s) h =
    ground (arith, run_quoted out (q <> String.◌∷◌ c "") s, snoc q c s)
