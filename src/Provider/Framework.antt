-- ===== src/Provider/Framework.antt =====
-- What the resources use of terraform-plugin-framework, which they call and do not implement:
-- values, diagnostics, and a handler's response. A handler appends an error and returns, so its
-- response is either a state that it sets or the errors that it stopped at; then the framework
-- keeps the state that it had filled in. Setting a state of the schema's own types does not fail.
pub mod Laws
use terraform_provider_scyll.Base.{String, Bool, true, false, Option, none, some, List, [], ◌∷◌}
use terraform_provider_scyll.Base.Exec.{Error, Result, ok, err, Exec}

-- `types.String`, `types.Bool`, `types.List`, `types.Set`
pub data Value (A : Type 0) : Type 0 where
  null unknown : Value A
  known : A → Value A

abbrev pub is_null : {A : Type 0} → Value A → Bool
is_null null = true
is_null _ = false

abbrev pub value_string : Value String → String
value_string (known s) = s
value_string _ = ""

abbrev pub value_bool : Value Bool → Bool
value_bool (known b) = b
value_bool _ = false

-- An error. One that a call of `Error()` details keeps the error.
pub data Diagnostic : Type 0 where
  caused : String → Error → Diagnostic
  explained : String → String → Diagnostic
  -- an error at an attribute's path
  at_attribute : String → Diagnostic → Diagnostic
  -- what the framework says of a value that it cannot convert
  conversion : Diagnostic

pub data Fallible (A : Type 0) : Type 0 where
  done : A → Fallible A
  failed : List Diagnostic → Fallible A

-- A handler, over the state of the database
abbrev pub Handler : Type 0 → Type 0 → Type 0
Handler T A = T → Fallible A × T

abbrev pub with_summary : {A : Type 0} → String → Result A → Fallible A
with_summary summary (ok a) = done a
with_summary summary (err e) = failed (caused summary e ∷ [])

module _ {T A : Type 0} where
  abbrev pub return : A → Handler T A
  return a t = (done a, t)

  abbrev pub stop : Diagnostic → Handler T A
  stop d t = (failed (d ∷ []), t)

  -- `resp.Diagnostics.Append(...)`, and a return if there is an error
  abbrev pub check : Fallible A → Handler T A
  check r t = (r, t)

  -- A call of the client whose error is added under a summary
  abbrev pub call : String → Exec T A → Handler T A
  call summary m t = (with_summary summary (m t).0, (m t).1)

module _ {T A B : Type 0} where
  abbrev pub follow : Fallible A → (A → Handler T B) → Handler T B
  follow (done a) f t = f a t
  follow (failed ds) f t = (failed ds, t)

  infixl 5 ◌>>=◌ ◌>>◌
  abbrev pub ◌>>=◌ : Handler T A → (A → Handler T B) → Handler T B
  ◌>>=◌ m f t = follow (m t).0 f (m t).1

  abbrev pub ◌>>◌ : Handler T A → Handler T B → Handler T B
  m >> n = m >>= λ _. n

-- The elements as texts: a null or unknown element does not convert.
unfoldable pub texts_of : List (Value String) → Fallible (List String)
texts_of [] = done []
texts_of (known s ∷ vs) = elim (texts_of vs) [ done ss ↦ done (s ∷ ss) | failed ds ↦ failed ds ]
texts_of (_ ∷ vs) = failed (conversion ∷ [])

-- `ElementsAs` into a slice of strings
unfoldable pub elements_as : Value (List (Value String)) → Fallible (List String)
unfolding texts_of
elements_as null = done []
elements_as unknown = failed (conversion ∷ [])
elements_as (known vs) = texts_of vs

-- `SetValueFrom` and `ListValueFrom` of a slice of strings that is not nil
unfoldable pub value_from : List String → List (Value String)
value_from [] = []
value_from (s ∷ ss) = known s ∷ value_from ss

-- `ListValueFrom` of a slice of strings that can be nil
unfoldable pub list_value_from : Option (List String) → Value (List (Value String))
list_value_from none = null
list_value_from (some ss) = known (value_from ss)
