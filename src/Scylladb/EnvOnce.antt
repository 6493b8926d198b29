-- ===== src/Scylladb/EnvOnce.antt =====
-- `envOnce` of scylladb/proxy_dialer.go with its state: what later changes of the environment do.
use terraform_provider_scyll.Base.{
  String, ◌≡◌, refl, sym, subst, Bool, true, false, List, [], ◌∷◌, All, if◌then◌else◌, Bool-cases,
  inl, inr,
}
use terraform_provider_scyll.Scylladb.Grant.{nonempty}
use terraform_provider_scyll.Scylladb.Connect.{env_init}

pub record EnvOnce : Type 0 where
  pub names : List String
  -- whether `once` has run
  pub done : Bool
  pub val : String

unfoldable pub get : (String → String) → EnvOnce → String × EnvOnce
get getenv e =
    if e.done
    then (e.val, e)
    else (env_init getenv e.names, record e { done = true; val = env_init getenv e.names })

abbrev pub fresh : List String → EnvOnce
fresh names = record { names = names; done = false; val = "" }

-- Calls of `Get`, each in the environment that it finds
unfoldable pub gets : EnvOnce → List (String → String) → List String
gets e [] = []
gets e (getenv ∷ later) = (get getenv e).0 ∷ gets (get getenv e).1 later

-- The value of the first name that is set, or nothing if none is
pub data IsFirstSet (getenv : String → String) : List String → String → Type 0 where
  none_set : IsFirstSet getenv [] ""
  set :
      (n : String) (ns : List String)
      → nonempty (getenv n) ≡ true
      → IsFirstSet getenv (n ∷ ns) (getenv n)
  unset :
      (n v : String) (ns : List String)
      → nonempty (getenv n) ≡ false
      → IsFirstSet getenv ns v
      → IsFirstSet getenv (n ∷ ns) v

env_init-IsFirstSet :
    (getenv : String → String) (names : List String)
    → IsFirstSet getenv names (env_init getenv names)
unfolding env_init
env_init-IsFirstSet getenv [] = none_set
env_init-IsFirstSet getenv (n ∷ ns) = elim (Bool-cases (nonempty (getenv n))) [
  | inl given ↦ rw given (set n ns given)
  | inr lacking ↦ rw lacking (unset n _ ns lacking (env_init-IsFirstSet getenv ns))
]

gets_done :
    (names : List String) (v : String) (envs : List (String → String))
    → All (λ x. x ≡ v) (gets (record { names = names; done = true; val = v }) envs)
unfolding gets get
gets_done names v [] = tt
gets_done names v (getenv ∷ later) = (refl, gets_done names v later)

-- However the environment changes between the calls of `Get`, each of them gives the value of the
-- first name that was set at the first call, or nothing if none was.
pub gets-IsFirstSet :
    (names : List String) (first : String → String) (later : List (String → String))
    → All (IsFirstSet first names) (gets (fresh names) (first ∷ later))
unfolding gets get
gets-IsFirstSet names first later =
    (env_init-IsFirstSet first names, all_first _ (gets_done names (env_init first names) later))
  where
    all_first :
        (vs : List String)
        → All (λ x. x ≡ env_init first names) vs
        → All (IsFirstSet first names) vs
    all_first [] h = tt
    all_first (v ∷ vs) (same, rest) = (
      subst (IsFirstSet first names) (sym same) (env_init-IsFirstSet first names),
      all_first vs rest,
    )
