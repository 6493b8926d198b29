-- ===== src/Tests/Environment.antt =====
-- A process whose environment changes between two calls of `Get`.
use terraform_provider_scyll.Base.{
  String, ◌≡◌, refl, List, [], ◌∷◌, ◌==◌, All, if◌then◌else◌, text_discrete,
}
use terraform_provider_scyll.Scylladb.EnvOnce.{IsFirstSet, fresh, gets, get, gets-IsFirstSet}
use terraform_provider_scyll.Scylladb.Connect.{env_init}

abbrev names : List String
names = "HTTP_PROXY" ∷ "http_proxy" ∷ "HTTPS_PROXY" ∷ "https_proxy" ∷ []

abbrev at_first : String → String
at_first name = if name == "HTTPS_PROXY" then "proxy:3128" else ""

abbrev afterwards : String → String
afterwards name = "other:80"

gets-IsFirstSet_example :
    All (IsFirstSet at_first names) (gets (fresh names) (at_first ∷ afterwards ∷ []))
gets-IsFirstSet_example = gets-IsFirstSet names at_first (afterwards ∷ [])

gets_values : gets (fresh names) (at_first ∷ afterwards ∷ []) ≡ "proxy:3128" ∷ "proxy:3128" ∷ []
unfolding gets get env_init text_discrete
gets_values = refl
