-- ===== src/Tests/Configure.antt =====
-- A provider with a login and certificates, behind a proxy that the environment names.
use terraform_provider_scyll.Base.{
  map, String, ◌≡◌, refl, Option, none, some, [], ◌∷◌, ◌==◌, if◌then◌else◌, text_discrete,
}
use terraform_provider_scyll.Base.Exec.{Error}
use terraform_provider_scyll.Scylladb.Connect.{http_proxy_env}
use terraform_provider_scyll.Provider.Framework.{null, known, done}
use terraform_provider_scyll.Provider.Configure.{
  AuthLoginUserPassModel, ScylladbProviderModel, configure, missing_password, with_login,
  ca_cert_of, from_file, read_or_explain,
}
use terraform_provider_scyll.Provider.Clients.{
  provider_type_name, resources, role_resource, grant_resource, keyspace_grants_resource,
  table_grants_resource,
}
use terraform_provider_scyll.Provider.Configure.Accepted.{
  IsAccepted, IsComplete, configure-IsAccepted,
}
use terraform_provider_scyll.Tests.Ascii.{in_order}
use terraform_provider_scyll.Tests.Connect.{network}
use terraform_provider_scyll.Tests.Fixtures.{cluster}

abbrev environment : String → String
environment name = if name == "HTTPS_PROXY" then "proxy.example:3128" else ""

abbrev disk : String → String × Option Error
disk path = ("authority", none)

abbrev pub login : AuthLoginUserPassModel
login = record { username = known "terraform"; password = known "secret" }

abbrev pub model : ScylladbProviderModel
model = record {
  host = known "db.example";
  system_auth_keyspace = null;
  skip_host_verification = null;
  ca_cert = null;
  ca_cert_file = known "/etc/ca.pem";
  auth_login_userpass = some login;
  auth_tls = none;
}

same_login : (l : AuthLoginUserPassModel) → some login ≡ some l → login ≡ l
same_login l e = cc

model-IsComplete : IsComplete environment disk network in_order model
unfolding text_discrete ca_cert_of from_file read_or_explain
model-IsComplete = record {
  host = refl;
  password = λ l e. rw (← same_login l e) refl;
  one_authority = refl;
  readable = λ given. refl;
  readable_cert = λ t e. absurd (cc e);
  readable_key = λ t e. absurd (cc e);
  proxy = λ proxied. record {
    parsed = record { scheme = "http"; host = http_proxy_env environment; user = none };
    parses = refl;
    again = λ bare. (_, refl);
    dials = λ url e. refl;
  };
  keyed = record { trusts = λ given. refl; pairs = λ both. (_, refl) };
  opens = λ client e. refl;
}

configure-IsAccepted_example : IsAccepted (configure environment disk network in_order (done model))
configure-IsAccepted_example =
    configure-IsAccepted environment disk network in_order model model-IsComplete

-- A login without a password is an error, though the cluster has it.
without_password :
    (with_login environment disk (some (record login { password = null })) cluster).1
    ≡ missing_password ∷ []
unfolding with_login text_discrete
without_password = refl

-- No two resources have a name in common.
types_of_resources :
    map (λ x. x.type_name provider_type_name) resources
    ≡ "scylladb_role" ∷ "scylladb_grant" ∷ "scylladb_keyspace_grants" ∷ "scylladb_table_grants" ∷ []
unfolding role_resource grant_resource keyspace_grants_resource table_grants_resource
types_of_resources = refl
