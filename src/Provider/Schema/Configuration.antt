-- ===== src/Provider/Schema/Configuration.antt =====
-- `Schema` of internal/provider/provider.go
use terraform_provider_scyll.Base.{true, Option, none, some, List, [], ◌∷◌}
use terraform_provider_scyll.Base.Dict.{Dict}
use terraform_provider_scyll.Provider.Configure.{
  AuthLoginUserPassModel, AuthTlsModel, ScylladbProviderModel,
}
use terraform_provider_scyll.Provider.Schema.{
  of_text, of_flag, optional, attribute, Block, Schema, Datum, text_datum, flag_datum, Fields,
}

abbrev pub login_block : Block
login_block = record {
  name = "auth_login_userpass";
  single = true;
  description = "Login to ScyllaDB using the userpass method";
  attributes =
      attribute "username" of_text optional
        "Login with username. Can also be set via the SCYLLADB_USERNAME environment variable."
      ∷ record (attribute "password" of_text optional
          "Login with password. Can also be set via the SCYLLADB_PASSWORD environment variable.") {
            sensitive = true;
          }
      ∷ [];
  validators = [];
}

abbrev pub tls_block : Block
tls_block = record {
  name = "auth_tls";
  single = true;
  description = "Login to ScyllaDB using TLS";
  attributes =
      attribute "cert_file" of_text optional
        "Path to the client certificate file for TLS connections"
      ∷ attribute "key_file" of_text optional "Path to the client key file for TLS connections"
      ∷ [];
  validators = [];
}

abbrev pub provider_schema : Schema
provider_schema = record {
  description = "Configure access to ScyllaDB.";
  attributes =
      attribute "host" of_text optional
        "Hostname or IP address of the ScyllaDB instance with a port if necessary. e.g. localhost:9042"
      ∷ attribute "system_auth_keyspace" of_text optional
          "The keyspace where ScyllaDB stores authentication and authorization information. Default is `system`."
      ∷ attribute "ca_cert" of_text optional
          "PEM-encoded CA certificate content for TLS connections. Mutually exclusive with `ca_cert_file`. Can also be set via the `SCYLLADB_CA_CERT` environment variable."
      ∷ attribute "ca_cert_file" of_text optional
          "Path to the CA certificate file for TLS connections. Mutually exclusive with `ca_cert`."
      ∷ attribute "skip_host_verification" of_flag optional
          "Skip TLS host verification. Default is `false`."
      ∷ [];
  blocks = login_block ∷ tls_block ∷ [];
}

-- The models by the tags of their fields

abbrev pub fields_of_login : Option AuthLoginUserPassModel → List (Dict Datum)
fields_of_login none = []
fields_of_login (some l) =
    (("username", text_datum l.username) ∷ ("password", text_datum l.password) ∷ []) ∷ []

abbrev pub fields_of_tls : Option AuthTlsModel → List (Dict Datum)
fields_of_tls none = []
fields_of_tls (some t) =
    (("cert_file", text_datum t.cert_file) ∷ ("key_file", text_datum t.key_file) ∷ []) ∷ []

abbrev pub fields_of_provider : ScylladbProviderModel → Fields
fields_of_provider m = record {
  attributes =
      ("host", text_datum m.host)
      ∷ ("system_auth_keyspace", text_datum m.system_auth_keyspace)
      ∷ ("skip_host_verification", flag_datum m.skip_host_verification)
      ∷ ("ca_cert", text_datum m.ca_cert)
      ∷ ("ca_cert_file", text_datum m.ca_cert_file)
      ∷ [];
  blocks =
      ("auth_login_userpass", fields_of_login m.auth_login_userpass)
      ∷ ("auth_tls", fields_of_tls m.auth_tls)
      ∷ [];
}
