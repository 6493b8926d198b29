-- ===== src/Provider/Configure.antt =====
-- `Configure` of internal/provider/provider.go: the client that resources and data sources share.
pub mod Certificates
pub mod Outcome
pub mod Accepted
use terraform_provider_scyll.Base.{
  String, ◌<>◌, Bool, true, false, not, ◌&&◌, ◌||◌, Option, none, some, List, [], ◌∷◌, ◌++◌, ◌==◌,
  if◌then◌else◌,
}
use terraform_provider_scyll.Base.Exec.{Error, error_text, Result, ok, err}
use terraform_provider_scyll.Go.Maps.{RangeOrder}
use terraform_provider_scyll.Scylladb.Cluster.{Cluster}
use terraform_provider_scyll.Scylladb.Grant.{nonempty}
use terraform_provider_scyll.Scylladb.Connect.{
  Network, new_cluster_config, create_session, set_user_password_auth, set_system_auth_keyspace,
  set_tls,
}
use terraform_provider_scyll.Provider.Framework.{
  Value, null, unknown, known, is_null, value_string, value_bool, Diagnostic, explained,
  at_attribute, Fallible, done, failed,
}

pub record AuthLoginUserPassModel : Type 0 where
  pub username : Value String
  pub password : Value String

pub record AuthTlsModel : Type 0 where
  pub cert_file : Value String
  pub key_file : Value String

pub record ScylladbProviderModel : Type 0 where
  pub host : Value String
  pub system_auth_keyspace : Value String
  pub skip_host_verification : Value Bool
  pub ca_cert : Value String
  pub ca_cert_file : Value String
  pub auth_login_userpass : Option AuthLoginUserPassModel
  pub auth_tls : Option AuthTlsModel

-- What `Configure` sets of its response
pub record ConfigureResponse : Type 0 where
  pub diagnostics : List Diagnostic
  pub data_source_data : Option Cluster
  pub resource_data : Option Cluster

abbrev pub refuse : List Diagnostic → ConfigureResponse
refuse ds = record { diagnostics = ds; data_source_data = none; resource_data = none }

missing_host : Diagnostic
missing_host = at_attribute "host" (
    explained "Missing ScyllaDB Host" (
      "The provider cannot create the ScyllaDB client as there is a missing or empty value for the ScyllaDB host. "
      <> "Set the host value in the configuration or use the SCYLLADB_HOST environment variable. "
      <> "If either is already set, ensure the value is not empty."))

no_cluster : Error → Diagnostic
no_cluster e = explained "Unable to Create a Cluster Configuration" (
    "An unexpected error was encountered trying to configure the cluster. "
    <> "Please verify the setup and the values of host and proxy setup. Then, try again.\n\n"
    <> error_text e)

pub missing_password : Diagnostic
missing_password = at_attribute "auth_login_userpass.password" (
    explained "Missing ScyllaDB Password" (
      "The provider cannot create the ScyllaDB client as there is a missing or empty value for the ScyllaDB password. "
      <> "Set the password value in the configuration or use the SCYLLADB_PASSWORD environment variable. "
      <> "If either is already set, ensure the value is not empty."))

conflicting : List Diagnostic
conflicting =
    let conflict =
      explained "Conflicting CA Certificate Configuration"
        "Only one of `ca_cert` or `ca_cert_file` may be set, not both." in
    at_attribute "ca_cert" conflict ∷ at_attribute "ca_cert_file" conflict ∷ []

unreadable : String → String → String → Error → Diagnostic
unreadable path summary what e = at_attribute path (
    explained summary (
      "An unexpected error was encountered trying to read the "
      <> what
      <> " file. "
      <> "Please verify the file path is correct and try again.\n\n"
      <> error_text e))

no_tls : Error → Diagnostic
no_tls e = explained "Unable to Configure TLS for ScyllaDB Client" (
    "An unexpected error was encountered trying to configure TLS for the ScyllaDB client. "
    <> "Please verify the certificate and key files are correct and try again.\n\n"
    <> error_text e)

no_client : Error → Diagnostic
no_client e = explained "Unable to Create ScyllaDB Client" (
    "An unexpected error was encountered trying to create the ScyllaDB client. "
    <> "Please verify the provider configuration values are correct and try again.\n\n"
    <> error_text e)

-- The default from the environment, unless the configuration sets the value
abbrev pub setting : Value String → String → String
setting v from_env = if is_null v then from_env else value_string v

-- `os.ReadFile`: what was read, and an error
unfoldable pub read_or_explain :
    (Error → Diagnostic) → String × Option Error → String × List Diagnostic
read_or_explain explain (content, none) = (content, [])
read_or_explain explain (content, some e) = (content, explain e ∷ [])

module _ (getenv : String → String) (read_file : String → String × Option Error) where
  abbrev pub host_of : ScylladbProviderModel → String
  host_of m = setting m.host (getenv "SCYLLADB_HOST")

  -- A file's content, unless the configuration names none
  unfoldable pub from_file : (Error → Diagnostic) → Value String → String → String × List Diagnostic
  unfolding read_or_explain
  from_file explain v from_env =
      if is_null v then (from_env, []) else read_or_explain explain (read_file (value_string v))

  unfoldable pub ca_cert_of : ScylladbProviderModel → String × List Diagnostic
  unfolding from_file unreadable
  ca_cert_of m =
      let from_env = getenv "SCYLLADB_CA_CERT" in
      if not (is_null m.ca_cert)
      then (value_string m.ca_cert, [])
      else from_file
          (unreadable "ca_cert_file" "Unable to Read CA Certificate File" "CA certificate")
          m.ca_cert_file from_env

  unfoldable pub client_cert_of : Option AuthTlsModel → String × List Diagnostic
  unfolding from_file unreadable
  client_cert_of none = (getenv "SCYLLADB_CLIENT_CERT", [])
  client_cert_of (some t) =
      from_file
        (unreadable "auth_tls.cert_file" "Unable to Read Client Certificate File"
          "client certificate")
        t.cert_file (getenv "SCYLLADB_CLIENT_CERT")

  unfoldable pub client_key_of : Option AuthTlsModel → String × List Diagnostic
  unfolding from_file unreadable
  client_key_of none = (getenv "SCYLLADB_CLIENT_KEY", [])
  client_key_of (some t) =
      from_file (unreadable "auth_tls.key_file" "Unable to Read Client Key File" "client key")
        t.key_file (getenv "SCYLLADB_CLIENT_KEY")

  abbrev pub username_of : AuthLoginUserPassModel → String
  username_of l = setting l.username (getenv "SCYLLADB_USERNAME")

  abbrev pub password_of : AuthLoginUserPassModel → String
  password_of l = setting l.password (getenv "SCYLLADB_PASSWORD")

  -- A missing password is an error, and the run goes on.
  unfoldable pub with_login : Option AuthLoginUserPassModel → Cluster → Cluster × List Diagnostic
  unfolding missing_password
  with_login none c = (c, [])
  with_login (some l) c = (
    set_user_password_auth c (username_of l) (password_of l),
    if password_of l == "" then missing_password ∷ [] else [],
  )

  module _ (N : Network) (order : RangeOrder (Unit {0})) where
    keep_unless : Cluster → Result Cluster → Cluster × List Diagnostic
    unfolding no_tls
    keep_unless c (ok c') = (c', [])
    keep_unless c (err e) = (c, no_tls e ∷ [])

    unfoldable pub with_certificates :
        Cluster → String → String → String → Bool → Cluster × List Diagnostic
    unfolding keep_unless
    with_certificates c ca cert key skip =
        if nonempty ca || nonempty cert || nonempty key
        then keep_unless c (set_tls N c ca cert key (not skip))
        else (c, [])

    session_response : Result Cluster → ConfigureResponse
    unfolding no_client
    session_response (err e) = refuse (no_client e ∷ [])
    session_response (ok c) = record {
      diagnostics = [];
      data_source_data = some c;
      resource_data = some c;
    }

    -- The end: a session, unless there is an error already
    unfoldable pub finish : Cluster → List Diagnostic → ConfigureResponse
    unfolding session_response
    finish c (d ∷ ds) = refuse (d ∷ ds)
    finish c [] = session_response (create_session N c)

    -- Behind the login
    unfoldable pub configure_tls :
        ScylladbProviderModel → Cluster → List Diagnostic → ConfigureResponse
    unfolding conflicting finish
    configure_tls m c ds =
        let (ca, ds₁) = ca_cert_of m in
        let (cert, ds₂) = client_cert_of m.auth_tls in
        let (key, ds₃) = client_key_of m.auth_tls in
        let (c', ds₄) = with_certificates c ca cert key (value_bool m.skip_host_verification) in
        if not (is_null m.ca_cert) && not (is_null m.ca_cert_file)
        then refuse (ds ++ conflicting)
        else finish c' (ds ++ (ds₁ ++ (ds₂ ++ (ds₃ ++ ds₄))))

    abbrev pub keyspace_of : ScylladbProviderModel → String
    keyspace_of m = setting m.system_auth_keyspace "system"

    configure_cluster : ScylladbProviderModel → Result Cluster → ConfigureResponse
    unfolding no_cluster configure_tls
    configure_cluster m (err e) = refuse (no_cluster e ∷ [])
    configure_cluster m (ok client) =
        let (c, ds) =
          with_login m.auth_login_userpass (set_system_auth_keyspace client (keyspace_of m)) in
        configure_tls m c ds

    configure_model : ScylladbProviderModel → ConfigureResponse
    unfolding missing_host configure_cluster
    configure_model m =
        if host_of m == ""
        then refuse (missing_host ∷ [])
        else configure_cluster m (new_cluster_config N order getenv (host_of m ∷ []))

    -- The argument is what `req.Config.Get` decodes.
    unfoldable pub configure : Fallible ScylladbProviderModel → ConfigureResponse
    unfolding configure_model
    configure (failed ds) = refuse ds
    configure (done m) = configure_model m
