-- ===== src/Scylladb/Cluster.antt =====
-- The types of scylladb/session.go and scylladb/proxy_dialer.go. A `tls.Config` is what the code puts
-- into it; a dialer that `proxy.FromURL` makes is the URL that it was made from.
use terraform_provider_scyll.Base.{ℕ, String, Bool, Option, List}
use terraform_provider_scyll.Base.Dict.{Dict}

-- `url.URL`, as far as the code reads it: `User` is the name and the password.
pub record Url : Type 0 where
  pub scheme : String
  pub host : String
  pub user : Option (String × String)

pub record TlsConfig : Type 0 where
  pub root_cas : String
  pub insecure_skip_verify : Bool
  pub certificate : Option (String × String)

pub record SslOptions : Type 0 where
  pub config : TlsConfig
  pub enable_host_verification : Bool

pub record PasswordAuthenticator : Type 0 where
  pub username : String
  pub password : String

pub record ProxyHostDialer : Type 0 where
  pub proxy_dialer : Url
  pub tls_config : Option TlsConfig
  pub host_map : Dict String

-- `gocql.ClusterConfig`, its fields that the code sets
pub record ClusterConfig : Type 0 where
  pub hosts : List String
  pub host_dialer : Option ProxyHostDialer
  pub authenticator : Option PasswordAuthenticator
  pub ssl_opts : Option SslOptions
  pub disable_initial_host_lookup : Bool
  pub num_conns : ℕ

-- The session of a configured cluster is the parameter `Session` of the modules that query; here
-- it is only whether there is one.
pub record Cluster : Type 0 where
  pub cluster : ClusterConfig
  pub system_auth_keyspace_name : String
  pub session : Bool
