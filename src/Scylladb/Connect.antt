-- ===== src/Scylladb/Connect.antt =====
-- scylladb/session.go and the environment variable of scylladb/proxy_dialer.go: how a cluster is
-- configured, with or without a proxy, and how its hosts are dialed.
pub mod Hosts
pub mod Octets
pub mod Tls
pub mod Online
use terraform_provider_scyll.Base.{
  ℕ, suc, ◌+◌, ◌/◌, ◌%◌, String, ◌<>◌, Bool, true, false, not, ◌&&◌, Option, none, some, List, [],
  ◌∷◌, ◌==◌, if◌then◌else◌,
}
use terraform_provider_scyll.Base.Dict
use terraform_provider_scyll.Base.Dict.{Dict}
use terraform_provider_scyll.Base.Exec.{error_text, message, Result, ok, err}
use terraform_provider_scyll.Go.Maps.{RangeOrder}
use terraform_provider_scyll.Go.Strconv.{decimal}
use terraform_provider_scyll.Scylladb.Grant.{nonempty}
use terraform_provider_scyll.Scylladb.Cluster.{
  Url, TlsConfig, SslOptions, PasswordAuthenticator, ProxyHostDialer, ClusterConfig, Cluster,
}

-- What the code calls of `net`, `net/url`, `golang.org/x/net/proxy`, `crypto/tls`, `crypto/x509` and
-- `gocql`.
pub record Network : Type 1 where
  pub Conn : Type 0
  pub split_host_port : String → Result (String × String)
  pub join_host_port : String → String → String
  pub parse_url : String → Result Url
  -- `proxy.FromURL`: whether a dialer can be made from the URL
  pub from_url : Url → Result (Unit {0})
  -- `AppendCertsFromPEM` on an empty pool
  pub append_certs : String → Bool
  -- `tls.X509KeyPair`
  pub key_pair : String → String → Result (String × String)
  -- `gocql.NewCluster`
  pub new_cluster : List String → ClusterConfig
  -- `CreateSession` of gocql's configuration
  pub open_session : ClusterConfig → Result (Unit {0})
  -- the dialer made from a URL
  pub dial : Url → String → Result Conn
  -- `gocql.WrapTLS`
  pub wrap_tls : Conn → String → TlsConfig → Result Conn

-- `envOnce`: the first variable that is set; the environment is the one at the first call.
unfoldable pub env_init : (String → String) → List String → String
env_init getenv [] = ""
env_init getenv (n ∷ ns) =
    let rest = env_init getenv ns in if nonempty (getenv n) then getenv n else rest

abbrev pub http_proxy_env : (String → String) → String
http_proxy_env getenv =
    env_init getenv ("HTTP_PROXY" ∷ "http_proxy" ∷ "HTTPS_PROXY" ∷ "https_proxy" ∷ [])

unfoldable pub dummy_host : ℕ → String
dummy_host i = "127.0." <> decimal (i / 254) <> "." <> decimal (i % 254 + 1)

module _ (N : Network) where
  join_parts : String → Result (String × String) → String
  join_parts host_name (ok (host_part, port_part)) = N.join_host_port host_part port_part
  join_parts host_name (err e) = N.join_host_port host_name "9042"

  -- The address of a host, with the default port where it names none
  unfoldable pub address : String → String
  unfolding join_parts
  address host_name = join_parts host_name (N.split_host_port host_name)

  -- The loop of `createProxyHostMap`, from an index
  unfoldable pub add_hosts : ℕ → Dict String → List String → Dict String
  add_hosts i d [] = d
  add_hosts i d (h ∷ hs) = add_hosts (suc i) (Dict.insert (dummy_host i) (address h) d) hs

  unfoldable pub create_proxy_host_map : List String → Dict String
  unfolding add_hosts
  create_proxy_host_map hosts = add_hosts 0 [] hosts

  with_proxy_url : String → Result Url → Result Url
  with_proxy_url proxy_addr (ok url) = ok url
  with_proxy_url proxy_addr (err e) =
      err (message ("failed to parse proxy address " <> proxy_addr <> ": " <> error_text e))

  -- An address without a scheme is tried again as one of http.
  retry_url : String → Result Url → Result Url
  unfolding with_proxy_url
  retry_url proxy_addr (err e) = err e
  retry_url proxy_addr (ok url) =
      if url.host == ""
      then with_proxy_url proxy_addr (N.parse_url ("http://" <> proxy_addr))
      else ok url

  unfoldable pub proxy_url : String → Result Url
  unfolding retry_url with_proxy_url
  proxy_url proxy_addr = retry_url proxy_addr (with_proxy_url proxy_addr (N.parse_url proxy_addr))

  module _ (order : RangeOrder (Unit {0})) where
    open order use {visit}

    made_dialer : List String → Url → Result (Unit {0}) → Result (ProxyHostDialer × List String)
    made_dialer hosts url (err e) = err e
    made_dialer hosts url (ok _) =
        let host_map = create_proxy_host_map hosts in
        ok (
          record { proxy_dialer = url; tls_config = none; host_map = host_map },
          visit tt (Dict.keys host_map),
        )

    dialer_of_url : List String → Result Url → Result (ProxyHostDialer × List String)
    unfolding made_dialer
    dialer_of_url hosts (err e) = err e
    dialer_of_url hosts (ok url) = made_dialer hosts url (N.from_url url)

    unfoldable pub get_proxy_host_dialer :
        List String → String → Result (ProxyHostDialer × List String)
    unfolding dialer_of_url
    get_proxy_host_dialer hosts proxy_addr = dialer_of_url hosts (proxy_url proxy_addr)

    abbrev configured : Option ProxyHostDialer → ClusterConfig → Cluster
    configured dialer config = record {
      cluster = record config {
        host_dialer = elim dialer [ none ↦ config.host_dialer | some d ↦ some d ];
        disable_initial_host_lookup = true;
        num_conns = 1;
      };
      system_auth_keyspace_name = "system_auth";
      session = false;
    }

    cluster_of_dialer : Result (ProxyHostDialer × List String) → Result Cluster
    cluster_of_dialer (err e) = err e
    cluster_of_dialer (ok (dialer, dummies)) = ok (configured (some dialer) (N.new_cluster dummies))

    unfoldable pub new_cluster_config_with_proxy :
        (String → String) → List String → String → Result Cluster
    unfolding cluster_of_dialer
    new_cluster_config_with_proxy getenv hosts given =
        let proxy_addr = if given == "" then http_proxy_env getenv else given in
        if proxy_addr == ""
        then ok (configured none (N.new_cluster hosts))
        else cluster_of_dialer (get_proxy_host_dialer hosts proxy_addr)

    unfoldable pub new_cluster_config : (String → String) → List String → Result Cluster
    unfolding new_cluster_config_with_proxy
    new_cluster_config getenv hosts = new_cluster_config_with_proxy getenv hosts ""

  -- What `SetTLS` does with a configuration that it has made
  unfoldable pub with_tls : Cluster → TlsConfig → Bool → Cluster
  with_tls c tls verify = record c {
    cluster = record c.cluster {
      ssl_opts = some (record { config = tls; enable_host_verification = verify });
      host_dialer = elim c.cluster.host_dialer [
        | none ↦ none
        | some d ↦ some (record d { tls_config = some tls })
      ];
    };
  }

  with_key_pair : Cluster → String → Bool → Result (String × String) → Result Cluster
  unfolding with_tls
  with_key_pair c ca verify (err e) = err e
  with_key_pair c ca verify (ok pair) = ok (
      with_tls c
        (record { root_cas = ca; insecure_skip_verify = not verify; certificate = some pair })
        verify)

  unfoldable pub set_tls : Cluster → String → String → String → Bool → Result Cluster
  unfolding with_key_pair with_tls
  set_tls c ca_cert client_cert client_key verify =
      if not (N.append_certs ca_cert)
      then err (message "failed to append CA certificate")
      else if nonempty client_cert && nonempty client_key
      then with_key_pair c ca_cert verify (N.key_pair client_cert client_key)
      else ok (
          with_tls c
            (record { root_cas = ca_cert; insecure_skip_verify = not verify; certificate = none })
            verify)

  unfoldable pub opened : Cluster → Result (Unit {0}) → Result Cluster
  opened c (ok _) = ok (record c { session = true })
  opened c (err e) = err e

  unfoldable pub create_session : Cluster → Result Cluster
  unfolding opened
  create_session c = opened c (N.open_session c.cluster)

  -- `ConnectAddress` and `ConnectAddressAndPort` of the host that gocql asks for
  unfoldable pub real_host : ProxyHostDialer → String → String → String
  real_host d connect_address address_and_port =
      Dict.get_or connect_address d.host_map address_and_port

  wrap_conn : ProxyHostDialer → String → Result N.Conn → Result N.Conn
  wrap_conn d host (err e) =
      err (message ("failed to dial " <> host <> " through proxy: " <> error_text e))
  wrap_conn d host (ok conn) = elim d.tls_config [
    | none ↦ ok conn
    | some tls ↦ N.wrap_tls conn host tls
  ]

  unfoldable pub dial_host : ProxyHostDialer → String → String → Result N.Conn
  unfolding wrap_conn
  dial_host d connect_address address_and_port =
      let host = real_host d connect_address address_and_port in
      wrap_conn d host (N.dial d.proxy_dialer host)

unfoldable pub set_user_password_auth : Cluster → String → String → Cluster
set_user_password_auth c username password = record c {
  cluster = record c.cluster {
    authenticator = some (record { username = username; password = password });
  };
}

unfoldable pub set_system_auth_keyspace : Cluster → String → Cluster
set_system_auth_keyspace c name = record c { system_auth_keyspace_name = name }
