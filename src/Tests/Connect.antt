-- ===== src/Tests/Connect.antt =====
-- A network whose addresses all have a port in front of a slash, and clusters on it.
use terraform_provider_scyll.Base.{
  String, ◌<>◌, ◌≡◌, refl, true, false, none, some, List, [], ◌∷◌, contains, ◌==◌, text_discrete,
  arith,
}
use terraform_provider_scyll.Base.Dict
use terraform_provider_scyll.Base.Exec.{message, ok, err}
use terraform_provider_scyll.Go.Strconv.{decimal}
use terraform_provider_scyll.Scylladb.Cluster.{ProxyHostDialer, ClusterConfig, Cluster}
use terraform_provider_scyll.Scylladb.Connect.{
  Network, dummy_host, address, create_proxy_host_map, get_proxy_host_dialer, proxy_url, real_host,
  set_tls, with_tls,
}
use terraform_provider_scyll.Scylladb.Connect.Hosts.{get_proxy_host_dialer-hosts}
use terraform_provider_scyll.Scylladb.Connect.Octets.{IsLoopback, get_proxy_host_dialer-IsLoopback}
use terraform_provider_scyll.Scylladb.Connect.Tls.{IsSecured, set_tls-IsSecured}
use terraform_provider_scyll.Tests.Ascii.{in_order}
use terraform_provider_scyll.Tests.Fixtures.{cluster}

abbrev config_of : List String → ClusterConfig
config_of hosts = record {
  hosts = hosts;
  host_dialer = none;
  authenticator = none;
  ssl_opts = none;
  disable_initial_host_lookup = false;
  num_conns = 2;
}

-- No host names a port, and every URL is one of http.
abbrev pub network : Network
network = record {
  Conn = String;
  split_host_port = λ host. err (message "missing port in address");
  join_host_port = λ host port. host <> ":" <> port;
  parse_url = λ text. ok (record { scheme = "http"; host = text; user = none });
  from_url = λ url. ok tt;
  append_certs = λ pem. pem == "authority";
  key_pair = λ cert key. ok (cert, key);
  new_cluster = config_of;
  open_session = λ config. ok tt;
  dial = λ url host. ok host;
  wrap_tls = λ conn host tls. ok conn;
}

abbrev hosts : List String
hosts = "a.example" ∷ "b.example" ∷ []

abbrev dialer : ProxyHostDialer
dialer = record {
  proxy_dialer = record { scheme = "http"; host = "proxy:3128"; user = none };
  tls_config = none;
  host_map = create_proxy_host_map network hosts;
}

second_dummy : dummy_host 1 ≡ "127.0.0.2"
unfolding dummy_host decimal
second_dummy = refl

get_proxy_host_dialer-hosts_example :
    (contains (Dict.keys (create_proxy_host_map network hosts)) "127.0.0.2" ≡ true)
    × ((fallback : String) → real_host network dialer "127.0.0.2" fallback ≡ "b.example:9042")
unfolding dummy_host decimal get_proxy_host_dialer proxy_url text_discrete address
get_proxy_host_dialer-hosts_example =
    get_proxy_host_dialer-hosts network in_order hosts "proxy:3128" dialer
      (Dict.keys (create_proxy_host_map network hosts)) 1 "b.example" refl refl

get_proxy_host_dialer-IsLoopback_example : IsLoopback "127.0.0.2"
unfolding dummy_host decimal get_proxy_host_dialer proxy_url text_discrete address Dict.keys
    create_proxy_host_map Dict.insert
get_proxy_host_dialer-IsLoopback_example =
    get_proxy_host_dialer-IsLoopback network in_order hosts "proxy:3128" dialer
      (Dict.keys (create_proxy_host_map network hosts)) "127.0.0.2" refl (omega arith) refl

-- One host more than the range has: the third octet is no octet.
beyond : dummy_host 65024 ≡ "127.0.256.1"
unfolding dummy_host decimal
beyond = refl

abbrev proxied : Cluster
proxied = record cluster { cluster = record (config_of hosts) { host_dialer = some dialer } }

abbrev secured : Cluster
secured =
    with_tls network proxied
      (record {
        root_cas = "authority";
        insecure_skip_verify = false;
        certificate = some ("c", "k");
      })
      true

set_tls-IsSecured_example :
    (network.append_certs "authority" ≡ true) × IsSecured proxied "authority" true secured
unfolding set_tls text_discrete
set_tls-IsSecured_example = set_tls-IsSecured network proxied secured "authority" "c" "k" true refl
