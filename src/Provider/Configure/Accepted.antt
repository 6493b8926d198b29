-- ===== src/Provider/Configure/Accepted.antt =====
-- A configuration that is complete is accepted.
use terraform_provider_scyll.Base.{
  String, ◌≡◌, refl, Bool, true, false, not, ◌&&◌, ◌||◌, Option, none, some, List, [], ◌∷◌, ◌==◌,
  Bool-cases, inl, inr,
}
use terraform_provider_scyll.Base.Exec.{Error, Result, ok, err}
use terraform_provider_scyll.Go.Maps.{RangeOrder}
use terraform_provider_scyll.Scylladb.Cluster.{Cluster}
use terraform_provider_scyll.Scylladb.Grant.{nonempty}
use terraform_provider_scyll.Scylladb.Connect.{
  Network, http_proxy_env, new_cluster_config, opened, create_session, set_system_auth_keyspace,
  set_tls,
}
use terraform_provider_scyll.Scylladb.Connect.Online.{
  IsOk, IsProxy, IsKeyed, new_cluster_config-IsOk, set_tls-IsOk,
}
use terraform_provider_scyll.Provider.Framework.{
  Value, is_null, value_string, value_bool, Diagnostic, done,
}
use terraform_provider_scyll.Provider.Configure.{
  AuthLoginUserPassModel, AuthTlsModel, ScylladbProviderModel, ConfigureResponse, host_of,
  read_or_explain, from_file, ca_cert_of, client_cert_of, client_key_of, password_of, keyspace_of,
  with_login, keep_unless, with_certificates, finish, session_response, configure_tls,
  configure_cluster, configure_model, configure,
}

-- One client for resources and data sources, and no error
abbrev pub IsAccepted : ConfigureResponse → Type 0
IsAccepted r =
    (c : Cluster) × (r.diagnostics ≡ [])
    × (r.data_source_data ≡ some c)
    × (r.resource_data ≡ some c)

module _ (getenv : String → String) (read_file : String → String × Option Error) where
  -- The file of a value, where there is one, can be read.
  abbrev IsReadable : Value String → Type 0
  IsReadable v = is_null v ≡ false → (read_file (value_string v)).1 ≡ none

  read_or_explain_silent :
      (explain : Error → Diagnostic) (r : String × Option Error)
      → r.1 ≡ none
      → (read_or_explain explain r).1 ≡ []
  unfolding read_or_explain
  read_or_explain_silent explain (content, none) h = refl
  read_or_explain_silent explain (content, some e) h = absurd (cc h)

  from_file_silent :
      (explain : Error → Diagnostic) (v : Value String) (from_env : String)
      → IsReadable v
      → (from_file getenv read_file explain v from_env).1 ≡ []
  unfolding from_file
  from_file_silent explain v from_env readable = elim (Bool-cases (is_null v)) [
    | inl lacking ↦ rw lacking refl
    | inr given ↦
        rw given (read_or_explain_silent explain (read_file (value_string v)) (readable given))
  ]

  ca_cert_of_silent :
      (m : ScylladbProviderModel)
      → IsReadable m.ca_cert_file
      → (ca_cert_of getenv read_file m).1 ≡ []
  unfolding ca_cert_of
  ca_cert_of_silent m readable = elim (Bool-cases (not (is_null m.ca_cert))) [
    | inl given ↦ rw given refl
    | inr lacking ↦ rw lacking (from_file_silent _ m.ca_cert_file _ readable)
  ]

  client_cert_of_silent :
      (t : Option AuthTlsModel)
      → ((tls : AuthTlsModel) → t ≡ some tls → IsReadable tls.cert_file)
      → (client_cert_of getenv read_file t).1 ≡ []
  unfolding client_cert_of
  client_cert_of_silent none readable = refl
  client_cert_of_silent (some t) readable = from_file_silent _ t.cert_file _ (readable t refl)

  client_key_of_silent :
      (t : Option AuthTlsModel)
      → ((tls : AuthTlsModel) → t ≡ some tls → IsReadable tls.key_file)
      → (client_key_of getenv read_file t).1 ≡ []
  unfolding client_key_of
  client_key_of_silent none readable = refl
  client_key_of_silent (some t) readable = from_file_silent _ t.key_file _ (readable t refl)

  with_login_silent :
      (o : Option AuthLoginUserPassModel) (c : Cluster)
      → ((l : AuthLoginUserPassModel) → o ≡ some l → (password_of getenv read_file l == "") ≡ false)
      → (with_login getenv read_file o c).1 ≡ []
  unfolding with_login
  with_login_silent none c h = refl
  with_login_silent (some l) c h = rw (h l refl) refl

  module _ (N : Network) (order : RangeOrder (Unit {0})) where
    -- The cluster that a session is asked for, behind the login and the certificates
    abbrev pub prepared : ScylladbProviderModel → Cluster → Cluster
    prepared m client =
        let c = set_system_auth_keyspace client (keyspace_of getenv read_file N order m) in
        (with_certificates getenv read_file N order
          (with_login getenv read_file m.auth_login_userpass c).0 (ca_cert_of getenv read_file m).0
          (client_cert_of getenv read_file m.auth_tls).0
          (client_key_of getenv read_file m.auth_tls).0 (value_bool m.skip_host_verification)).0

    -- What a configuration and its environment must give
    pub record IsComplete (m : ScylladbProviderModel) : Type 0 where
      pub host : (host_of getenv read_file m == "") ≡ false
      pub password :
          (l : AuthLoginUserPassModel)
          → m.auth_login_userpass ≡ some l
          → (password_of getenv read_file l == "") ≡ false
      pub one_authority : (not (is_null m.ca_cert) && not (is_null m.ca_cert_file)) ≡ false
      pub readable : IsReadable m.ca_cert_file
      pub readable_cert : (t : AuthTlsModel) → m.auth_tls ≡ some t → IsReadable t.cert_file
      pub readable_key : (t : AuthTlsModel) → m.auth_tls ≡ some t → IsReadable t.key_file
      pub proxy : (http_proxy_env getenv == "") ≡ false → IsProxy N (http_proxy_env getenv)
      pub keyed :
          IsKeyed N
            (ca_cert_of getenv read_file m).0
            (client_cert_of getenv read_file m.auth_tls).0
            (client_key_of getenv read_file m.auth_tls).0
      pub opens :
          (client : Cluster)
          → new_cluster_config N order getenv (host_of getenv read_file m ∷ []) ≡ ok client
          → N.open_session (prepared m client).cluster ≡ ok tt

    keep_unless_silent :
        (c : Cluster) (r : Result Cluster)
        → IsOk r
        → (keep_unless getenv read_file N order c r).1 ≡ []
    unfolding keep_unless
    keep_unless_silent c (ok c') h = refl
    keep_unless_silent c (err e) (c', h) = absurd (cc h)

    with_certificates_silent :
        (c : Cluster) (ca cert key : String) (skip : Bool)
        → IsKeyed N ca cert key
        → (with_certificates getenv read_file N order c ca cert key skip).1 ≡ []
    unfolding with_certificates
    with_certificates_silent c ca cert key skip keyed =
        elim (Bool-cases (nonempty ca || nonempty cert || nonempty key)) [
          | inl given ↦ rw given (
              keep_unless_silent c (set_tls N c ca cert key (not skip))
                (set_tls-IsOk N c ca cert key (not skip) given keyed))
          | inr lacking ↦ rw lacking refl
        ]

    finish-IsAccepted :
        (c : Cluster) (ds : List Diagnostic)
        → N.open_session c.cluster ≡ ok tt
        → ds ≡ []
        → IsAccepted (finish getenv read_file N order c ds)
    unfolding finish session_response create_session opened
    finish-IsAccepted c [] opens h = rw opens (record c { session = true }, refl, refl, refl)
    finish-IsAccepted c (d ∷ ds) opens h = absurd (cc h)

    configure_cluster-IsAccepted :
        (m : ScylladbProviderModel) (r : Result Cluster)
        → IsComplete m
        → IsOk r
        → ((client : Cluster) → r ≡ ok client → N.open_session (prepared m client).cluster ≡ ok tt)
        → IsAccepted (configure_cluster getenv read_file N order m r)
    unfolding configure_cluster configure_tls
    configure_cluster-IsAccepted m (err e) complete (c, h) opens = absurd (cc h)
    configure_cluster-IsAccepted m (ok client) complete h opens =
        let c = set_system_auth_keyspace client (keyspace_of getenv read_file N order m) in
        rw complete.one_authority (
          finish-IsAccepted (prepared m client) _ (opens client refl) (
            rw
              (
                with_login_silent m.auth_login_userpass c complete.password,
                ca_cert_of_silent m complete.readable,
                client_cert_of_silent m.auth_tls complete.readable_cert,
                client_key_of_silent m.auth_tls complete.readable_key,
                with_certificates_silent _ _ _ _ _ complete.keyed,
              )
              refl))

    -- `Configure` adds no error and hands out a client, if the configuration names a host, a
    -- password for each login that it asks for, and at most one of an authority and its file; the
    -- files that it names can be read; where there is a certificate, a key or an authority, the
    -- text of the authority holds a certificate; a certificate and a key, where there are both,
    -- belong together; the proxy that the environment names, if there is one, is an address that
    -- can be parsed, with `http://` before it where it would have no host, and that a dialer can be
    -- made for; and the database opens a session for the cluster so prepared.
    pub configure-IsAccepted :
        (m : ScylladbProviderModel)
        → IsComplete m
        → IsAccepted (configure getenv read_file N order (done m))
    unfolding configure configure_model
    configure-IsAccepted m complete = rw complete.host (
        configure_cluster-IsAccepted m _ complete
          (new_cluster_config-IsOk N order getenv _ complete.proxy) complete.opens)
