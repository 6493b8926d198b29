-- ===== src/Provider/Configure/Outcome.antt =====
-- `Configure` gives a client or errors, and the client is configured as asked for.
use terraform_provider_scyll.Base.{
  String, ◌≡◌, ◌≢◌, ◌⊎◌, inl, inr, ◌∙◌, refl, subst, Bool, true, false, not, ◌&&◌, Option, none,
  some, List, [], ◌∷◌, ◌++◌, ◌==◌, if◌then◌else◌, Bool-cases,
}
use terraform_provider_scyll.Base.Exec.{Error, Result, ok, err}
use terraform_provider_scyll.Go.Maps.{RangeOrder}
use terraform_provider_scyll.Scylladb.Cluster.{Cluster, TlsConfig, PasswordAuthenticator}
use terraform_provider_scyll.Scylladb.Connect.{
  Network, new_cluster_config, opened, create_session, set_user_password_auth,
  set_system_auth_keyspace,
}
use terraform_provider_scyll.Scylladb.Connect.Tls.{IsSecured}
use terraform_provider_scyll.Provider.Framework.{is_null, value_bool, Diagnostic, done}
use terraform_provider_scyll.Provider.Configure.Certificates.{any, with_certificates-Certified}
use terraform_provider_scyll.Provider.Configure.{
  AuthLoginUserPassModel, ScylladbProviderModel, ConfigureResponse, refuse, missing_password,
  conflicting, host_of, ca_cert_of, client_cert_of, client_key_of, username_of, password_of,
  keyspace_of, with_login, with_certificates, finish, session_response, configure_tls,
  configure_cluster, configure_model, configure,
}

-- Errors and no client, or one client for resources and data sources, and no error.
abbrev pub IsSettled : (Cluster → Type 0) → ConfigureResponse → Type 0
IsSettled P r =
    ((r.diagnostics ≢ []) × (r.data_source_data ≡ none) × (r.resource_data ≡ none))
    ⊎ ((c : Cluster) × (r.diagnostics ≡ [])
        × (r.data_source_data ≡ some c)
        × (r.resource_data ≡ some c)
        × P c)

not-not : (b : Bool) → not (not b) ≡ b
not-not true = refl
not-not false = refl

append-eq-nil : {A : Type 0} (xs ys : List A) → xs ++ ys ≡ [] → (xs ≡ []) × (ys ≡ [])
append-eq-nil [] ys h = (refl, h)
append-eq-nil (x ∷ xs) ys h = cc

conflicting-ne-nil : conflicting ≢ []
unfolding conflicting
conflicting-ne-nil e = cc

refuse-IsSettled :
    (P : Cluster → Type 0) (d : Diagnostic) (ds : List Diagnostic) → IsSettled P (refuse (d ∷ ds))
refuse-IsSettled P d ds = inl (λ e. cc, refl, refl)

module _ (getenv : String → String) (read_file : String → String × Option Error) (N : Network)
    (order : RangeOrder (Unit {0})) where
  opened-IsSettled :
      (P : Cluster → Type 0) (c : Cluster) (r : Result (Unit {0}))
      → P (record c { session = true })
      → IsSettled P (session_response getenv read_file N order (opened N c r))
  unfolding session_response opened
  opened-IsSettled P c (ok _) h = inr (record c { session = true }, refl, refl, refl, h)
  opened-IsSettled P c (err e) h = inl (λ n. cc, refl, refl)

  finish-IsSettled :
      (P : Cluster → Type 0) (c : Cluster) (ds : List Diagnostic)
      → (ds ≡ [] → P (record c { session = true }))
      → IsSettled P (finish getenv read_file N order c ds)
  unfolding finish create_session
  finish-IsSettled P c [] h = opened-IsSettled P c (N.open_session c.cluster) (h refl)
  finish-IsSettled P c (d ∷ ds) h = refuse-IsSettled P d ds

  abbrev pub credentials : AuthLoginUserPassModel → Option PasswordAuthenticator
  credentials l = some (record {
    username = username_of getenv read_file l;
    password = password_of getenv read_file l;
  })

  -- What a client has been given
  pub record IsConfigured (m : ScylladbProviderModel) (c : Cluster) : Type 0 where
    pub has_session : c.session ≡ true
    pub keyspace : c.system_auth_keyspace_name ≡ keyspace_of getenv read_file N order m
    pub one_authority : (not (is_null m.ca_cert) && not (is_null m.ca_cert_file)) ≡ false
    -- the login, with a password
    pub login :
        (l : AuthLoginUserPassModel)
        → m.auth_login_userpass ≡ some l
        → ((password_of getenv read_file l == "") ≡ false)
          × (c.cluster.authenticator ≡ credentials l)
    -- Every file was read.
    pub files :
        ((ca_cert_of getenv read_file m).1 ≡ [])
        × ((client_cert_of getenv read_file m.auth_tls).1 ≡ [])
        × ((client_key_of getenv read_file m.auth_tls).1 ≡ [])
    -- TLS, if any certificate or key was given
    pub tls :
        any
            (ca_cert_of getenv read_file m).0
            (client_cert_of getenv read_file m.auth_tls).0
            (client_key_of getenv read_file m.auth_tls).0
          ≡ true
        → (N.append_certs (ca_cert_of getenv read_file m).0 ≡ true)
          × ((t : TlsConfig) × (t.root_cas ≡ (ca_cert_of getenv read_file m).0)
              × (t.insecure_skip_verify ≡ value_bool m.skip_host_verification)
              × (c.cluster.ssl_opts
                  ≡ some (record {
                    config = t;
                    enable_host_verification = not (value_bool m.skip_host_verification);
                  })))

  -- The cluster behind the login
  abbrev LoggedIn : Option AuthLoginUserPassModel → Cluster → Cluster → Type 0
  LoggedIn o c c' =
      (c'.system_auth_keyspace_name ≡ c.system_auth_keyspace_name)
      × ((l : AuthLoginUserPassModel)
          → o ≡ some l
          → ((password_of getenv read_file l == "") ≡ false)
            × (c'.cluster.authenticator ≡ credentials l))

  without_error : {A : Type 0} (b : Bool) (x : A) → (if b then x ∷ [] else []) ≡ [] → b ≡ false
  without_error true x h = cc
  without_error false x h = refl

  with_login-LoggedIn :
      (o : Option AuthLoginUserPassModel) (c : Cluster)
      → (with_login getenv read_file o c).1 ≡ []
      → LoggedIn o c (with_login getenv read_file o c).0
  unfolding with_login set_user_password_auth
  with_login-LoggedIn none c h = (refl, λ l e. cc)
  with_login-LoggedIn (some l) c h = (
    refl,
    λ l' e.
        let same : l ≡ l' = cc in
        subst
          (λ k. ((password_of getenv read_file k == "") ≡ false) × (credentials l ≡ credentials k))
          same (without_error (password_of getenv read_file l == "") missing_password h, refl),
  )

  module _ (m : ScylladbProviderModel) (client : Cluster) where
    abbrev logged_in : Cluster × List Diagnostic
    logged_in =
        with_login getenv read_file m.auth_login_userpass
          (set_system_auth_keyspace client (keyspace_of getenv read_file N order m))

    abbrev ca : String × List Diagnostic
    ca = ca_cert_of getenv read_file m

    abbrev cert : String × List Diagnostic
    cert = client_cert_of getenv read_file m.auth_tls

    abbrev key : String × List Diagnostic
    key = client_key_of getenv read_file m.auth_tls

    abbrev certified_cluster : Cluster × List Diagnostic
    certified_cluster =
        with_certificates getenv read_file N order logged_in.0 ca.0 cert.0 key.0
          (value_bool m.skip_host_verification)

    abbrev skip : Bool
    skip = value_bool m.skip_host_verification

    asked :
        (N.append_certs ca.0 ≡ true) × IsSecured logged_in.0 ca.0 (not skip) certified_cluster.0
        → (N.append_certs ca.0 ≡ true)
          × ((t : TlsConfig) × (t.root_cas ≡ ca.0)
              × (t.insecure_skip_verify ≡ skip)
              × (certified_cluster.0.cluster.ssl_opts
                  ≡ some (record { config = t; enable_host_verification = not skip })))
    asked (accepted, secured) =
        let (t, root, insecure, opts, rest₁, rest₂, rest₃, rest₄) = secured in
        (accepted, (t, root, insecure ∙ not-not skip, opts))

    assembled :
        (not (is_null m.ca_cert) && not (is_null m.ca_cert_file)) ≡ false
        → logged_in.1 ++ (ca.1 ++ (cert.1 ++ (key.1 ++ certified_cluster.1))) ≡ []
        → IsConfigured m (record certified_cluster.0 { session = true })
    unfolding set_system_auth_keyspace
    assembled one h =
        let (none₁, rest₁) = append-eq-nil logged_in.1 _ h in
        let (none₂, rest₂) = append-eq-nil ca.1 _ rest₁ in
        let (none₃, rest₃) = append-eq-nil cert.1 _ rest₂ in
        let (none₄, none₅) = append-eq-nil key.1 _ rest₃ in
        let (kept, logged) = with_login-LoggedIn m.auth_login_userpass _ none₁ in
        let (same, named, secured) =
          with_certificates-Certified getenv read_file N order ca.0 cert.0 key.0
            (value_bool m.skip_host_verification) logged_in.0 none₅ in
        record {
          has_session = refl;
          keyspace = named ∙ kept;
          one_authority = one;
          login = λ l e. ((logged l e).0, same ∙ (logged l e).1);
          files = (none₂, none₃, none₄);
          tls = λ given. asked (secured given);
        }

    configure_tls-IsSettled :
        IsSettled
          (IsConfigured m)
          (configure_tls getenv read_file N order m logged_in.0 logged_in.1)
    unfolding configure_tls
    configure_tls-IsSettled =
        elim (Bool-cases (not (is_null m.ca_cert) && not (is_null m.ca_cert_file))) [
          | inl both ↦
              rw both (inl (λ e. conflicting-ne-nil (append-eq-nil logged_in.1 _ e).1, refl, refl))
          | inr one ↦
              rw one (finish-IsSettled (IsConfigured m) certified_cluster.0 _ (assembled one))
        ]

  configure_cluster-IsSettled :
      (m : ScylladbProviderModel) (r : Result Cluster)
      → IsSettled (IsConfigured m) (configure_cluster getenv read_file N order m r)
  unfolding configure_cluster
  configure_cluster-IsSettled m (ok client) = configure_tls-IsSettled m client
  configure_cluster-IsSettled m (err e) = refuse-IsSettled (IsConfigured m) _ []

  -- `Configure` either adds an error and hands out no client, or it adds none and hands one client
  -- to resources and data sources alike. That client has a session, the keyspace that is configured
  -- or `system`, and, where a login is asked for, its user and a password that is not empty. Every
  -- file that is named was read, at most one authority is configured, and if there is any
  -- certificate or key, the authority was accepted and is the one that servers are checked against,
  -- with host verification unless that is skipped.
  pub configure-IsSettled :
      (m : ScylladbProviderModel)
      → IsSettled (IsConfigured m) (configure getenv read_file N order (done m))
  unfolding configure configure_model
  configure-IsSettled m = elim (Bool-cases (host_of getenv read_file m == "")) [
    | inl missing ↦ rw missing (refuse-IsSettled (IsConfigured m) _ [])
    | inr host ↦ rw host (
        configure_cluster-IsSettled m
          (new_cluster_config N order getenv (host_of getenv read_file m ∷ [])))
  ]
