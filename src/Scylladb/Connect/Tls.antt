-- ===== src/Scylladb/Connect/Tls.antt =====
-- Where the TLS configuration goes.
use terraform_provider_scyll.Base.{
  String, ◌≡◌, refl, subst, Bool, true, not, ◌&&◌, some, Bool-cases, inl, inr,
}
use terraform_provider_scyll.Base.Exec.{Result, ok, err}
use terraform_provider_scyll.Scylladb.Grant.{nonempty}
use terraform_provider_scyll.Scylladb.Cluster.{TlsConfig, ProxyHostDialer, Cluster}
use terraform_provider_scyll.Scylladb.Connect.{Network, with_tls, with_key_pair, set_tls}

-- The certificate authority, the verification flag and nothing else of the cluster are set, in the
-- options of gocql and, if there is a proxy's dialer, in that too.
abbrev pub IsSecured : Cluster → String → Bool → Cluster → Type 0
IsSecured c ca verify c' =
    (tls : TlsConfig) × (tls.root_cas ≡ ca)
    × (tls.insecure_skip_verify ≡ not verify)
    × (c'.cluster.ssl_opts ≡ some (record { config = tls; enable_host_verification = verify }))
    × ((d : ProxyHostDialer)
        → c.cluster.host_dialer ≡ some d
        → c'.cluster.host_dialer ≡ some (record d { tls_config = some tls }))
    × (c'.cluster.hosts ≡ c.cluster.hosts)
    × (c'.cluster.authenticator ≡ c.cluster.authenticator)
    × (c'.system_auth_keyspace_name ≡ c.system_auth_keyspace_name)

ok-injective : {A : Type 0} (a b : A) → ok a ≡ ok b → a ≡ b
ok-injective a b h = cc

module _ (N : Network) where
  with_tls-IsSecured :
      (c : Cluster) (tls : TlsConfig) (verify : Bool)
      → tls.insecure_skip_verify ≡ not verify
      → IsSecured c tls.root_cas verify (with_tls N c tls verify)
  unfolding with_tls
  with_tls-IsSecured c tls verify h = (tls, refl, h, refl, λ d e. rw e refl, refl, refl, refl)

  with_key_pair-IsSecured :
      (c c' : Cluster) (ca : String) (verify : Bool) (r : Result (String × String))
      → with_key_pair N c ca verify r ≡ ok c'
      → IsSecured c ca verify c'
  unfolding with_key_pair
  with_key_pair-IsSecured c c' ca verify (ok pair) h =
      subst (IsSecured c ca verify) (ok-injective _ c' h) (with_tls-IsSecured c _ verify refl)
  with_key_pair-IsSecured c c' ca verify (err e) h = cc

  -- If `SetTLS` returns no error, the certificate authority was accepted, and gocql and the proxy's
  -- dialer, if there is one, have the same configuration: that authority, and the host's name
  -- verified exactly if that was asked for. Its hosts, its login and its keyspace stay as they
  -- were.
  pub set_tls-IsSecured :
      (c c' : Cluster) (ca cert key : String) (verify : Bool)
      → set_tls N c ca cert key verify ≡ ok c'
      → (N.append_certs ca ≡ true) × IsSecured c ca verify c'
  unfolding set_tls
  set_tls-IsSecured c c' ca cert key verify h = elim (Bool-cases (N.append_certs ca)) [
    | inr bad ↦ absurd (cc (rw bad at h))
    | inl good ↦ (
      good,
      elim (Bool-cases (nonempty cert && nonempty key)) [
        | inl both ↦
            with_key_pair-IsSecured c c' ca verify (N.key_pair cert key) (rw (good, both) at h)
        | inr lone ↦
            subst (IsSecured c ca verify) (ok-injective _ c' (rw (good, lone) at h))
              (with_tls-IsSecured c _ verify refl)
      ],
    )
  ]
