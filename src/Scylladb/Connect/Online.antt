-- ===== src/Scylladb/Connect/Online.antt =====
-- A proxy that is reached and certificates that are read: then no step of the set-up fails.
use terraform_provider_scyll.Base.{
  String, ◌<>◌, ◌≡◌, refl, Bool, true, false, ◌&&◌, ◌||◌, List, ◌==◌, Bool-cases, inl, inr,
  text_discrete,
}
use terraform_provider_scyll.Base.Exec.{Result, ok, err}
use terraform_provider_scyll.Go.Maps.{RangeOrder}
use terraform_provider_scyll.Scylladb.Grant.{nonempty}
use terraform_provider_scyll.Scylladb.Cluster.{Url, Cluster}
use terraform_provider_scyll.Scylladb.Connect.{
  Network, http_proxy_env, with_proxy_url, retry_url, proxy_url, made_dialer, dialer_of_url,
  get_proxy_host_dialer, cluster_of_dialer, new_cluster_config_with_proxy, new_cluster_config,
  with_key_pair, set_tls,
}

-- The call returned a value.
abbrev pub IsOk {ℓ} : {A : Type ℓ} → Result A → Type ℓ
IsOk {A = A} r = (a : A) × (r ≡ ok a)

module _ (N : Network) where
  -- The address of a proxy that is parsed, with `http://` before it where it would have no host
  -- otherwise, and that a dialer can be made for
  pub record IsProxy (text : String) : Type 0 where
    pub parsed : Url
    pub parses : N.parse_url text ≡ ok parsed
    pub again : (parsed.host == "") ≡ true → IsOk (N.parse_url ("http://" <> text))
    pub dials : (url : Url) → proxy_url N text ≡ ok url → N.from_url url ≡ ok tt

  -- An authority wherever a certificate or a key is given, and a key that belongs to its certificate
  pub record IsKeyed (ca cert key : String) : Type 0 where
    pub trusts : (nonempty ca || nonempty cert || nonempty key) ≡ true → N.append_certs ca ≡ true
    pub pairs : (nonempty cert && nonempty key) ≡ true → IsOk (N.key_pair cert key)

  with_proxy_url-IsOk : (text : String) (r : Result Url) → IsOk r → IsOk (with_proxy_url N text r)
  unfolding with_proxy_url
  with_proxy_url-IsOk text (ok url) h = (url, refl)
  with_proxy_url-IsOk text (err e) (url, h) = absurd (cc h)

  retry_url-IsOk :
      (text : String) (url : Url)
      → ((url.host == "") ≡ true → IsOk (N.parse_url ("http://" <> text)))
      → IsOk (retry_url N text (ok url))
  unfolding retry_url
  retry_url-IsOk text url again = elim (Bool-cases (url.host == "")) [
    | inl bare ↦ rw bare (with_proxy_url-IsOk text (N.parse_url ("http://" <> text)) (again bare))
    | inr named ↦ rw named (url, refl)
  ]

  proxy_url-IsOk : (text : String) → IsProxy text → IsOk (proxy_url N text)
  unfolding proxy_url with_proxy_url
  proxy_url-IsOk text proxy = rw proxy.parses (retry_url-IsOk text proxy.parsed proxy.again)

  module _ (order : RangeOrder (Unit {0})) where
    cluster-IsOk :
        (hosts : List String) (r : Result Url)
        → IsOk r
        → ((url : Url) → r ≡ ok url → N.from_url url ≡ ok tt)
        → IsOk (cluster_of_dialer N order (dialer_of_url N order hosts r))
    unfolding cluster_of_dialer dialer_of_url made_dialer
    cluster-IsOk hosts (err e) (url, h) dials = absurd (cc h)
    cluster-IsOk hosts (ok url) h dials = rw (dials url refl) (_, refl)

    pub new_cluster_config-IsOk :
        (getenv : String → String) (hosts : List String)
        → ((http_proxy_env getenv == "") ≡ false → IsProxy (http_proxy_env getenv))
        → IsOk (new_cluster_config N order getenv hosts)
    unfolding new_cluster_config new_cluster_config_with_proxy get_proxy_host_dialer text_discrete
    new_cluster_config-IsOk getenv hosts proxy = elim (Bool-cases (http_proxy_env getenv == "")) [
      | inl direct ↦ rw direct (_, refl)
      | inr proxied ↦
          let is_proxy = proxy proxied in
          rw proxied (
            cluster-IsOk hosts (proxy_url N (http_proxy_env getenv))
              (proxy_url-IsOk (http_proxy_env getenv) is_proxy) is_proxy.dials)
    ]

  with_key_pair-IsOk :
      (c : Cluster) (ca : String) (verify : Bool) (r : Result (String × String))
      → IsOk r
      → IsOk (with_key_pair N c ca verify r)
  unfolding with_key_pair
  with_key_pair-IsOk c ca verify (ok pair) h = (_, refl)
  with_key_pair-IsOk c ca verify (err e) (pair, h) = absurd (cc h)

  pub set_tls-IsOk :
      (c : Cluster) (ca cert key : String) (verify : Bool)
      → (nonempty ca || nonempty cert || nonempty key) ≡ true
      → IsKeyed ca cert key
      → IsOk (set_tls N c ca cert key verify)
  unfolding set_tls
  set_tls-IsOk c ca cert key verify given keyed =
      rw (keyed.trusts given) (elim (Bool-cases (nonempty cert && nonempty key)) [
        | inl both ↦
            rw both (with_key_pair-IsOk c ca verify (N.key_pair cert key) (keyed.pairs both))
        | inr lone ↦ rw lone (_, refl)
      ])
