-- ===== src/Provider/Configure/Certificates.antt =====
-- What `SetTLS` has done of a cluster, if `Configure` called it.
use terraform_provider_scyll.Base.{
  String, ◌≡◌, refl, Bool, true, false, not, ◌||◌, Option, [], if◌then◌else◌,
}
use terraform_provider_scyll.Base.Exec.{Error, Result, ok, err}
use terraform_provider_scyll.Go.Maps.{RangeOrder}
use terraform_provider_scyll.Scylladb.Cluster.{Cluster}
use terraform_provider_scyll.Scylladb.Grant.{nonempty}
use terraform_provider_scyll.Scylladb.Connect.{Network, set_tls}
use terraform_provider_scyll.Scylladb.Connect.Tls.{IsSecured, set_tls-IsSecured}
use terraform_provider_scyll.Provider.Configure.{keep_unless, with_certificates}

-- Certificates were given.
abbrev pub any : String → String → String → Bool
any ca cert key = nonempty ca || nonempty cert || nonempty key

module _ (getenv : String → String) (read_file : String → String × Option Error) (N : Network)
    (order : RangeOrder (Unit {0})) where
  module _ (ca cert key : String) (skip : Bool) where
    abbrev pub Certified : Cluster → Cluster → Type 0
    Certified c c' =
        (c'.cluster.authenticator ≡ c.cluster.authenticator)
        × (c'.system_auth_keyspace_name ≡ c.system_auth_keyspace_name)
        × (any ca cert key ≡ true → (N.append_certs ca ≡ true) × IsSecured c ca (not skip) c')

    keep_unless-Certified :
        (c : Cluster) (r : Result Cluster)
        → ((c' : Cluster) → r ≡ ok c' → (N.append_certs ca ≡ true) × IsSecured c ca (not skip) c')
        → (keep_unless getenv read_file N order c r).1 ≡ []
        → Certified c (keep_unless getenv read_file N order c r).0
    unfolding keep_unless
    keep_unless-Certified c (ok c') h e =
        let (accepted, secured) = h c' refl in
        let (tls, s0, s1, s2, s3, s4, s5, s6) = secured in (s5, s6, λ _. (accepted, secured))
    keep_unless-Certified c (err e) h n = cc

    certified :
        (c : Cluster) (b : Bool)
        → any ca cert key ≡ b
        → let r =
            if b
            then keep_unless getenv read_file N order c (set_tls N c ca cert key (not skip))
            else (c, []) in
          r.1 ≡ [] → Certified c r.0
    certified c true given =
        keep_unless-Certified c (set_tls N c ca cert key (not skip))
          (λ c' e. set_tls-IsSecured N c c' ca cert key (not skip) e)
    certified c false lacking = λ _. (refl, refl, λ e. cc)

    pub with_certificates-Certified :
        (c : Cluster)
        → (with_certificates getenv read_file N order c ca cert key skip).1 ≡ []
        → Certified c (with_certificates getenv read_file N order c ca cert key skip).0
    unfolding with_certificates
    with_certificates-Certified c = certified c (any ca cert key) refl
