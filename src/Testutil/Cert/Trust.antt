-- ===== src/Testutil/Cert/Trust.antt =====
-- Certificates of internal/testutil/certutil.go as the other side of a connection sees them.
use terraform_provider_scyll.Base.{
  String, ◌≡◌, ◌∙◌, refl, sym, ap, subst, Bool, true, false, ◌&&◌, Option, none, some, List, [],
  ◌∷◌, if◌then◌else◌, ltb, length, contains, arith,
}
use terraform_provider_scyll.Base.Ints.{pos}
use terraform_provider_scyll.Base.Exec.{Result, ok, err, Exec, pure}
use terraform_provider_scyll.Base.Exec.Inversion.{>>=-eq-ok}
use terraform_provider_scyll.Testutil.Cert.{
  KeyUsage, digital_signature, key_encipherment, cert_sign, ExtKeyUsage, client_auth, server_auth,
  Name, CertSubject, Certificate, Tools, Cert, generate_cert, generate_from, create_from, template,
  complete_template, or_explain, ca_of, ca_priv_key_of,
}

abbrev pub may_sign : List KeyUsage → Bool
may_sign [] = false
may_sign (cert_sign ∷ us) = true
may_sign (digital_signature ∷ us) = may_sign us
may_sign (key_encipherment ∷ us) = may_sign us

abbrev pub serves : List ExtKeyUsage → Bool
serves [] = false
serves (server_auth ∷ us) = true
serves (client_auth ∷ us) = serves us

false-ne-true : ¬ (false ≡ true)
false-ne-true h = cc

module _ (X : Tools) where
  -- `CreateCertificate` writes what the template asks for: an authority only where the basic
  -- constraints are valid, and moments as an encoding keeps them. The signature can be checked with
  -- the public key of the signer.
  pub record IsX509 : Type 0 where
    pub parse : X.Bytes → Certificate X.Time
    pub issuer : X.Bytes → Name
    pub holder : X.Bytes → X.PublicKey
    pub is_signed_by : X.Bytes → X.PublicKey → Bool
    pub encoded : X.Time → X.Time
    -- The first moment is the second or before it; an encoding rounds down to a second.
    pub upto : X.Time → X.Time → Bool
    pub upto_trans : (a b c : X.Time) → upto a b ≡ true → upto b c ≡ true → upto a c ≡ true
    pub encoded-upto : (a : X.Time) → upto (encoded a) a ≡ true
    pub create-parse :
        (cert parent : Certificate X.Time) (pub_key : X.PublicKey) (key : X.PrivateKey)
        (w : X.World) (bytes : X.Bytes)
        → (X.create_certificate cert parent pub_key key w).0 ≡ ok bytes
        → parse bytes ≡ record cert {
          not_before = encoded cert.not_before;
          not_after = encoded cert.not_after;
          is_ca = cert.is_ca && cert.basic_constraints_valid;
        }
    pub create-signed :
        (cert parent : Certificate X.Time) (pub_key : X.PublicKey) (key : X.PrivateKey)
        (w : X.World) (bytes : X.Bytes)
        → (X.create_certificate cert parent pub_key key w).0 ≡ ok bytes
        → (issuer bytes ≡ parent.subject)
          × (holder bytes ≡ pub_key)
          × (is_signed_by bytes (X.public_key key) ≡ true)

  -- What a client wants of the certificate of a server and of the authority behind it
  pub record IsTrusted (x509 : IsX509) (root leaf : X.Bytes) (host : String) (t : X.Time)
      : Type 0 where
    pub names : x509.issuer leaf ≡ (x509.parse root).subject
    pub signature : x509.is_signed_by leaf (x509.holder root) ≡ true
    pub authority : (x509.parse root).is_ca ≡ true
    pub signs : may_sign (x509.parse root).key_usage ≡ true
    pub named : contains (x509.parse leaf).dns_names host ≡ true
    pub server : serves (x509.parse leaf).ext_key_usage ≡ true
    pub root_begun : x509.upto (x509.parse root).not_before t ≡ true
    pub root_lasts : x509.upto t (x509.parse root).not_after ≡ true
    pub leaf_begun : x509.upto (x509.parse leaf).not_before t ≡ true
    pub leaf_lasts : x509.upto t (x509.parse leaf).not_after ≡ true

  -- When a certificate that is generated in this state begins, and when it ends
  abbrev pub begins : X.World → X.Time
  begins w = (X.now w).0

  abbrev pub ends : CertSubject → X.World → X.Time
  ends subj w = X.add_date (X.now (X.now w).1).0 subj.duration_in_years (pos 0) (pos 0)

  -- What `GenerateCert` has done when it returns a certificate
  record IsMade (ca : Option (Cert X)) (subj : CertSubject) (first second : X.Time) (c : Cert X)
      : Type 0 where
    world : X.World
    form : c.cert ≡ template X ca subj first second
    created :
        (X.create_certificate c.cert
          (ca_of X ca c.cert)
          (X.public_key c.private_key)
          (ca_priv_key_of X ca c.private_key)
          world).0
        ≡ ok c.cert_bytes

  or_explain-eq-ok :
      {A : Type 0} (text : String) (m : Exec X.World A) (w : X.World) (a : A)
      → (or_explain X text m w).0 ≡ ok a
      → (m w).0 ≡ ok a
  unfolding or_explain
  or_explain-eq-ok {A} text m w a h = go (m w).0 refl h
    where
      go : (o : Result A) → (m w).0 ≡ o → (or_explain X text m w).0 ≡ ok a → (m w).0 ≡ ok a
      go (ok b) e k = e ∙ rw e at k
      go (err b) e k = cc

  create_from-IsMade :
      (ca : Option (Cert X)) (subj : CertSubject) (first second : X.Time) (key : X.PrivateKey)
      (w : X.World) (c : Cert X)
      → (create_from X ca (template X ca subj first second) key w).0 ≡ ok c
      → IsMade ca subj first second c
  unfolding create_from
  create_from-IsMade ca subj first second key w c h =
      let cert = template X ca subj first second in
      let made : X.Bytes → Cert X =
        λ bytes. record { cert = cert; cert_bytes = bytes; private_key = key } in
      let (bytes, explained, end, _) =
        >>=-eq-ok
          (or_explain X "failed to create certificate: " (
            X.create_certificate cert (ca_of X ca cert) (X.public_key key)
              (ca_priv_key_of X ca key)))
          (λ bytes. pure (made bytes)) w h in
      let same : made bytes ≡ c = cc in
      subst (IsMade ca subj first second) same
        (record { world = w; form = refl; created = or_explain-eq-ok _ _ w bytes explained })

  generate_cert-IsMade :
      (ca : Option (Cert X)) (subj : CertSubject) (w : X.World) (c : Cert X)
      → (generate_cert X ca subj w).0 ≡ ok c
      → IsMade ca subj (X.now w).0 (X.now (X.now w).1).0 c
  unfolding generate_cert generate_from
  generate_cert-IsMade ca subj w c h =
      let cert = template X ca subj (X.now w).0 (X.now (X.now w).1).0 in
      let (key, generated, rest, _) =
        >>=-eq-ok (or_explain X "failed to generate private key: " (X.generate_key 4096))
          (create_from X ca cert) (X.now (X.now w).1).1 h in
      create_from-IsMade ca subj _ _ key _ c rest

  begun :
      (x509 : IsX509) (t : X.Time) (read_back written first : X.Time)
      → read_back ≡ x509.encoded written
      → written ≡ first
      → x509.upto first t ≡ true
      → x509.upto read_back t ≡ true
  begun x509 t read_back written first read form from =
      rw (read, form) (x509.upto_trans _ first t (x509.encoded-upto first) from)

  lasts :
      (x509 : IsX509) (t : X.Time) (read_back written last : X.Time)
      → read_back ≡ x509.encoded written
      → written ≡ last
      → x509.upto t (x509.encoded last) ≡ true
      → x509.upto t read_back ≡ true
  lasts x509 t read_back written last read form to = rw (read, form) to

  given_names : {A : Type 0} (xs : List A) → (if ltb 0 (length xs) then xs else []) ≡ xs
  given_names [] = refl
  given_names (x ∷ xs) = ground arith

  -- If `GenerateCert` without an authority returns a certificate, and with that one as the
  -- authority another, whose subject lists a host, then a client that trusts the first accepts the
  -- second for that host, at every moment from the two calls on until one of the two periods, as
  -- the encoding keeps their ends, is over, and its public key belongs to its private key. No
  -- certificate that `GenerateCert` makes with the second as the authority is accepted by a client
  -- that trusts the second, whatever the host and the moment.
  pub generate_cert-IsTrusted :
      (x509 : IsX509) (host : String) (root_subj subj : CertSubject) (w v : X.World) (ca c : Cert X)
      (t : X.Time)
      → (generate_cert X none root_subj w).0 ≡ ok ca
      → (generate_cert X (some ca) subj v).0 ≡ ok c
      → contains subj.dns_names host ≡ true
      → x509.upto (begins w) t ≡ true
      → x509.upto t (x509.encoded (ends root_subj w)) ≡ true
      → x509.upto (begins v) t ≡ true
      → x509.upto t (x509.encoded (ends subj v)) ≡ true
      → IsTrusted x509 ca.cert_bytes c.cert_bytes host t
        × (x509.holder c.cert_bytes ≡ X.public_key c.private_key)
        × ((next : CertSubject) (u : X.World) (d : Cert X) (name : String) (at : X.Time)
            → (generate_cert X (some c) next u).0 ≡ ok d
            → ¬ IsTrusted x509 c.cert_bytes d.cert_bytes name at)
  unfolding template complete_template ca_of ca_priv_key_of
  generate_cert-IsTrusted x509 host root_subj subj w v ca c t root leaf asked root_from root_to
        leaf_from leaf_to =
      let r = generate_cert-IsMade none root_subj w ca root in
      let l = generate_cert-IsMade (some ca) subj v c leaf in
      let root_parse = x509.create-parse _ _ _ _ _ _ r.created in
      let leaf_parse = x509.create-parse _ _ _ _ _ _ l.created in
      let (root_issuer, root_holder, root_signed) = x509.create-signed _ _ _ _ _ _ r.created in
      let (leaf_issuer, leaf_holder, leaf_signed) = x509.create-signed _ _ _ _ _ _ l.created in
      (
        record {
          names = leaf_issuer ∙ sym (ap (λ t. t.subject) root_parse);
          signature =
              subst (λ k. x509.is_signed_by c.cert_bytes k ≡ true) (sym root_holder) leaf_signed;
          authority =
              ap (λ t. t.is_ca) root_parse ∙ ap (λ t. t.is_ca && t.basic_constraints_valid) r.form;
          signs = ap (λ t. may_sign t.key_usage) root_parse ∙ ap (λ t. may_sign t.key_usage) r.form;
          named =
              ap (λ t. contains t.dns_names host) leaf_parse
              ∙ ap (λ t. contains t.dns_names host) l.form
              ∙ ap (λ ns. contains ns host) (given_names subj.dns_names)
              ∙ asked;
          server =
              ap (λ t. serves t.ext_key_usage) leaf_parse ∙ ap (λ t. serves t.ext_key_usage) l.form;
          root_begun =
              begun x509 t _ _ _ (ap (λ x. x.not_before) root_parse) (ap (λ x. x.not_before) r.form)
                root_from;
          root_lasts =
              lasts x509 t _ _ _ (ap (λ x. x.not_after) root_parse) (ap (λ x. x.not_after) r.form)
                root_to;
          leaf_begun =
              begun x509 t _ _ _ (ap (λ x. x.not_before) leaf_parse) (ap (λ x. x.not_before) l.form)
                leaf_from;
          leaf_lasts =
              lasts x509 t _ _ _ (ap (λ x. x.not_after) leaf_parse) (ap (λ x. x.not_after) l.form)
                leaf_to;
        },
        leaf_holder,
        λ next u d name at h trusted.
            let is_leaf : (x509.parse c.cert_bytes).is_ca ≡ false =
              ap (λ x. x.is_ca) leaf_parse
              ∙ ap (λ x. x.is_ca && x.basic_constraints_valid) l.form in
            false-ne-true (sym is_leaf ∙ trusted.authority),
      )
