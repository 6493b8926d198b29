-- ===== src/Testutil/Cert.antt =====
-- internal/testutil/certutil.go: certificates for a server and its clients, signed by an authority
-- that the tests make themselves.
pub mod Trust
pub mod Files
use terraform_provider_scyll.Base.{
  ℕ, String, ◌<>◌, Bool, true, false, Option, none, some, List, [], ◌∷◌, if◌then◌else◌, ltb, length,
}
use terraform_provider_scyll.Base.Ints.{ℤ, pos}
use terraform_provider_scyll.Base.Exec.{
  Error, error_text, message, Result, ok, err, Exec, pure, lift, ◌>>=◌, ◌>>◌,
}

-- The bits of `x509.KeyUsage`, as far as the code sets them
pub data KeyUsage : Type 0 where
  digital_signature : KeyUsage
  key_encipherment : KeyUsage
  cert_sign : KeyUsage

pub data ExtKeyUsage : Type 0 where
  client_auth : ExtKeyUsage
  server_auth : ExtKeyUsage

-- `pkix.Name`
pub record Name : Type 0 where
  pub common_name : String
  pub organization : List String
  pub country : List String

pub record CertSubject : Type 0 where
  pub common_name : String
  pub organization : List String
  pub country : List String
  pub dns_names : List String
  pub ip_addresses : List (List ℕ)
  pub duration_in_years : ℤ

-- `x509.Certificate`; a key usage is the list of the bits that are set.
pub record Certificate (Time : Type 0) : Type 0 where
  pub serial_number : ℤ
  pub subject : Name
  pub not_before : Time
  pub not_after : Time
  pub ext_key_usage : List ExtKeyUsage
  pub key_usage : List KeyUsage
  pub is_ca : Bool
  pub basic_constraints_valid : Bool
  pub dns_names : List String
  pub ip_addresses : List (List ℕ)

-- `pem.Block`
pub record Block (Bytes : Type 0) : Type 0 where
  pub block_type : String
  pub bytes : Bytes

-- What the code calls of `crypto/rsa`, `crypto/x509`, `encoding/pem`, `net`, `os` and `time`, over an unknown
-- state of the machine: its clock, its random numbers, its files.
pub record Tools : Type 1 where
  pub World : Type 0
  pub Time : Type 0
  pub Bytes : Type 0
  pub PrivateKey : Type 0
  pub PublicKey : Type 0
  pub now : World → Time × World
  -- years, months and days
  pub add_date : Time → ℤ → ℤ → ℤ → Time
  pub generate_key : ℕ → Exec World PrivateKey
  pub public_key : PrivateKey → PublicKey
  -- template, parent, the holder's public key, the signer's private key
  pub create_certificate :
      Certificate Time → Certificate Time → PublicKey → PrivateKey → Exec World Bytes
  pub marshal_pkcs1_private_key : PrivateKey → Bytes
  -- `pem.Encode` into an empty buffer
  pub encode : Block Bytes → Result Bytes
  -- path, content and permission
  pub write_file : String → Bytes → ℕ → Exec World (Unit {0})
  pub ipv4 : ℕ → ℕ → ℕ → ℕ → List ℕ
  pub ipv6_loopback : List ℕ

pub record Cert (X : Tools) : Type 0 where
  pub cert : Certificate X.Time
  pub cert_bytes : X.Bytes
  pub private_key : X.PrivateKey

module _ (X : Tools) where
  -- `fmt.Errorf("...: %w", err)`
  unfoldable pub explained : {A : Type 0} → String → Result A → Result A
  explained text (ok a) = ok a
  explained text (err e) = err (message (text <> error_text e))

  unfoldable pub or_explain : {A : Type 0} → String → Exec X.World A → Exec X.World A
  unfolding explained
  or_explain text m w = (explained text (m w).0, (m w).1)

  -- What an authority and what another certificate has of its own
  unfoldable pub complete_template :
      Option (Cert X) → CertSubject → Certificate X.Time → Certificate X.Time
  complete_template none subj cert = record cert {
    is_ca = true;
    basic_constraints_valid = true;
    key_usage = cert_sign ∷ digital_signature ∷ [];
  }
  complete_template (some ca) subj cert = record cert {
    dns_names = if ltb 0 (length subj.dns_names) then subj.dns_names else cert.dns_names;
    ip_addresses =
        if ltb 0 (length subj.ip_addresses) then subj.ip_addresses else cert.ip_addresses;
    key_usage = digital_signature ∷ key_encipherment ∷ [];
  }

  -- The certificate to sign, from two readings of the clock
  unfoldable pub template : Option (Cert X) → CertSubject → X.Time → X.Time → Certificate X.Time
  unfolding complete_template
  template ca_cert subj first second = complete_template ca_cert subj (record {
    serial_number = pos 1;
    subject = record {
      common_name = subj.common_name;
      organization = subj.organization;
      country = subj.country;
    };
    not_before = first;
    not_after = X.add_date second subj.duration_in_years (pos 0) (pos 0);
    ext_key_usage = client_auth ∷ server_auth ∷ [];
    key_usage = cert_sign ∷ digital_signature ∷ [];
    is_ca = false;
    basic_constraints_valid = false;
    dns_names = [];
    ip_addresses = [];
  })

  unfoldable pub ca_of : Option (Cert X) → Certificate X.Time → Certificate X.Time
  ca_of none cert = cert
  ca_of (some ca) cert = ca.cert

  unfoldable pub ca_priv_key_of : Option (Cert X) → X.PrivateKey → X.PrivateKey
  ca_priv_key_of none priv_key = priv_key
  ca_priv_key_of (some ca) priv_key = ca.private_key

  -- Behind the private key
  unfoldable pub create_from :
      Option (Cert X) → Certificate X.Time → X.PrivateKey → Exec X.World (Cert X)
  create_from ca_cert cert priv_key = do
    cert_bytes ← or_explain "failed to create certificate: " (
        X.create_certificate cert (ca_of ca_cert cert) (X.public_key priv_key)
          (ca_priv_key_of ca_cert priv_key))
    pure (record { cert = cert; cert_bytes = cert_bytes; private_key = priv_key })

  -- Behind the template
  unfoldable pub generate_from : Option (Cert X) → Certificate X.Time → Exec X.World (Cert X)
  generate_from ca_cert cert = do
    priv_key ← or_explain "failed to generate private key: " (X.generate_key 4096)
    create_from ca_cert cert priv_key

  unfoldable pub generate_cert : Option (Cert X) → CertSubject → Exec X.World (Cert X)
  unfolding generate_from
  generate_cert ca_cert subj w =
      let (first, w1) = X.now w in
      let (second, w2) = X.now w1 in generate_from ca_cert (template ca_cert subj first second) w2

  abbrev pub test_ca_subject : CertSubject
  test_ca_subject = record {
    common_name = "My CA";
    organization = "My Org, Inc." ∷ [];
    country = "US" ∷ [];
    dns_names = [];
    ip_addresses = [];
    duration_in_years = pos 10;
  }

  unfoldable pub generate_test_ca_cert : Exec X.World (Cert X)
  generate_test_ca_cert = generate_cert none test_ca_subject

  abbrev pub test_server_subject : CertSubject
  test_server_subject = record {
    common_name = "localhost";
    organization = "My Org, Inc." ∷ [];
    country = "US" ∷ [];
    dns_names = "localhost" ∷ [];
    ip_addresses = X.ipv4 127 0 0 1 ∷ X.ipv6_loopback ∷ [];
    duration_in_years = pos 1;
  }

  unfoldable pub generate_test_server_cert : Option (Cert X) → Exec X.World (Cert X)
  generate_test_server_cert ca_cert = generate_cert ca_cert test_server_subject

  unfoldable pub key_block : Cert X → Block X.Bytes
  key_block c = record {
    block_type = "RSA PRIVATE KEY";
    bytes = X.marshal_pkcs1_private_key c.private_key;
  }

  unfoldable pub cert_block : Cert X → Block X.Bytes
  cert_block c = record { block_type = "CERTIFICATE"; bytes = c.cert_bytes }

  -- The certificate and the private key
  unfoldable pub pem_encoded_cert : Cert X → Exec X.World (X.Bytes × X.Bytes)
  unfolding key_block cert_block
  pem_encoded_cert c = do
    cert ← lift (X.encode (cert_block c))
    priv_key ← lift (X.encode (key_block c))
    pure (cert, priv_key)

  -- 420 and 384 are the permissions 0644 and 0600.
  unfoldable pub save_to_files : Cert X → String → String → Exec X.World (Unit {0})
  unfolding or_explain
  save_to_files c cert_file_path key_file_path = do
    pair ← pem_encoded_cert c
    or_explain "failed to write cert file: " (X.write_file cert_file_path pair.0 420)
    or_explain "failed to write key file: " (X.write_file key_file_path pair.1 384)
