-- ===== src/Tests/Certificates.antt =====
-- An authority and a server behind it, on a machine that numbers its keys.
use terraform_provider_scyll.Base.{
  ℕ, suc, ◌+◌, String, ◌≡◌, refl, ap, Bool, true, false, ◌&&◌, Option, none, some, List, [], ◌∷◌,
  ◌==◌, if◌then◌else◌, same_number, leb, text_discrete, arith,
}
use terraform_provider_scyll.Base.Ints.{ℤ, pos, negsuc}
use terraform_provider_scyll.Base.Exec.{ok}
use terraform_provider_scyll.Testutil.Cert.{
  Name, Certificate, Tools, Cert, CertSubject, generate_cert, generate_from, create_from,
  or_explain, explained, ca_of, ca_priv_key_of, template, complete_template, generate_test_ca_cert,
  generate_test_server_cert, test_ca_subject, test_server_subject, save_to_files,
}
use terraform_provider_scyll.Testutil.Cert.Trust.{IsX509, IsTrusted, generate_cert-IsTrusted}
use terraform_provider_scyll.Testutil.Cert.Files.{IsDisk, Saves, save_to_files-Saves, mode_of}

-- A certificate with its issuer, its holder's key and its signer's; a private key; a block in a file
pub data Encoded : Type 0 where
  signed : Certificate ℕ → Name → ℕ → ℕ → Encoded
  private : ℕ → Encoded
  armoured : String → Encoded → Encoded

pub record Machine : Type 0 where
  pub clock : ℕ
  pub keys : ℕ
  pub live : List String
  pub file : String → Option (Encoded × ℕ)

abbrev pub in_years : ℕ → ℤ → ℕ
in_years t (pos n) = t + n
in_years t (negsuc n) = t

abbrev pub mode : Option (Encoded × ℕ) → Option ℕ
mode none = none
mode (some (b, m)) = some m

abbrev content : Option (Encoded × ℕ) → Option Encoded
content none = none
content (some (b, m)) = some b

abbrev pub tools : Tools
tools = record {
  World = Machine;
  Time = ℕ;
  Bytes = Encoded;
  PrivateKey = ℕ;
  PublicKey = ℕ;
  now = λ w. (w.clock, record w { clock = suc w.clock });
  add_date = λ t years months days. in_years t years;
  generate_key = λ bits w. (ok w.keys, record w { keys = suc w.keys });
  public_key = λ key. key;
  create_certificate = λ cert parent pub_key key w. (
    ok (
        signed (record cert { is_ca = cert.is_ca && cert.basic_constraints_valid }) parent.subject
          pub_key key),
    w,
  );
  marshal_pkcs1_private_key = λ key. private key;
  encode = λ b. ok (armoured b.block_type b.bytes);
  write_file = λ path b perm w. (
    ok tt,
    record w {
      file = λ p. if p == path then some (b, mode_of (mode (w.file path)) perm) else w.file p;
    },
  );
  ipv4 = λ a b c d. a ∷ b ∷ c ∷ d ∷ [];
  ipv6_loopback = 0 ∷ 0 ∷ 0 ∷ 0 ∷ 0 ∷ 0 ∷ 0 ∷ 0 ∷ 0 ∷ 0 ∷ 0 ∷ 0 ∷ 0 ∷ 0 ∷ 0 ∷ 1 ∷ [];
}

abbrev blank : Certificate ℕ
blank = record {
  serial_number = pos 0;
  subject = record { common_name = ""; organization = []; country = [] };
  not_before = 0;
  not_after = 0;
  ext_key_usage = [];
  key_usage = [];
  is_ca = false;
  basic_constraints_valid = false;
  dns_names = [];
  ip_addresses = [];
}

abbrev parse : Encoded → Certificate ℕ
parse (signed cert issuer holder signer) = cert
parse (private key) = blank
parse (armoured t b) = blank

abbrev issuer : Encoded → Name
issuer (signed cert name holder signer) = name
issuer (private key) = blank.subject
issuer (armoured t b) = blank.subject

abbrev holder : Encoded → ℕ
holder (signed cert name key signer) = key
holder (private key) = key
holder (armoured t b) = 0

abbrev is_signed_by : Encoded → ℕ → Bool
is_signed_by (signed cert name holder signer) key = same_number signer key
is_signed_by (private n) key = false
is_signed_by (armoured t b) key = false

upto_refl : (n : ℕ) → leb n n ≡ true
upto_refl n = ground arith

upto_trans : (a b c : ℕ) → leb a b ≡ true → leb b c ≡ true → leb a c ≡ true
upto_trans a b c h k = ground arith

same_number_refl : (n : ℕ) → same_number n n ≡ true
same_number_refl n = ground arith

same_ok : (a b : Encoded) → ok a ≡ ok b → a ≡ b
same_ok a b h = cc

abbrev x509 : IsX509 tools
x509 = record {
  parse = parse;
  issuer = issuer;
  holder = holder;
  is_signed_by = is_signed_by;
  encoded = λ t. t;
  upto = leb;
  upto_trans = upto_trans;
  encoded-upto = upto_refl;
  create-parse = λ cert parent pub_key key w bytes h. rw (← same_ok _ bytes h) refl;
  create-signed = λ cert parent pub_key key w bytes h.
      rw (← same_ok _ bytes h) (refl, refl, same_number_refl key);
}

abbrev pub start : Machine
start = record { clock = 100; keys = 1; live = []; file = λ path. none }

-- Behind the authority's certificate
abbrev pub later : Machine
later = record { clock = 102; keys = 2; live = []; file = λ path. none }

abbrev pub ca_cert : Certificate ℕ
ca_cert = template tools none (test_ca_subject tools) 100 101

abbrev pub ca : Cert tools
ca = record {
  cert = ca_cert;
  cert_bytes =
      signed (record ca_cert { is_ca = ca_cert.is_ca && ca_cert.basic_constraints_valid })
        ca_cert.subject 1 1;
  private_key = 1;
}

abbrev pub server_cert : Certificate ℕ
server_cert = template tools (some ca) (test_server_subject tools) 102 103

abbrev pub server : Cert tools
server = record {
  cert = server_cert;
  cert_bytes =
      signed
        (record server_cert { is_ca = server_cert.is_ca && server_cert.basic_constraints_valid })
        ca_cert.subject 2 1;
  private_key = 2;
}

ca_generated : generate_test_ca_cert tools start ≡ (ok ca, later)
unfolding generate_test_ca_cert generate_cert generate_from create_from or_explain explained ca_of
    ca_priv_key_of template complete_template
ca_generated = refl

server_generated : (generate_test_server_cert tools (some ca) later).0 ≡ ok server
unfolding generate_test_server_cert generate_cert generate_from create_from or_explain explained
    ca_of ca_priv_key_of template complete_template
server_generated = refl

generate_cert-IsTrusted_example :
    IsTrusted tools x509 ca.cert_bytes server.cert_bytes "localhost" 103
    × (x509.holder server.cert_bytes ≡ server.private_key)
    × ((next : CertSubject) (u : Machine) (d : Cert tools) (name : String) (at : ℕ)
        → (generate_cert tools (some server) next u).0 ≡ ok d
        → ¬ IsTrusted tools x509 server.cert_bytes d.cert_bytes name at)
unfolding generate_test_ca_cert generate_test_server_cert text_discrete
generate_cert-IsTrusted_example =
    generate_cert-IsTrusted tools x509 "localhost" (test_ca_subject tools)
      (test_server_subject tools) start later ca server 103 (ap (λ o. o.0) ca_generated)
      server_generated refl refl refl refl refl

same_path : (path : String) → (path == path) ≡ true
same_path path = ground arith

abbrev disk : IsDisk tools
disk = record {
  content = λ w path. content (w.file path);
  mode = λ w path. mode (w.file path);
  masked = λ perm. perm;
  write_file-content = λ path b perm w h. rw (same_path path) (refl, refl);
  write_file-elsewhere = λ path b perm w other ne. rw ne (refl, refl);
}

save_to_files-Saves_example :
    Saves tools disk server "server.crt" "server.key" later
      (save_to_files tools server "server.crt" "server.key" later).0
      (save_to_files tools server "server.crt" "server.key" later).1
unfolding text_discrete
save_to_files-Saves_example =
    save_to_files-Saves tools disk server "server.crt" "server.key" later refl
