-- ===== src/Testutil/Cert/Files.antt =====
-- `SaveToFiles` of internal/testutil/certutil.go: what is in the files behind it, also when it fails.
use terraform_provider_scyll.Base.{
  ℕ, String, ◌<>◌, ◌≡◌, ◌∙◌, refl, ap, false, Option, none, some, ◌==◌, inl, inr, arith,
}
use terraform_provider_scyll.Base.Exec.{Error, message, error_text, Result, ok, err}
use terraform_provider_scyll.Base.Exec.Inversion.{Result-cases}
use terraform_provider_scyll.Testutil.Cert.{
  Tools, Cert, save_to_files, pem_encoded_cert, cert_block, key_block, or_explain, explained,
}

abbrev pub mode_of : Option ℕ → ℕ → ℕ
mode_of none perm = perm
mode_of (some mode) perm = mode

module _ (X : Tools) where
  -- `os.WriteFile`: a file that is there keeps its mode, a new one gets the permission that is asked
  -- for, less the mask of the process; one that fails may leave anything in its file, and nothing
  -- elsewhere.
  pub record IsDisk : Type 0 where
    pub content : X.World → String → Option X.Bytes
    pub mode : X.World → String → Option ℕ
    pub masked : ℕ → ℕ
    pub write_file-content :
        (path : String) (b : X.Bytes) (perm : ℕ) (w : X.World)
        → (X.write_file path b perm w).0 ≡ ok tt
        → (content (X.write_file path b perm w).1 path ≡ some b)
          × (mode (X.write_file path b perm w).1 path ≡ some (mode_of (mode w path) (masked perm)))
    pub write_file-elsewhere :
        (path : String) (b : X.Bytes) (perm : ℕ) (w : X.World) (other : String)
        → (other == path) ≡ false
        → (content (X.write_file path b perm w).1 other ≡ content w other)
          × (mode (X.write_file path b perm w).1 other ≡ mode w other)

  module _ (D : IsDisk) (c : Cert X) (cert_path key_path : String) (w : X.World) where
    abbrev pub Same : X.World → String → Type 0
    Same v path = (D.content v path ≡ D.content w path) × (D.mode v path ≡ D.mode w path)

    -- How `SaveToFiles` ends
    pub data Saves : Result (Unit {0}) → X.World → Type 0 where
      saved :
          (v : X.World) (cert key : X.Bytes)
          → X.encode (cert_block X c) ≡ ok cert
          → X.encode (key_block X c) ≡ ok key
          → D.content v cert_path ≡ some cert
          → D.content v key_path ≡ some key
          → D.mode v cert_path ≡ some (mode_of (D.mode w cert_path) (D.masked 420))
          → D.mode v key_path ≡ some (mode_of (D.mode w key_path) (D.masked 384))
          → ((path : String)
              → (path == cert_path) ≡ false
              → (path == key_path) ≡ false
              → Same v path)
          → Saves (ok tt) v
      cert_not_encoded : (e : Error) → X.encode (cert_block X c) ≡ err e → Saves (err e) w
      key_not_encoded :
          (e : Error) (cert : X.Bytes)
          → X.encode (cert_block X c) ≡ ok cert
          → X.encode (key_block X c) ≡ err e
          → Saves (err e) w
      no_cert_file :
          (v : X.World) (e : Error) (cert : X.Bytes)
          → X.encode (cert_block X c) ≡ ok cert
          → X.write_file cert_path cert 420 w ≡ (err e, v)
          → ((path : String) → (path == cert_path) ≡ false → Same v path)
          → Saves (err (message ("failed to write cert file: " <> error_text e))) v
      no_key_file :
          (v : X.World) (e : Error) (cert key : X.Bytes)
          → X.encode (cert_block X c) ≡ ok cert
          → X.encode (key_block X c) ≡ ok key
          → X.write_file key_path key 384 (X.write_file cert_path cert 420 w).1 ≡ (err e, v)
          → D.content v cert_path ≡ some cert
          → ((path : String)
              → (path == cert_path) ≡ false
              → (path == key_path) ≡ false
              → Same v path)
          → Saves (err (message ("failed to write key file: " <> error_text e))) v

    module _ (distinct : (cert_path == key_path) ≡ false) (cert key : X.Bytes)
        (cert_encoded : X.encode (cert_block X c) ≡ ok cert)
        (key_encoded : X.encode (key_block X c) ≡ ok key) where
      abbrev written : X.World
      written = (X.write_file cert_path cert 420 w).1

      abbrev finished : X.World
      finished = (X.write_file key_path key 384 written).1

      untouched :
          (path : String)
          → (path == cert_path) ≡ false
          → (path == key_path) ≡ false
          → Same finished path
      untouched path no_cert no_key =
          let (content, mode) = D.write_file-elsewhere key_path key 384 written path no_key in
          let (content0, mode0) = D.write_file-elsewhere cert_path cert 420 w path no_cert in
          (content ∙ content0, mode ∙ mode0)

      key-Saves :
          (r : Result (Unit {0}))
          → (X.write_file cert_path cert 420 w).0 ≡ ok tt
          → (X.write_file key_path key 384 written).0 ≡ r
          → Saves (explained X "failed to write key file: " r) finished
      unfolding explained
      key-Saves (ok _) cert_ok e =
          let (kept, kept_mode) =
            D.write_file-elsewhere key_path key 384 written cert_path distinct in
          let (content, mode) = D.write_file-content cert_path cert 420 w cert_ok in
          let (key_content, key_mode) = D.write_file-content key_path key 384 written e in
          let (_, before) =
            D.write_file-elsewhere cert_path cert 420 w key_path (ground (arith, distinct)) in
          saved finished cert key cert_encoded key_encoded (kept ∙ content) key_content
            (kept_mode ∙ mode) (rw (← before) key_mode) untouched
      key-Saves (err x) cert_ok e =
          let (kept, _) = D.write_file-elsewhere key_path key 384 written cert_path distinct in
          let (content, _) = D.write_file-content cert_path cert 420 w cert_ok in
          no_key_file finished x cert key cert_encoded key_encoded (ap (λ r. (r, finished)) e)
            (kept ∙ content) untouched

    -- `SaveToFiles` to two different paths ends in one of four ways. It returns no error, and the
    -- files hold the certificate and the private key in PEM, with the mode 0644 and 0600, less the
    -- mask of the process, where they are new, and the mode they had where they are not. Or a block
    -- cannot be encoded, the error is that of the encoding, and nothing has changed. Or both are
    -- encoded, the certificate's file cannot be written, the error carries that of the write, and
    -- no other file has changed. Or both are encoded, the key's file cannot be written, the error
    -- carries that of the write, and the certificate's file holds the certificate. No third file
    -- ever changes.
    pub save_to_files-Saves :
        (distinct : (cert_path == key_path) ≡ false)
        → Saves
            (save_to_files X c cert_path key_path w).0
            (save_to_files X c cert_path key_path w).1
    unfolding save_to_files pem_encoded_cert or_explain explained
    save_to_files-Saves distinct = elim (Result-cases (X.encode (cert_block X c))) [
      | inr (e, failed) ↦ rw failed (cert_not_encoded e failed)
      | inl (cert, cert_encoded) ↦ elim (Result-cases (X.encode (key_block X c))) [
        | inr (e, failed) ↦ rw (cert_encoded, failed) (key_not_encoded e cert cert_encoded failed)
        | inl (key, key_encoded) ↦
            rw (cert_encoded, key_encoded)
              elim (Result-cases (X.write_file cert_path cert 420 w).0) [
                | inr (e, failed) ↦ rw failed (
                    no_cert_file (X.write_file cert_path cert 420 w).1 e cert cert_encoded
                      (ap (λ r. (r, (X.write_file cert_path cert 420 w).1)) failed)
                      (D.write_file-elsewhere cert_path cert 420 w))
                | inl (_, cert_ok) ↦
                    rw cert_ok (key-Saves distinct cert key cert_encoded key_encoded _ cert_ok refl)
              ]
      ]
    ]
