-- ===== src/Testutil/Container.antt =====
-- internal/testutil/testutil.go: a database in a container, for one test.
pub mod Run
pub mod Cleanup
use terraform_provider_scyll.Base.{ℕ, String, ◌<>◌, Option, none, some, List, [], ◌∷◌}
use terraform_provider_scyll.Base.Exec.{Error, error_text, Result, ok, err, Exec}
use terraform_provider_scyll.Testutil.Cert.{Tools, Cert, pem_encoded_cert}

-- What a file in the container is made from
pub data FileSource (Bytes : Type 0) : Type 0 where
  host_file_path : String → FileSource Bytes
  reader : Bytes → FileSource Bytes

pub record ContainerFile (Bytes : Type 0) : Type 0 where
  pub source : FileSource Bytes
  pub container_file_path : String
  pub file_mode : ℕ

pub data Strategy : Type 0 where
  for_listening_port : String → Strategy
  for_log : String → Strategy

-- What `testcontainers.Run` is asked for
pub record ContainerRequest (Bytes : Type 0) : Type 0 where
  pub image : String
  pub cmd_args : List String
  pub exposed_ports : List String
  pub wait_strategy : List Strategy
  pub files : List (ContainerFile Bytes)

-- What the code calls of `testcontainers`, `path/filepath`, `runtime` and `testify`. `Run` may give a
-- container beside an error.
pub record Docker (X : Tools) : Type 1 where
  pub Container : Type 0
  -- of `runtime.Caller(0)`
  pub filename : String
  pub dir : String → String
  pub join : List String → String
  pub abs : String → Result String
  pub run : ContainerRequest X.Bytes → X.World → (Option Container × Option Error) × X.World
  pub terminate_container : Option Container → Exec X.World (Unit {0})
  pub port_endpoint : Option Container → String → String → Exec X.World String
  -- the message of `require.NoError`
  pub unexpected : Error → String

-- `testing.T`: the functions that `Cleanup` was given, by the container that each of them ends, the last
-- one first, and the messages of the failures.
pub record Test (X : Tools) (K : Docker X) : Type 0 where
  pub world : X.World
  pub cleanups : List (Option K.Container)
  pub failures : List String

module _ (X : Tools) (K : Docker X) where
  -- Code of a test: it gives nothing if a failure has ended the test.
  abbrev pub Helper : Type 0 → Type 0
  Helper A = Test X K → Option A × Test X K

  -- `t.Fatalf`
  unfoldable pub fatalf : {A : Type 0} → String → Helper A
  fatalf text t = (none, record t { failures = text ∷ t.failures })

  unfoldable pub fatal_on : {A : Type 0} → (Error → String) → Result A → Helper A
  unfolding fatalf
  fatal_on text (ok a) t = (some a, t)
  fatal_on text (err e) t = fatalf (text e) t

  unfoldable pub next : {A B : Type 0} → Option A → (A → Helper B) → Helper B
  next none f t = (none, t)
  next (some a) f t = f a t

  infixl 5 ◌>>=◌
  abbrev pub ◌>>=◌ : {A B : Type 0} → Helper A → (A → Helper B) → Helper B
  ◌>>=◌ m f t = next (m t).0 f (m t).1

  -- A call whose error ends the test
  unfoldable pub or_fatal : {A : Type 0} → (Error → String) → Exec X.World A → Helper A
  unfolding fatal_on
  or_fatal text m t = fatal_on text (m t.world).0 (record t { world = (m t.world).1 })

  -- The function that `Cleanup` is given
  unfoldable pub clean_up : Option K.Container → Test X K → Test X K
  unfolding or_fatal
  clean_up c t =
      (or_fatal (λ e. "failed to terminate the scylla container: " <> error_text e)
        (K.terminate_container c) t).1

  -- Behind `Run`
  unfoldable pub behind_run : Option K.Container → Option Error → Helper String
  unfolding or_fatal fatalf
  behind_run c (some e) t = fatalf ("failed to start the scylla container: " <> error_text e) t
  behind_run c none t =
      or_fatal (λ e. "failed to get the scylla container endpoint: " <> error_text e)
        (K.port_endpoint c "9042" "") (record t { cleanups = c ∷ t.cleanups })

  unfoldable pub run_scylla : List (ContainerFile X.Bytes) → Helper String
  unfolding behind_run
  run_scylla files t =
      let (answer, w) =
        K.run
          (record {
            image = "scylladb/scylla:2025.4.1";
            cmd_args = "--smp" ∷ "1" ∷ "--overprovisioned" ∷ "1" ∷ [];
            exposed_ports = "9042/tcp" ∷ [];
            wait_strategy = for_listening_port "9042/tcp" ∷ for_log "initialization completed" ∷ [];
            files = files;
          })
          t.world in
      behind_run answer.0 answer.1 (record t { world = w })

  unfoldable pub scylla_config : String → Result String
  scylla_config name = K.abs (K.join (K.dir K.filename ∷ "testdata" ∷ name ∷ []))

  -- 511 is the mode 0777.
  unfoldable pub file : FileSource X.Bytes → String → ContainerFile X.Bytes
  file source path = record { source = source; container_file_path = path; file_mode = 511 }

  unfoldable pub new_test_container : Helper String
  unfolding next
  new_test_container = do
    config ← fatal_on K.unexpected (scylla_config "scylla.yaml")
    run_scylla (file (host_file_path config) "/etc/scylla/scylla.yaml" ∷ [])

  unfoldable pub new_test_scylla_container_mtls : Cert X → Cert X → Helper String
  unfolding next
  new_test_scylla_container_mtls ca_cert server_cert = do
    config ←
        fatal_on (λ e. "failed to get scylla config path: " <> error_text e)
          (scylla_config "scylla_mtls.yaml")
    ca ←
        or_fatal (λ e. "failed to get CA PEM encoded cert: " <> error_text e)
          (pem_encoded_cert X ca_cert)
    server ←
        or_fatal (λ e. "failed to get server PEM encoded cert: " <> error_text e)
          (pem_encoded_cert X server_cert)
    run_scylla (
        file (host_file_path config) "/etc/scylla/scylla.yaml"
        ∷ file (reader ca.0) "/etc/scylla/ca.crt"
        ∷ file (reader server.0) "/etc/scylla/server.crt"
        ∷ file (reader server.1) "/etc/scylla/server.key"
        ∷ [])
