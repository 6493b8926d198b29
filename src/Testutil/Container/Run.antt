-- ===== src/Testutil/Container/Run.antt =====
-- A test that uses internal/testutil/testutil.go, from its first call to its last cleanup, and what is
-- relied on of the containers.
use terraform_provider_scyll.Base.{
  String, ◌≡◌, Bool, true, false, ◌⊎◌, Option, none, some, List, [], ◌∷◌,
}
use terraform_provider_scyll.Base.Exec.{Error, ok, err}
use terraform_provider_scyll.Testutil.Cert.{Tools, Cert}
use terraform_provider_scyll.Testutil.Container.{
  Docker, ContainerRequest, Test, Helper, clean_up, new_test_container,
  new_test_scylla_container_mtls,
}

abbrev pub has_failed : List String → Bool
has_failed [] = false
has_failed (text ∷ rest) = true

module _ (X : Tools) (K : Docker X) where
  -- What a test asks for
  pub data Call : Type 0 where
    plain : Call
    mtls : Cert X → Cert X → Call

  unfoldable pub called : Call → Helper X K String
  called plain = new_test_container X K
  called (mtls ca server) = new_test_scylla_container_mtls X K ca server

  -- The calls of a test, as far as it comes
  unfoldable pub run_calls : List Call → Test X K → Test X K
  run_calls [] t = t
  run_calls (c ∷ cs) t = elim (called c t).0 [
    | none ↦ (called c t).1
    | some host ↦ run_calls cs (called c t).1
  ]

  -- The functions that `Cleanup` was given, which run when the test is over, also when one of them fails.
  unfoldable pub finish_from : List (Option K.Container) → Test X K → Test X K
  finish_from [] t = t
  finish_from (c ∷ cs) t = finish_from cs (clean_up X K c t)

  abbrev pub finished : List Call → Test X K → Test X K
  finished calls t = finish_from (run_calls calls t).cleanups (run_calls calls t)

  -- `Run` starts at most the container that it gives, `TerminateContainer` ends the one that it is
  -- given if it returns no error, and no other call starts one.
  pub record IsDocker : Type 0 where
    pub id : K.Container → String
    pub running : X.World → String → Bool
    pub run-running :
        (req : ContainerRequest X.Bytes) (w : X.World) (n : String)
        → running (K.run req w).1 n ≡ true
        → (running w n ≡ true) ⊎ ((c : K.Container) × ((K.run req w).0.0 ≡ some c) × (id c ≡ n))
    pub terminate_container-running :
        (c : Option K.Container) (w : X.World) (n : String)
        → running (K.terminate_container c w).1 n ≡ true
        → running w n ≡ true
    pub terminate_container-stops :
        (c : K.Container) (w : X.World)
        → (K.terminate_container (some c) w).0 ≡ ok tt
        → running (K.terminate_container (some c) w).1 (id c) ≡ false
    pub port_endpoint-running :
        (c : Option K.Container) (port proto : String) (w : X.World) (n : String)
        → running (K.port_endpoint c port proto w).1 n ≡ true
        → running w n ≡ true

  module _ (I : IsDocker) where
    -- A container that no cleanup ends: `Run` gave it beside an error, or it could not be terminated.
    pub data IsLeft (n : String) : Type 0 where
      not_ready :
          (req : ContainerRequest X.Bytes) (w : X.World) (c : K.Container) (e : Error)
          → (K.run req w).0 ≡ (some c, some e)
          → I.id c ≡ n
          → IsLeft n
      not_terminated :
          (w : X.World) (c : K.Container) (e : Error)
          → (K.terminate_container (some c) w).0 ≡ err e
          → I.id c ≡ n
          → IsLeft n
