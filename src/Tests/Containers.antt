-- ===== src/Tests/Containers.antt =====
-- A test that asks for two databases, on a machine that starts and ends containers by name.
use terraform_provider_scyll.Base.{
  String, ◌<>◌, ◌≡◌, refl, Bool, true, false, not, ◌&&◌, ◌⊎◌, inl, inr, none, some, List, [], ◌∷◌,
  ◌==◌, contains, if◌then◌else◌, text_discrete, Bool-cases, arith, Option,
}
use terraform_provider_scyll.Base.Exec.{Error, message, ok}
use terraform_provider_scyll.Testutil.Cert.{pem_encoded_cert}
use terraform_provider_scyll.Testutil.Container.{
  Docker, Test, new_test_container, new_test_scylla_container_mtls, run_scylla, behind_run,
  or_fatal, fatal_on, fatalf, scylla_config, file, next, clean_up,
}
use terraform_provider_scyll.Testutil.Container.Run.{
  IsDocker, IsLeft, Call, plain, mtls, finished, has_failed, finish_from, run_calls, called,
}
use terraform_provider_scyll.Testutil.Container.Cleanup.{finished-IsLeft}
use terraform_provider_scyll.Tests.Certificates.{Machine, tools, start, ca, server}

abbrev remove : String → List String → List String
remove c [] = []
remove c (x ∷ xs) = let rest = remove c xs in if x == c then rest else x ∷ rest

contains-remove :
    (c : String) (xs : List String) (n : String)
    → contains (remove c xs) n ≡ (contains xs n && not (n == c))
contains-remove c [] n = refl
contains-remove c (x ∷ xs) n = ground (arith, contains-remove c xs n)

abbrev terminate : Option String → Machine → Machine
terminate none w = w
terminate (some c) w = record w { live = remove c w.live }

abbrev name : List String → String
name [] = "first"
name (x ∷ xs) = "other"

abbrev failure : Bool → Option Error
failure true = none
failure false = some (message "timeout")

-- Whether the database comes up in time
abbrev docker : Bool → Docker tools
docker ready = record {
  Container = String;
  filename = "/src/internal/testutil/testutil.go";
  dir = λ path. "/src/internal/testutil";
  join = λ parts. "/src/internal/testutil/testdata/scylla.yaml";
  abs = λ path. ok path;
  run = λ req w. ((some (name w.live), failure ready), record w { live = name w.live ∷ w.live });
  terminate_container = λ c w. (ok tt, terminate c w);
  port_endpoint = λ c port proto w. (ok ("localhost:" <> port), w);
  unexpected = λ e. "unexpected error";
}

started :
    (c : String) (live : List String) (n : String)
    → contains (c ∷ live) n ≡ true
    → (contains live n ≡ true) ⊎ (c ≡ n)
started c live n h = elim (Bool-cases (contains live n)) [
  | inl before ↦ inl before
  | inr absent ↦ inr (ground arith)
]

ends :
    (c : Option String) (w : Machine) (n : String)
    → contains (terminate c w).live n ≡ true
    → contains w.live n ≡ true
ends none w n h = h
ends (some c) w n h = ground (arith, contains-remove c w.live n)

stops : (c : String) (live : List String) → contains (remove c live) c ≡ false
stops c live = ground (arith, contains-remove c live c)

abbrev dockerd : (ready : Bool) → IsDocker tools (docker ready)
dockerd ready = record {
  id = λ c. c;
  running = λ w n. contains w.live n;
  run-running = λ req w n h. elim (started (name w.live) w.live n h) [
    | inl before ↦ inl before
    | inr named ↦ inr (name w.live, refl, named)
  ];
  terminate_container-running = ends;
  terminate_container-stops = λ c w h. stops c w.live;
  port_endpoint-running = λ c port proto w n h. h;
}

abbrev calls : (ready : Bool) → List (Call tools (docker ready))
calls ready = plain ∷ mtls ca server ∷ []

abbrev before : (ready : Bool) → Test tools (docker ready)
before ready = record { world = start; cleanups = []; failures = [] }

-- Where all goes well nothing runs in the end.
finished_none : (finished tools (docker true) (calls true) (before true)).world.live ≡ []
unfolding finish_from run_calls called new_test_container new_test_scylla_container_mtls run_scylla
    behind_run or_fatal fatal_on fatalf scylla_config file next clean_up pem_encoded_cert
    text_discrete
finished_none = refl

-- The one that does not come up in time is left, by a test that fails.
finished-IsLeft_example :
    (contains start.live "first" ≡ true)
    ⊎ (IsLeft tools (docker false) (dockerd false) "first"
        × (has_failed (finished tools (docker false) (calls false) (before false)).failures ≡ true))
unfolding finish_from run_calls called new_test_container run_scylla behind_run or_fatal fatal_on
    fatalf scylla_config file next clean_up text_discrete
finished-IsLeft_example =
    finished-IsLeft tools (docker false) (dockerd false) (calls false) (before false) "first" refl
