-- ===== src/Testutil/Container/Cleanup.antt =====
-- Which containers run when a test that uses internal/testutil/testutil.go is over.
use terraform_provider_scyll.Base.{
  String, ◌≡◌, ◌∙◌, refl, sym, ap, subst, true, false, ◌⊎◌, inl, inr, Option, none, some, List, [],
  ◌∷◌,
}
use terraform_provider_scyll.Base.Exec.{Error, Result, ok, err, Exec}
use terraform_provider_scyll.Base.Exec.Inversion.{Result-cases}
use terraform_provider_scyll.Testutil.Cert.{Tools, Cert, pem_encoded_cert, cert_block, key_block}
use terraform_provider_scyll.Testutil.Container.{
  Docker, ContainerRequest, Test, Helper, ContainerFile, fatalf, fatal_on, or_fatal, next, ◌>>=◌,
  clean_up, behind_run, run_scylla, new_test_container, new_test_scylla_container_mtls,
}
use terraform_provider_scyll.Testutil.Container.Run.{
  has_failed, Call, plain, mtls, called, run_calls, finish_from, finished, IsDocker, IsLeft,
  not_ready, not_terminated,
}

module _ (X : Tools) (K : Docker X) where
  pem_state : (c : Cert X) (w : X.World) → (pem_encoded_cert X c w).1 ≡ w
  unfolding pem_encoded_cert
  pem_state c w = elim (Result-cases (X.encode (cert_block X c))) [
    | inr (e, failed) ↦ rw failed refl
    | inl (cert, encoded) ↦ elim (Result-cases (X.encode (key_block X c))) [
      | inr (e, failed) ↦ rw (encoded, failed) refl
      | inl (key, also) ↦ rw (encoded, also) refl
    ]
  ]

  false-ne-true : ¬ (false ≡ true)
  false-ne-true h = cc

  module _ (I : IsDocker X K) where
    data IsKept (n : String) : List (Option K.Container) → Type 0 where
      first :
          (c : K.Container) {cs : List (Option K.Container)} → I.id c ≡ n → IsKept n (some c ∷ cs)
      later :
          {c : Option K.Container} {cs : List (Option K.Container)}
          → IsKept n cs
          → IsKept n (c ∷ cs)

    kept_none : {n : String} → ¬ IsKept n []
    kept_none h = elim h [ ]

    module _ (start : X.World) where
      -- What runs ran at the start, waits for its cleanup, or is left by a test that has failed.
      abbrev Accounts : X.World → List String → List (Option K.Container) → Type 0
      Accounts w failures cs =
          (n : String)
          → I.running w n ≡ true
          → (I.running start n ≡ true)
            ⊎ (IsKept n cs ⊎ (IsLeft X K I n × (has_failed failures ≡ true)))

      abbrev Tracked : Test X K → Type 0
      Tracked t = Accounts t.world t.failures t.cleanups

      -- Code of a test that keeps the account
      record IsTracking {A : Type 0} (m : Helper X K A) : Type 0 where
        at : (t : Test X K) → Tracked t → Tracked (m t).1

      has_grown :
          {n : String} {F : Type 0} {cs : List (Option K.Container)}
          → (I.running start n ≡ true) ⊎ (IsKept n cs ⊎ (IsLeft X K I n × F))
          → (I.running start n ≡ true) ⊎ (IsKept n cs ⊎ (IsLeft X K I n × (true ≡ true)))
      has_grown (inl ran) = inl ran
      has_grown (inr (inl kept)) = inr (inl kept)
      has_grown (inr (inr (left, _))) = inr (inr (left, refl))

      fatal_on-IsTracking :
          {A : Type 0} (text : Error → String) (r : Result A) → IsTracking (fatal_on X K text r)
      unfolding fatal_on fatalf
      fatal_on-IsTracking text (ok a) = record { at = λ t h. h }
      fatal_on-IsTracking text (err e) = record { at = λ t h n live. has_grown (h n live) }

      next-Tracked :
          {A B : Type 0} (r : Option A) (f : A → Helper X K B) (t : Test X K)
          → Tracked t
          → ((a : A) → IsTracking (f a))
          → Tracked (next X K r f t).1
      unfolding next
      next-Tracked none f t h k = h
      next-Tracked (some a) f t h k = (k a).at t h

      >>=-IsTracking :
          {A B : Type 0} (m : Helper X K A) (f : A → Helper X K B)
          → IsTracking m
          → ((a : A) → IsTracking (f a))
          → IsTracking (◌>>=◌ X K m f)
      >>=-IsTracking m f km kf = record {
        at = λ t h. next-Tracked (m t).0 f (m t).1 (km.at t h) kf;
      }

      or_fatal-IsTracking :
          {A : Type 0} (text : Error → String) (m : Exec X.World A)
          → ((w : X.World) (n : String) → I.running (m w).1 n ≡ true → I.running w n ≡ true)
          → IsTracking (or_fatal X K text m)
      unfolding or_fatal
      or_fatal-IsTracking text m none_started = record {
        at = λ t h.
            (fatal_on-IsTracking text (m t.world).0).at (record t { world = (m t.world).1 })
              (λ n live. h n (none_started t.world n live));
      }

      one_more :
          {n : String} {L : Type 0} (c : Option K.Container) {cs : List (Option K.Container)}
          → (I.running start n ≡ true) ⊎ (IsKept n cs ⊎ L)
          → (I.running start n ≡ true) ⊎ (IsKept n (c ∷ cs) ⊎ L)
      one_more c (inl ran) = inl ran
      one_more c (inr (inl kept)) = inr (inl (later kept))
      one_more c (inr (inr left)) = inr (inr left)

      behind_run-Tracked :
          (req : ContainerRequest X.Bytes) (w : X.World) (c : Option K.Container) (e : Option Error)
          (t : Test X K)
          → (K.run req w).0 ≡ (c, e)
          → t.world ≡ (K.run req w).1
          → Accounts w t.failures t.cleanups
          → Tracked (behind_run X K c e t).1
      unfolding behind_run fatalf
      behind_run-Tracked req w c (some e) t answer behind h = λ n live.
          elim (I.run-running req w n (rw (← behind) live)) [
            | inl before ↦ has_grown (h n before)
            | inr (d, gave, named) ↦
                let given : c ≡ some d = sym (ap (λ a. a.0) answer) ∙ gave in
                inr (inr (not_ready req w d e (answer ∙ ap (λ x. (x, some e)) given) named, refl))
          ]
      behind_run-Tracked req w c none t answer behind h =
          (or_fatal-IsTracking _ (K.port_endpoint c "9042" "")
              (I.port_endpoint-running c "9042" "")).at
            (record t { cleanups = c ∷ t.cleanups })
            (λ n live. elim (I.run-running req w n (rw (← behind) live)) [
              | inl before ↦ one_more c (h n before)
              | inr (d, gave, named) ↦
                  let given : c ≡ some d = sym (ap (λ a. a.0) answer) ∙ gave in
                  inr (inl (subst (λ x. IsKept n (x ∷ t.cleanups)) (sym given) (first d named)))
            ])

      run_scylla-IsTracking :
          (files : List (ContainerFile X.Bytes)) → IsTracking (run_scylla X K files)
      unfolding run_scylla
      run_scylla-IsTracking files = record {
        at = λ t h. behind_run-Tracked _ t.world _ _ _ refl refl h;
      }

      pem-IsTracking :
          (text : Error → String) (c : Cert X)
          → IsTracking (or_fatal X K text (pem_encoded_cert X c))
      pem-IsTracking text c =
          or_fatal-IsTracking text (pem_encoded_cert X c)
            (λ w n live. subst (λ v. I.running v n ≡ true) (pem_state c w) live)

      called-IsTracking : (c : Call X K) → IsTracking (called X K c)
      unfolding called new_test_container new_test_scylla_container_mtls
      called-IsTracking plain =
          >>=-IsTracking _ _ (fatal_on-IsTracking K.unexpected _)
            (λ config. run_scylla-IsTracking _)
      called-IsTracking (mtls ca server) = >>=-IsTracking _ _ (fatal_on-IsTracking _ _) (λ config.
          >>=-IsTracking _ _ (pem-IsTracking _ ca) (λ pair.
            >>=-IsTracking _ _ (pem-IsTracking _ server) (λ other. run_scylla-IsTracking _)))

      run_calls-Tracked :
          (cs : List (Call X K)) (t : Test X K) → Tracked t → Tracked (run_calls X K cs t)
      unfolding run_calls
      run_calls-Tracked [] t h = h
      run_calls-Tracked (c ∷ cs) t h =
          elim (called X K c t).0
            as (λ r. Tracked (elim r [
              | none ↦ (called X K c t).1
              | some host ↦ run_calls X K cs (called X K c t).1
            ])) [
              | none ↦ (called-IsTracking c).at t h
              | some host ↦ run_calls-Tracked cs (called X K c t).1 ((called-IsTracking c).at t h)
            ]

      fatal_on_world :
          {A : Type 0} (text : Error → String) (r : Result A) (t : Test X K)
          → (fatal_on X K text r t).1.world ≡ t.world
      unfolding fatal_on fatalf
      fatal_on_world text (ok a) t = refl
      fatal_on_world text (err e) t = refl

      ended :
          (c : Option K.Container) (d : K.Container)
          → c ≡ some d
          → (w : X.World) → (K.terminate_container c w).0 ≡ ok tt
          → I.running (K.terminate_container c w).1 (I.id d) ≡ false
      ended c d is w stopped =
          subst (λ x. I.running (K.terminate_container x w).1 (I.id d) ≡ false) (sym is)
            (I.terminate_container-stops d w
              (ap (λ x. (K.terminate_container x w).0) (sym is) ∙ stopped))

      one_less :
          {n : String} {L M : Type 0} (c : Option K.Container) {cs : List (Option K.Container)}
          → (I.running start n ≡ true) ⊎ (IsKept n (c ∷ cs) ⊎ L)
          → (L → M)
          → ((d : K.Container)
              → c ≡ some d
              → I.id d ≡ n
              → (I.running start n ≡ true) ⊎ (IsKept n cs ⊎ M))
          → (I.running start n ≡ true) ⊎ (IsKept n cs ⊎ M)
      one_less c (inl ran) k f = inl ran
      one_less c (inr (inr left)) k f = inr (inr (k left))
      one_less c (inr (inl (later kept))) k f = inr (inl kept)
      one_less c (inr (inl (first d named))) k f = f d refl named

      -- A cleanup ends its container, or leaves it and fails.
      answered-Accounts :
          (r : Result (Unit {0})) (text : Error → String) (c : Option K.Container)
          (cs : List (Option K.Container)) (t : Test X K)
          → (K.terminate_container c t.world).0 ≡ r
          → Accounts t.world t.failures (c ∷ cs)
          → (v : X.World) → (K.terminate_container c t.world).1 ≡ v
          → Accounts v (fatal_on X K text r (record t { world = v })).1.failures cs
      unfolding fatal_on fatalf
      answered-Accounts (ok _) text c cs t stopped h v same n live =
          let still = subst (λ w. I.running w n ≡ true) (sym same) live in
          one_less c (h n (I.terminate_container-running c t.world n still)) (λ l. l)
            (λ d is named. absurd (
              false-ne-true (
                sym (ended c d is t.world stopped)
                ∙ subst (λ x. I.running (K.terminate_container c t.world).1 x ≡ true) (sym named)
                    still)))
      answered-Accounts (err e) text c cs t failed h v same n live =
          let still = subst (λ w. I.running w n ≡ true) (sym same) live in
          one_less c (h n (I.terminate_container-running c t.world n still)) (λ l. (l.0, refl))
            (λ d is named. inr (
              inr (
                not_terminated t.world d e
                    (ap (λ x. (K.terminate_container x t.world).0) (sym is) ∙ failed) named,
                refl,
              )))

      clean_up-Accounts :
          (c : Option K.Container) (cs : List (Option K.Container)) (t : Test X K)
          → Accounts t.world t.failures (c ∷ cs)
          → Accounts (clean_up X K c t).world (clean_up X K c t).failures cs
      unfolding clean_up or_fatal
      clean_up-Accounts c cs t h =
          let ended = K.terminate_container c t.world in
          subst (λ w. Accounts w (clean_up X K c t).failures cs)
            (sym (fatal_on_world _ ended.0 (record t { world = ended.1 })))
            (answered-Accounts ended.0 _ c cs t refl h ended.1 refl)

      finish_from-Accounts :
          (cs : List (Option K.Container)) (t : Test X K)
          → Accounts t.world t.failures cs
          → Accounts (finish_from X K cs t).world (finish_from X K cs t).failures []
      unfolding finish_from
      finish_from-Accounts [] t h = h
      finish_from-Accounts (c ∷ cs) t h =
          finish_from-Accounts cs (clean_up X K c t) (clean_up-Accounts c cs t h)

    -- Behind a test that calls `NewTestContainer` and `NewTestScyllaContainerMTLS` any number of
    -- times, as far as its failures let it come, and behind its cleanups, a container that runs has
    -- run before the test, or the test has failed, and `Run` can give that container beside an
    -- error or it can fail to be terminated. So a test that does not fail leaves none.
    pub finished-IsLeft :
        (calls : List (Call X K)) (t : Test X K) (n : String)
        → I.running (finished X K calls t).world n ≡ true
        → (I.running t.world n ≡ true)
          ⊎ (IsLeft X K I n × (has_failed (finished X K calls t).failures ≡ true))
    finished-IsLeft calls t n live =
        let tracked = run_calls-Tracked t.world calls t (λ m ran. inl ran) in
        elim (finish_from-Accounts t.world _ (run_calls X K calls t) tracked n live) [
          | inl ran ↦ inl ran
          | inr (inl kept) ↦ absurd (kept_none kept)
          | inr (inr left) ↦ inr left
        ]
