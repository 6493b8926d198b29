-- ===== src/Scylladb/HttpProxy/Bytes.antt =====
-- The bytes that come behind the proxy's response: none is lost, and they keep their order.
use mathlib.Core.List.{append_assoc}
use terraform_provider_scyll.Base.{
  ℕ, String, ◌≡◌, ◌∙◌, refl, sym, ap, subst, true, false, not, List, [], ◌∷◌, ◌++◌, length,
  same_number, ltb, Bool-cases, inl, inr, arith,
}
use terraform_provider_scyll.Base.Exec.{Result, ok, err, Exec, pure, continue, ◌>>=◌}
use terraform_provider_scyll.Base.Exec.Inversion.{>>=-eq-ok}
use terraform_provider_scyll.Scylladb.HttpProxy.{
  Response, Wire, close_on_error, Dialed, direct, buffered_conn, HttpProxyDialer, proxy_host,
  connect_request, closing, deferring, secure, accept, dial, read,
}
use terraform_provider_scyll.Scylladb.HttpProxy.Sockets.{conn_of}

-- The bytes that wait in the reader, and those that the connection has still to give. A read gives
-- the first of them, and the reader empties its buffer before it reads the connection. Closing a body
-- reads nothing if the body has neither a length nor chunks.
pub record IsStream (W : Wire) : Type 0 where
  pub waiting : W.Conn → W.World → List ℕ
  pub arriving : W.Conn → W.World → List ℕ
  pub buffered-waiting : (c : W.Conn) (w : W.World) → W.buffered c w ≡ length (waiting c w)
  pub close_body-waiting :
      (r : Response) (c : W.Conn) (w : W.World)
      → r.framed ≡ false
      → waiting c (W.close_body r w) ≡ waiting c w
  pub close_body-arriving :
      (r : Response) (c : W.Conn) (w : W.World)
      → r.framed ≡ false
      → arriving c (W.close_body r w) ≡ arriving c w
  pub read_conn-arriving :
      (c : W.Conn) (n : ℕ) (w : W.World) (bytes : List ℕ)
      → (W.read_conn c n w).0 ≡ ok bytes
      → arriving c w ≡ bytes ++ arriving c (W.read_conn c n w).1
  pub read_reader-arriving :
      (c : W.Conn) (n : ℕ) (w : W.World) (bytes : List ℕ)
      → (W.read_reader c n w).0 ≡ ok bytes
      → let w' = (W.read_reader c n w).1 in
        waiting c w ++ arriving c w ≡ bytes ++ (waiting c w' ++ arriving c w')

ok-injective : {A : Type 0} (a b : A) → ok a ≡ ok b → a ≡ b
ok-injective a b h = cc

empty_of_length : {A : Type 0} (xs : List A) → length xs ≡ 0 → xs ≡ []
empty_of_length [] h = refl
empty_of_length (x ∷ xs) h = absurd (omega arith)

module _ (W : Wire) (M : IsStream W) where
  -- Reads of these sizes, one behind the other
  unfoldable pub reads : Dialed W.Conn → List ℕ → Exec W.World (List ℕ)
  reads d [] = pure []
  reads d (n ∷ ns) = do bytes ← read W d n; rest ← reads d ns; pure (bytes ++ rest)

  -- What the returned connection has still to give
  unfoldable pub remaining : Dialed W.Conn → W.World → List ℕ
  remaining (direct c) w = M.arriving c w
  remaining (buffered_conn c) w = M.waiting c w ++ M.arriving c w

  read-remaining :
      (d : Dialed W.Conn) (n : ℕ) (w : W.World) (bytes : List ℕ)
      → (read W d n w).0 ≡ ok bytes
      → remaining d w ≡ bytes ++ remaining d (read W d n w).1
  unfolding read remaining
  read-remaining (direct c) n w bytes h = M.read_conn-arriving c n w bytes h
  read-remaining (buffered_conn c) n w bytes h = M.read_reader-arriving c n w bytes h

  reads-remaining :
      (d : Dialed W.Conn) (ns : List ℕ) (w : W.World) (bytes : List ℕ)
      → (reads d ns w).0 ≡ ok bytes
      → remaining d w ≡ bytes ++ remaining d (reads d ns w).1
  unfolding reads
  reads-remaining d [] w bytes h = rw (← ok-injective [] bytes h) refl
  reads-remaining d (n ∷ ns) w bytes h =
      let (first, ran, more, end) =
        >>=-eq-ok (read W d n) (λ b. reads d ns >>= λ r. pure (b ++ r)) w h in
      let (rest, ran₂, last, end₂) =
        >>=-eq-ok (reads d ns) (λ r. pure (first ++ r)) (read W d n w).1 more in
      let rest_remains = reads-remaining d ns (read W d n w).1 rest ran₂ in
      read-remaining d n w first ran
      ∙ ap (λ t. first ++ t) rest_remains
      ∙ sym (append_assoc first rest _)
      ∙ ap (λ t. t ++ remaining d (reads d ns (read W d n w).1).1) (ok-injective _ bytes last)
      ∙ ap (λ v. bytes ++ remaining d v) (sym (end ∙ end₂))

  nothing_buffered :
      (c : W.Conn) (w : W.World) → ltb 0 (W.buffered c w) ≡ false → length (M.waiting c w) ≡ 0
  nothing_buffered c w none = ground (arith, M.buffered-waiting c w)

  accepted :
      (resp : Response)
      → not (same_number resp.status_code 200) ≡ false
      → same_number resp.status_code 200 ≡ true
  accepted resp good = ground arith

  -- The reader is left out only if nothing waits in it.
  accept-remaining :
      (c : W.Conn) (resp : Response) (w : W.World) (d : Dialed W.Conn)
      → (accept W c resp w).0 ≡ ok d
      → (conn_of d ≡ c)
        × (remaining d w ≡ M.waiting c w ++ M.arriving c w)
        × ((accept W c resp w).1 ≡ w)
        × (same_number resp.status_code 200 ≡ true)
  unfolding accept remaining
  accept-remaining c resp w d h = elim (Bool-cases (not (same_number resp.status_code 200))) [
    | inl bad ↦ absurd (cc (rw bad at h))
    | inr good ↦ elim (Bool-cases (ltb 0 (W.buffered c w))) [
      | inl more ↦
          let same : buffered_conn c ≡ d = ok-injective _ d (rw (good, more) at h) in
          rw (good, more, ← same) (refl, refl, refl, accepted resp good)
      | inr none ↦
          let same : direct c ≡ d = ok-injective _ d (rw (good, none) at h) in
          let empty = empty_of_length (M.waiting c w) (nothing_buffered c w none) in
          rw (good, none, ← same, empty) (refl, refl, refl, accepted resp good)
    ]
  ]

  remaining-close_body :
      (d : Dialed W.Conn) (resp : Response) (w : W.World)
      → resp.framed ≡ false
      → remaining d (W.close_body resp w) ≡ remaining d w
  unfolding remaining
  remaining-close_body (direct c) resp w bare = M.close_body-arriving resp c w bare
  remaining-close_body (buffered_conn c) resp w bare =
      rw (M.close_body-waiting resp c w bare, M.close_body-arriving resp c w bare) refl

  -- A connection that is returned gives all that waited or was to arrive when the response had been
  -- read on it, in a state `At` which that was done.
  pub record IsBehind (At : W.Conn → W.World → Type 0) (d : Dialed W.Conn) (w : W.World)
      : Type 0 where
    pub response : Response
    pub before : W.World
    pub asked : At (conn_of d) before
    pub answered : (W.read_response (conn_of d) before).0 ≡ ok response
    pub whole :
        let v = (W.read_response (conn_of d) before).1 in
        remaining d w ≡ M.waiting (conn_of d) v ++ M.arriving (conn_of d) v

  abbrev IsWhole : (W.Conn → W.World → Type 0) → Result (Dialed W.Conn) → W.World → Type 0
  IsWhole At (err e) w = Unit
  IsWhole At (ok d) w = IsBehind At d w

  continue-IsWhole :
      {A : Type 0} (At : W.Conn → W.World → Type 0) (r : Result A)
      (f : A → Exec W.World (Dialed W.Conn)) (w : W.World)
      → ((a : A) → r ≡ ok a → IsWhole At (f a w).0 (f a w).1)
      → IsWhole At (continue r f w).0 (continue r f w).1
  continue-IsWhole At (ok a) f w whole = whole a refl
  continue-IsWhole At (err e) f w whole = tt

  closing-eq-ok :
      {A : Type 0} (c : W.Conn) (text : String) (m : Exec W.World A) (w : W.World) (a : A)
      → (closing W c text m w).0 ≡ ok a
      → ((m w).0 ≡ ok a) × ((closing W c text m w).1 ≡ (m w).1)
  unfolding closing close_on_error
  closing-eq-ok {A} c text m w a h = go (m w).0 refl h
    where
      go :
          (r : Result A)
          → (m w).0 ≡ r
          → (closing W c text m w).0 ≡ ok a
          → ((m w).0 ≡ ok a) × ((closing W c text m w).1 ≡ (m w).1)
      go (ok b) e k = (e ∙ rw e at k, rw e refl)
      go (err x) e k = absurd (cc (rw e at k))

  deferring-IsWhole :
      (At : W.Conn → W.World → Type 0) (c : W.Conn) (resp : Response) (before : W.World)
      (r : Result (Dialed W.Conn))
      → At c before
      → (W.read_response c before).0 ≡ ok resp
      → (same_number resp.status_code 200 ≡ true → resp.framed ≡ false)
      → (accept W c resp (W.read_response c before).1).0 ≡ r
      → IsWhole At r (W.close_body resp (accept W c resp (W.read_response c before).1).1)
  deferring-IsWhole At c resp before (err e) asked answered conforms h = tt
  deferring-IsWhole At c resp before (ok d) asked answered conforms h =
      let w = (W.read_response c before).1 in
      let (same, all, still, good) = accept-remaining c resp w d h in
      record {
        response = resp;
        before = before;
        asked = rw same asked;
        answered = rw same answered;
        whole = rw (still, same) (remaining-close_body d resp w (conforms good) ∙ all);
      }

  -- What HTTP asks of the proxy: a response that accepts a `CONNECT` has no body.
  abbrev pub IsConforming : Type 0
  IsConforming =
      (c : W.Conn) (w : W.World) (resp : Response)
      → (W.read_response c w).0 ≡ ok resp
      → same_number resp.status_code 200 ≡ true
      → resp.framed ≡ false

  module _ (h : HttpProxyDialer W) (network addr : String) (w : W.World) where
    abbrev pub dialed : Result (Dialed W.Conn) × W.World
    dialed = dial W h network addr w

    -- The state in which `Dial` reads the response: behind the connection, the handshake where there
    -- is one, and the request
    abbrev pub IsAsked : W.Conn → W.World → Type 0
    IsAsked c v =
        let w₁ = (h.forward network (proxy_host W h) w).1 in
        (raw : W.Conn) × ((h.forward network (proxy_host W h) w).0 ≡ ok raw)
        × ((secure W h raw w₁).0 ≡ ok c)
        × (v ≡ (W.write (connect_request W h addr) c (secure W h raw w₁).1).1)

    dial-IsWhole : IsConforming → IsWhole IsAsked dialed.0 dialed.1
    unfolding dial deferring
    dial-IsWhole conforms =
        continue-IsWhole IsAsked (h.forward network (proxy_host W h) w).0 _ _ (λ raw reached.
          let w₁ = (h.forward network (proxy_host W h) w).1 in
          continue-IsWhole IsAsked (secure W h raw w₁).0 _ _ (λ c secured.
            let w₂ = (secure W h raw w₁).1 in
            let req = connect_request W h addr in
            let wrote = closing W c "failed to send CONNECT request: " (W.write req c) w₂ in
            continue-IsWhole IsAsked wrote.0 _ wrote.1 (λ sent done.
              let (_, wrote_it) = closing-eq-ok c _ (W.write req c) w₂ sent done in
              let got =
                closing W c "failed to read CONNECT response: " (W.read_response c) wrote.1 in
              continue-IsWhole IsAsked got.0 _ got.1 (λ resp e.
                let (answered, same) = closing-eq-ok c _ (W.read_response c) wrote.1 resp e in
                subst
                  (λ v.
                    IsWhole IsAsked (accept W c resp v).0 (W.close_body resp (accept W c resp v).1))
                  (sym same)
                  (deferring-IsWhole IsAsked c resp wrote.1 _ (raw, reached, secured, wrote_it)
                    answered (conforms c wrote.1 resp answered) refl)))))

    -- Behind a `Dial` that gives a connection, whatever sizes are read from it without an error,
    -- the bytes that were read, followed by those that remain, are the bytes that waited in the
    -- reader when `Dial` had read the response, followed by those that were still to arrive on the
    -- connection: none is lost, none comes twice, and their order is kept. A response of the proxy
    -- with the status 200 has no body with a length or chunks, as HTTP asks of an answer to
    -- `CONNECT`.
    pub dial-reads :
        IsConforming
        → (d : Dialed W.Conn) (ns bytes : List ℕ) → dialed.0 ≡ ok d
        → (reads d ns dialed.1).0 ≡ ok bytes
        → (resp : Response) × (before : W.World) × IsAsked (conn_of d) before
          × ((W.read_response (conn_of d) before).0 ≡ ok resp)
          × (M.waiting (conn_of d) (W.read_response (conn_of d) before).1
                ++ M.arriving (conn_of d) (W.read_response (conn_of d) before).1
              ≡ bytes ++ remaining d (reads d ns dialed.1).1)
    dial-reads conforms d ns bytes dialed_d read_all =
        let behind : IsBehind IsAsked d dialed.1 =
          subst (λ r. IsWhole IsAsked r dialed.1) dialed_d (dial-IsWhole conforms) in
        (
          behind.response,
          behind.before,
          behind.asked,
          behind.answered,
          sym behind.whole ∙ reads-remaining d ns dialed.1 bytes read_all,
        )
