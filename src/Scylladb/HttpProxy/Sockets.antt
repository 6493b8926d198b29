-- ===== src/Scylladb/HttpProxy/Sockets.antt =====
-- What `Dial` leaves open, and what it has sent.
use terraform_provider_scyll.Base.{
  ℕ, String, ◌≡◌, ◌∙◌, refl, sym, ap, subst, Bool, true, false, not, List, ◌∷◌, ◌==◌, if◌then◌else◌,
  same_number, ltb, Bool-cases, inl, inr, arith,
}
use terraform_provider_scyll.Base.Exec.{Error, Result, ok, err, Exec, pure, continue, ◌>>=◌, ◌>>◌}
use terraform_provider_scyll.Scylladb.HttpProxy.{
  Request, Response, Wire, Dialed, direct, buffered_conn, HttpProxyDialer, connect_request,
  proxy_host, close_on_error, closing, deferring, secure, server_name, accept, dial,
}

-- Sockets by number, and the requests sent, the last one first. A TLS connection stands on the
-- socket of the connection below it; `Close` closes the socket, and a dial that succeeds opens a
-- new one.
pub record IsTracked (W : Wire) (h : HttpProxyDialer W) : Type 0 where
  pub socket : W.Conn → ℕ
  pub is_open : W.World → ℕ → Bool
  pub sent : W.World → List Request
  pub socket-client : (c : W.Conn) (name : String) → socket (W.client c name) ≡ socket c
  pub forward-err :
      (network addr : String) (w : W.World) (e : Error)
      → (h.forward network addr w).0 ≡ err e
      → (x : ℕ) → is_open (h.forward network addr w).1 x ≡ is_open w x
  pub forward-ok :
      (network addr : String) (w : W.World) (c : W.Conn)
      → (h.forward network addr w).0 ≡ ok c
      → (is_open w (socket c) ≡ false)
        × ((x : ℕ)
            → is_open (h.forward network addr w).1 x
              ≡ (if same_number x (socket c) then true else is_open w x))
  pub handshake-open :
      (c : W.Conn) (w : W.World) (x : ℕ) → is_open (W.handshake c w).1 x ≡ is_open w x
  pub write-open :
      (r : Request) (c : W.Conn) (w : W.World) (x : ℕ) → is_open (W.write r c w).1 x ≡ is_open w x
  pub read_response-open :
      (c : W.Conn) (w : W.World) (x : ℕ) → is_open (W.read_response c w).1 x ≡ is_open w x
  pub close_body-open :
      (r : Response) (w : W.World) (x : ℕ) → is_open (W.close_body r w) x ≡ is_open w x
  pub close-open :
      (c : W.Conn) (w : W.World) (x : ℕ)
      → is_open (W.close c w) x ≡ (if same_number x (socket c) then false else is_open w x)
  pub forward-sent :
      (network addr : String) (w : W.World) → sent (h.forward network addr w).1 ≡ sent w
  pub handshake-sent : (c : W.Conn) (w : W.World) → sent (W.handshake c w).1 ≡ sent w
  pub write-sent :
      (r : Request) (c : W.Conn) (w : W.World)
      → (W.write r c w).0 ≡ ok tt
      → sent (W.write r c w).1 ≡ r ∷ sent w
  pub read_response-sent : (c : W.Conn) (w : W.World) → sent (W.read_response c w).1 ≡ sent w
  pub close_body-sent : (r : Response) (w : W.World) → sent (W.close_body r w) ≡ sent w

abbrev pub conn_of : {C : Type 0} → Dialed C → C
conn_of (direct c) = c
conn_of (buffered_conn c) = c

module _ (W : Wire) (h : HttpProxyDialer W) (T : IsTracked W h) (network addr : String)
    (w : W.World) where
  -- An error leaves the sockets as they were. A connection is one new open socket, over which the
  -- request to connect has gone out, and nothing else.
  abbrev pub Ends : Result (Dialed W.Conn) → W.World → Type 0
  Ends (err e) w' = (x : ℕ) → T.is_open w' x ≡ T.is_open w x
  Ends (ok d) w' =
      ((x : ℕ)
        → T.is_open w' x ≡ (if same_number x (T.socket (conn_of d)) then true else T.is_open w x))
      × (T.sent w' ≡ connect_request W h addr ∷ T.sent w)

  -- The socket of the connection is the only new one.
  abbrev Live : W.Conn → W.World → Type 0
  Live c w' =
      (T.is_open w (T.socket c) ≡ false)
      × ((x : ℕ) → T.is_open w' x ≡ (if same_number x (T.socket c) then true else T.is_open w x))

  close-Live :
      (c : W.Conn) (w' : W.World) → Live c w' → (x : ℕ) → T.is_open (W.close c w') x ≡ T.is_open w x
  close-Live c w' (fresh, live) x = ground (arith, T.close-open c w' x, live x)

  close_on_error-Ends :
      {A : Type 0} (c : W.Conn) (text : String) (r : Result A) (w' : W.World)
      (f : A → Exec W.World (Dialed W.Conn))
      → Live c w'
      → ((a : A) → r ≡ ok a → Ends (f a w').0 (f a w').1)
      → let out = close_on_error W c text r w' in
        Ends (continue out.0 f out.1).0 (continue out.0 f out.1).1
  unfolding close_on_error
  close_on_error-Ends c text (ok a) w' f live next = next a refl
  close_on_error-Ends c text (err e) w' f live next = close-Live c w' live

  returned-Ends :
      (c : W.Conn) (resp : Response) (w' : W.World)
      → Live c w'
      → T.sent w' ≡ connect_request W h addr ∷ T.sent w
      → Ends (ok (direct c)) (W.close_body resp w')
  returned-Ends c resp w' (fresh, live) sent =
      (λ x. T.close_body-open resp w' x ∙ live x, T.close_body-sent resp w' ∙ sent)

  accept-Ends :
      (c : W.Conn) (resp : Response) (w' : W.World)
      → Live c w'
      → T.sent w' ≡ connect_request W h addr ∷ T.sent w
      → Ends (deferring W resp (accept W c resp) w').0 (deferring W resp (accept W c resp) w').1
  unfolding deferring accept
  accept-Ends c resp w' live sent = elim (Bool-cases (not (same_number resp.status_code 200))) [
    | inl bad ↦ rw bad (λ x. T.close_body-open resp (W.close c w') x ∙ close-Live c w' live x)
    | inr good ↦ elim (Bool-cases (ltb 0 (W.buffered c w'))) [
      | inl more ↦ rw (good, more) (returned-Ends c resp w' live sent)
      | inr none ↦ rw (good, none) (returned-Ends c resp w' live sent)
    ]
  ]

  -- Behind the handshake, if there is one
  connected-Ends :
      (c : W.Conn) (w' : W.World)
      → Live c w'
      → T.sent w' ≡ T.sent w
      → let req = connect_request W h addr in
        let rest : Exec W.World (Dialed W.Conn) =
          closing W c "failed to send CONNECT request: " (W.write req c)
          >> (closing W c "failed to read CONNECT response: " (W.read_response c) >>= λ resp.
              deferring W resp (accept W c resp)) in
        Ends (rest w').0 (rest w').1
  unfolding closing
  connected-Ends c w' live same =
      let req = connect_request W h addr in
      let wrote = W.write req c w' in
      let read = W.read_response c wrote.1 in
      close_on_error-Ends c "failed to send CONNECT request: " wrote.0 wrote.1 _
        (live.0, λ x. T.write-open req c w' x ∙ live.1 x)
        (λ _ done.
          close_on_error-Ends c "failed to read CONNECT response: " read.0 read.1 _
            (live.0, λ x. T.read_response-open c wrote.1 x ∙ T.write-open req c w' x ∙ live.1 x)
            (λ resp got.
              accept-Ends c resp read.1
                (live.0, λ x. T.read_response-open c wrote.1 x ∙ T.write-open req c w' x ∙ live.1 x)
                (T.read_response-sent c wrote.1
                  ∙ T.write-sent req c w' done
                  ∙ ap (λ rs. req ∷ rs) same)))

  abbrev rest : W.Conn → Exec W.World (Dialed W.Conn)
  rest c =
      closing W c "failed to send CONNECT request: " (W.write (connect_request W h addr) c)
      >> (closing W c "failed to read CONNECT response: " (W.read_response c) >>= λ resp.
          deferring W resp (accept W c resp))

  -- A handshake that succeeds leaves a connection on the same socket.
  handshaken-Ends :
      (c : W.Conn) (r : Result (Unit {0})) (w' : W.World)
      → Live c w'
      → T.sent w' ≡ T.sent w
      → let tls = W.client c (server_name W h) in
        let out = close_on_error W c "TLS handshake with proxy failed: " r w' in
        let kept = continue out.0 (λ _. pure tls) out.1 in
        Ends (continue kept.0 rest kept.1).0 (continue kept.0 rest kept.1).1
  unfolding close_on_error
  handshaken-Ends c (ok _) w' live same =
      let name = server_name W h in
      connected-Ends (W.client c name) w'
        (subst
          (λ n.
            (T.is_open w n ≡ false)
            × ((x : ℕ) → T.is_open w' x ≡ (if same_number x n then true else T.is_open w x)))
          (sym (T.socket-client c name)) live)
        same
  handshaken-Ends c (err e) w' live same = close-Live c w' live

  secure-Ends :
      (c : W.Conn) (w' : W.World)
      → Live c w'
      → T.sent w' ≡ T.sent w
      → Ends ((secure W h c >>= rest) w').0 ((secure W h c >>= rest) w').1
  unfolding secure
  secure-Ends c w' live same = elim (Bool-cases (not (h.proxy_url.scheme == "https"))) [
    | inl plain ↦ rw plain (connected-Ends c w' live same)
    | inr tls ↦
        let shook = W.handshake (W.client c (server_name W h)) w' in
        rw tls (
          handshaken-Ends c shook.0 shook.1
            (live.0, λ x. T.handshake-open (W.client c (server_name W h)) w' x ∙ live.1 x)
            (T.handshake-sent (W.client c (server_name W h)) w' ∙ same))
  ]

  forwarded-Ends :
      (r : Result W.Conn)
      → let out = h.forward network (proxy_host W h) w in
        out.0 ≡ r
        → Ends
            (continue r (λ c. secure W h c >>= rest) out.1).0
            (continue r (λ c. secure W h c >>= rest) out.1).1
  forwarded-Ends (ok c) got =
      secure-Ends c (h.forward network (proxy_host W h) w).1
        (T.forward-ok network (proxy_host W h) w c got) (T.forward-sent network (proxy_host W h) w)
  forwarded-Ends (err e) got = T.forward-err network (proxy_host W h) w e got

  -- `Dial` leaks no socket: if it ends with an error, the sockets that are open are those that were
  -- open before. If it gives a connection, that one is the only socket it has opened, and exactly
  -- the request to connect to the address, with the proxy's credentials, has been sent.
  pub dial-Ends : Ends (dial W h network addr w).0 (dial W h network addr w).1
  unfolding dial
  dial-Ends = forwarded-Ends (h.forward network (proxy_host W h) w).0 refl
