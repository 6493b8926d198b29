-- ===== src/Tests/Bytes.antt =====
-- A proxy whose response is followed at once by bytes of the host behind it.
use mathlib.Core.List.{append_assoc}
use terraform_provider_scyll.Base.{
  ℕ, zero, suc, false, ◌<>◌, ◌≡◌, refl, ap, List, [], ◌∷◌, ◌++◌, none, length, text_discrete, ◌∙◌,
  sym,
}
use terraform_provider_scyll.Base.Exec.{Result, ok}
use terraform_provider_scyll.Scylladb.HttpProxy.{
  Wire, Response, buffered_conn, HttpProxyDialer, dial, read,
}
use terraform_provider_scyll.Scylladb.HttpProxy.Bytes.{
  IsStream, IsConforming, IsAsked, reads, remaining, dial-reads,
}

record Feed : Type 0 where
  waiting : List ℕ
  arriving : List ℕ

abbrev take : ℕ → List ℕ → List ℕ
take zero xs = []
take (suc n) [] = []
take (suc n) (x ∷ xs) = x ∷ take n xs

abbrev drop : ℕ → List ℕ → List ℕ
drop zero xs = xs
drop (suc n) [] = []
drop (suc n) (x ∷ xs) = drop n xs

take-drop : (n : ℕ) (xs : List ℕ) → xs ≡ take n xs ++ drop n xs
take-drop zero xs = refl
take-drop (suc n) [] = refl
take-drop (suc n) (x ∷ xs) = ap (λ t. x ∷ t) (take-drop n xs)

abbrev from_conn : ℕ → Feed → Result (List ℕ) × Feed
from_conn n w = (ok (take n w.arriving), record w { arriving = drop n w.arriving })

-- The buffer first, then the connection
abbrev from_reader : List ℕ → ℕ → Feed → Result (List ℕ) × Feed
from_reader [] n w = from_conn n w
from_reader (b ∷ bs) n w = (ok (take n (b ∷ bs)), record w { waiting = drop n (b ∷ bs) })

abbrev wire : Wire
wire = record {
  Conn = Unit {0};
  World = Feed;
  port = λ url. "3128";
  hostname = λ url. url.host;
  split_host_port = λ host. ok (host, "3128");
  join_host_port = λ host port. host <> ":" <> port;
  encode_to_string = λ s. s;
  client = λ c name. c;
  handshake = λ c w. (ok tt, w);
  close = λ c w. w;
  write = λ r c w. (ok tt, w);
  read_response = λ c w. (ok (record { status_code = 200; status = "200 OK"; framed = false }), w);
  close_body = λ resp w. w;
  buffered = λ c w. length w.waiting;
  read_conn = λ c n w. from_conn n w;
  read_reader = λ c n w. from_reader w.waiting n w;
}

read_ok : {A : Type 0} (a b : A) → ok a ≡ ok b → a ≡ b
read_ok a b h = cc

from_conn_lem :
    (n : ℕ) (w : Feed) (bytes : List ℕ)
    → (from_conn n w).0 ≡ ok bytes
    → w.arriving ≡ bytes ++ (from_conn n w).1.arriving
from_conn_lem n w bytes h =
    take-drop n w.arriving ∙ ap (λ t. t ++ drop n w.arriving) (read_ok _ bytes h)

from_reader_lem :
    (ws : List ℕ) (n : ℕ) (w : Feed) (bytes : List ℕ)
    → w.waiting ≡ ws
    → (from_reader ws n w).0 ≡ ok bytes
    → ws ++ w.arriving
      ≡ bytes ++ ((from_reader ws n w).1.waiting ++ (from_reader ws n w).1.arriving)
from_reader_lem [] n w bytes e h = rw e (from_conn_lem n w bytes h)
from_reader_lem (b ∷ bs) n w bytes e h =
    ap (λ t. t ++ w.arriving)
      (take-drop n (b ∷ bs) ∙ ap (λ t. t ++ drop n (b ∷ bs)) (read_ok _ bytes h))
    ∙ append_assoc bytes (drop n (b ∷ bs)) w.arriving

abbrev stream : IsStream wire
stream = record {
  waiting = λ c w. w.waiting;
  arriving = λ c w. w.arriving;
  buffered-waiting = λ c w. refl;
  close_body-waiting = λ r c w bare. refl;
  close_body-arriving = λ r c w bare. refl;
  read_conn-arriving = λ c n w bytes h. from_conn_lem n w bytes h;
  read_reader-arriving = λ c n w bytes h. from_reader_lem w.waiting n w bytes refl h;
}

abbrev dialer : HttpProxyDialer wire
dialer = record {
  proxy_url = record { scheme = "http"; host = "proxy:3128"; user = none };
  forward = λ network addr w. (ok tt, w);
}

abbrev fed : Feed
fed = record { waiting = 1 ∷ 2 ∷ []; arriving = 3 ∷ 4 ∷ [] }

conforming : IsConforming wire stream
conforming c w resp answered good = ap (λ r. r.framed) (sym (read_ok _ resp answered))

dial-reads_example :
    (resp : Response) × (before : Feed) × IsAsked wire stream dialer "tcp" "db:9042" fed tt before
    × ((wire.read_response tt before).0 ≡ ok resp)
    × (before.waiting ++ before.arriving
        ≡ (1 ∷ 2 ∷ 3 ∷ [])
          ++ remaining wire stream
              (buffered_conn tt)
              (reads wire stream (buffered_conn tt) (8 ∷ 1 ∷ []) fed).1)
unfolding dial reads read text_discrete
dial-reads_example =
    dial-reads wire stream dialer "tcp" "db:9042" fed conforming (buffered_conn tt) (8 ∷ 1 ∷ [])
      (1 ∷ 2 ∷ 3 ∷ []) refl refl
