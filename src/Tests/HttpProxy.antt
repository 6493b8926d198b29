-- ===== src/Tests/HttpProxy.antt =====
-- A network of one socket, behind a proxy that answers every request to connect.
use terraform_provider_scyll.Base.{
  ℕ, ◌<>◌, ◌≡◌, refl, Bool, true, false, ◌&&◌, some, List, [], ◌∷◌, if◌then◌else◌, same_number,
  arith, text_discrete,
}
use terraform_provider_scyll.Base.Exec.{Error, message, Result, ok, err}
use terraform_provider_scyll.Scylladb.HttpProxy.{
  Request, Wire, direct, HttpProxyDialer, connect_request, dial,
}
use terraform_provider_scyll.Scylladb.HttpProxy.Sockets.{IsTracked, dial-Ends}

pub record Net : Type 0 where
  pub opened : Bool
  pub sent : List Request

abbrev wire : Wire
wire = record {
  Conn = Unit {0};
  World = Net;
  port = λ url. "3128";
  hostname = λ url. url.host;
  split_host_port = λ host. ok (host, "3128");
  join_host_port = λ host port. host <> ":" <> port;
  encode_to_string = λ s. s;
  client = λ c name. c;
  handshake = λ c w. (ok tt, w);
  close = λ c w. record w { opened = false };
  write = λ r c w. (ok tt, record w { sent = r ∷ w.sent });
  read_response = λ c w. (ok (record { status_code = 200; status = "200 OK"; framed = false }), w);
  close_body = λ resp w. w;
  buffered = λ c w. 0;
  read_conn = λ c n w. (ok [], w);
  read_reader = λ c n w. (ok [], w);
}

open_socket : Net → Bool → Result (Unit {0}) × Net
open_socket w true = (err (message "no free socket"), w)
open_socket w false = (ok tt, record w { opened = true })

abbrev dialer : HttpProxyDialer wire
dialer = record {
  proxy_url = record { scheme = "https"; host = "proxy:3128"; user = some ("me", "secret") };
  forward = λ network addr w. open_socket w w.opened;
}

abbrev is_open : Net → ℕ → Bool
is_open w x = same_number x 7 && w.opened

open_socket-err :
    (w : Net) (b : Bool) (e : Error)
    → (open_socket w b).0 ≡ err e
    → (x : ℕ) → is_open (open_socket w b).1 x ≡ is_open w x
unfolding open_socket
open_socket-err w true e h x = refl
open_socket-err w false e h x = cc

open_socket-ok :
    (w : Net) (b : Bool) (c : Unit {0})
    → w.opened ≡ b
    → (open_socket w b).0 ≡ ok c
    → (is_open w 7 ≡ false)
      × ((x : ℕ) → is_open (open_socket w b).1 x ≡ (if same_number x 7 then true else is_open w x))
unfolding open_socket
open_socket-ok w true c e h = cc
open_socket-ok w false c e h = (rw e refl, λ x. ground arith)

open_socket-sent : (w : Net) (b : Bool) → (open_socket w b).1.sent ≡ w.sent
unfolding open_socket
open_socket-sent w true = refl
open_socket-sent w false = refl

shut :
    (w : Net) (x : ℕ)
    → (same_number x 7 && false) ≡ (if same_number x 7 then false else is_open w x)
shut w x = ground arith

abbrev tracked : IsTracked wire dialer
tracked = record {
  socket = λ c. 7;
  is_open = is_open;
  sent = λ w. w.sent;
  socket-client = λ c name. refl;
  forward-err = λ network addr w e h x. open_socket-err w w.opened e h x;
  forward-ok = λ network addr w c h. open_socket-ok w w.opened c refl h;
  handshake-open = λ c w x. refl;
  write-open = λ r c w x. refl;
  read_response-open = λ c w x. refl;
  close_body-open = λ r w x. refl;
  close-open = λ c w x. shut w x;
  forward-sent = λ network addr w. open_socket-sent w w.opened;
  handshake-sent = λ c w. refl;
  write-sent = λ r c w h. refl;
  read_response-sent = λ c w. refl;
  close_body-sent = λ r w. refl;
}

abbrev idle : Net
idle = record { opened = false; sent = [] }

abbrev asked : Request
asked = record {
  method = "CONNECT";
  opaque = "db:9042";
  host = "db:9042";
  proxy_authorization = some "Basic me:secret";
}

dial_run :
    dial wire dialer "tcp" "db:9042" idle
    ≡ (ok (direct tt), record { opened = true; sent = asked ∷ [] })
unfolding dial connect_request open_socket text_discrete
dial_run = refl

dial-Ends_example :
    ((x : ℕ)
      → is_open (dial wire dialer "tcp" "db:9042" idle).1 x
        ≡ (if same_number x 7 then true else is_open idle x))
    × ((dial wire dialer "tcp" "db:9042" idle).1.sent ≡ asked ∷ [])
unfolding dial connect_request open_socket text_discrete
dial-Ends_example = dial-Ends wire dialer tracked "tcp" "db:9042" idle
