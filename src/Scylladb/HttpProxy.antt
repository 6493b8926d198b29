-- ===== src/Scylladb/HttpProxy.antt =====
-- `HTTPProxyDialer` of scylladb/proxy_dialer.go: a connection through a proxy's CONNECT method.
pub mod Sockets
pub mod Bytes
use terraform_provider_scyll.Base.{
  ℕ, String, ◌<>◌, Bool, true, false, not, Option, none, some, ◌==◌, if◌then◌else◌, same_number,
  ltb, List,
}
use terraform_provider_scyll.Base.Exec.{
  Error, error_text, message, Result, ok, err, Exec, pure, ◌>>=◌, ◌>>◌,
}
use terraform_provider_scyll.Scylladb.Cluster.{Url}

-- `http.Request`, as far as the code fills it in
pub record Request : Type 0 where
  pub method : String
  pub opaque : String
  pub host : String
  pub proxy_authorization : Option String

-- `http.Response`: what the code reads of it, and whether its headers announce a body with a length or in
-- chunks, of which `Body.Close` reads what is left
pub record Response : Type 0 where
  pub status_code : ℕ
  pub status : String
  pub framed : Bool

-- What the code calls of `net`, `net/http`, `net/url`, `crypto/tls`, `bufio` and `encoding/base64`, over an
-- unknown state of the network.
pub record Wire : Type 1 where
  pub Conn : Type 0
  pub World : Type 0
  pub port : Url → String
  pub hostname : Url → String
  pub split_host_port : String → Result (String × String)
  pub join_host_port : String → String → String
  pub encode_to_string : String → String
  -- `tls.Client` for a server's name, before its handshake
  pub client : Conn → String → Conn
  pub handshake : Conn → Exec World (Unit {0})
  pub close : Conn → World → World
  pub write : Request → Conn → Exec World (Unit {0})
  pub read_response : Conn → Exec World Response
  pub close_body : Response → World → World
  -- `Buffered()` of the reader that the response was read through
  pub buffered : Conn → World → ℕ
  -- `Read` of a connection, for at most so many bytes, and of that reader
  pub read_conn : Conn → ℕ → Exec World (List ℕ)
  pub read_reader : Conn → ℕ → Exec World (List ℕ)

-- The connection that is returned: `BufferedConn` reads through the reader first.
pub data Dialed (C : Type 0) : Type 0 where
  direct : C → Dialed C
  buffered_conn : C → Dialed C

pub record HttpProxyDialer (W : Wire) : Type 0 where
  pub proxy_url : Url
  -- the `Dial` of the dialer to forward to: network and address
  pub forward : String → String → Exec W.World W.Conn

module _ (W : Wire) where
  unfoldable pub new_http_proxy :
      Url → (String → String → Exec W.World W.Conn) → Result (HttpProxyDialer W)
  new_http_proxy uri forward = ok (record { proxy_url = uri; forward = forward })

  unfoldable pub proxy_host : HttpProxyDialer W → String
  proxy_host h =
      if not (W.port h.proxy_url == "")
      then h.proxy_url.host
      else W.join_host_port (W.hostname h.proxy_url)
          (if h.proxy_url.scheme == "https" then "443" else "80")

  -- A host without a port is its own name.
  name_of : Url → Result (String × String) → String
  name_of url (ok (host, port)) = host
  name_of url (err e) = url.host

  unfoldable pub server_name : HttpProxyDialer W → String
  unfolding name_of
  server_name h = name_of h.proxy_url (W.split_host_port h.proxy_url.host)

  authorization : Option (String × String) → Option String
  authorization none = none
  authorization (some (username, pass)) =
      some ("Basic " <> W.encode_to_string (username <> ":" <> pass))

  unfoldable pub connect_request : HttpProxyDialer W → String → Request
  unfolding authorization
  connect_request h addr = record {
    method = "CONNECT";
    opaque = addr;
    host = addr;
    proxy_authorization = authorization h.proxy_url.user;
  }

  -- `if err != nil { conn.Close(); return nil, fmt.Errorf("...: %w", err) }`
  module _ {A : Type 0} where
    unfoldable pub close_on_error : W.Conn → String → Result A → Exec W.World A
    close_on_error conn text (ok a) w = (ok a, w)
    close_on_error conn text (err e) w = (err (message (text <> error_text e)), W.close conn w)

    unfoldable pub closing : W.Conn → String → Exec W.World A → Exec W.World A
    unfolding close_on_error
    closing conn text m w = close_on_error conn text (m w).0 (m w).1

    -- `defer resp.Body.Close()`
    unfoldable pub deferring : Response → Exec W.World A → Exec W.World A
    deferring resp m w = ((m w).0, W.close_body resp (m w).1)

  unfoldable pub secure : HttpProxyDialer W → W.Conn → Exec W.World W.Conn
  unfolding closing
  secure h conn =
      let tls_conn = W.client conn (server_name h) in
      if not (h.proxy_url.scheme == "https")
      then pure conn
      else do closing conn "TLS handshake with proxy failed: " (W.handshake tls_conn); pure tls_conn

  -- Behind the response
  unfoldable pub accept : W.Conn → Response → Exec W.World (Dialed W.Conn)
  accept conn resp w =
      if not (same_number resp.status_code 200)
      then (err (message ("proxy CONNECT request failed: " <> resp.status)), W.close conn w)
      else if ltb 0 (W.buffered conn w)
      then (ok (buffered_conn conn), w)
      else (ok (direct conn), w)

  unfoldable pub dial : HttpProxyDialer W → String → String → Exec W.World (Dialed W.Conn)
  unfolding closing deferring accept secure
  dial h network addr = do
    raw ← h.forward network (proxy_host h)
    conn ← secure h raw
    let req = connect_request h addr
    closing conn "failed to send CONNECT request: " (W.write req conn)
    resp ← closing conn "failed to read CONNECT response: " (W.read_response conn)
    deferring resp (accept conn resp)

  -- `Read` of the connection that `Dial` returns
  unfoldable pub read : Dialed W.Conn → ℕ → Exec W.World (List ℕ)
  read (direct c) n = W.read_conn c n
  read (buffered_conn c) n = W.read_reader c n
