-- ===== src/Client/Pool.antt =====
-- client.rs, Client: requests over connections that are kept by their authority.
pub mod Laws
use touche.Base.{ℕ, Option, none, some, Bool, true, false, Bytes, codes, if◌then◌else◌}
use touche.Base.Result.{Result, ok, err}
use touche.Io.{IoError, Stream, Sink}
use touche.Crates.{Crates}
use touche.Http.{Request, Response}
use touche.Body.{BodyInner, HttpBody, IoResult}
use touche.Client.{ConnectionOutcome, close, keep_alive, upgrade, send_request}

-- client.rs: RequestError
pub data RequestError : Type 0 where
  invalid_uri unsupported_scheme : RequestError
  unsupported_http_version : ℕ → RequestError
  io : IoError → RequestError
  invalid_request : RequestError → RequestError

-- What the client calls of http::Uri and of TcpStream, and what a connection reads and writes now.
pub record Network (c : Crates) (Authority Conn : Type 0) : Type 0 where
  pub authority : c.Uri → Option Authority
  pub host : Authority → Bytes
  pub port : Authority → Option ℕ
  pub same : Authority → Authority → Bool
  pub connect : Bytes → ℕ → IoResult Conn
  pub sides : Conn → Stream × Sink

-- HashMap<Authority, Connection>
abbrev pub Pool : Type 0 → Type 0 → Type 0
Pool Authority Conn = Authority → Option Conn

-- Client::new
abbrev pub new_pool : {Authority Conn : Type 0} → Pool Authority Conn
new_pool a = none

module _ (c : Crates) {Authority Conn B : Type 0} (net : Network c Authority Conn)
    (ops : HttpBody c.HeaderMap B) where
  open c use {HeaderMap, insert}

  unfoldable pub remove : Authority → Pool Authority Conn → Pool Authority Conn
  remove a pool b = if net.same a b then none else pool b

  unfoldable pub keep : Authority → Conn → Pool Authority Conn → Pool Authority Conn
  keep a conn pool b = if net.same a b then some conn else pool b

  -- The connection of the authority, or a new one to port 80 where it names no other.
  unfoldable pub connection_to : Authority → Option Conn → IoResult Conn
  connection_to a (some conn) = ok conn
  connection_to a none = net.connect (net.host a) (elim (net.port a) [ none ↦ 80 | some p ↦ p ])

  -- The match on the outcome.
  unfoldable pub settle :
      Authority
      → IoResult (ConnectionOutcome Conn × Response c Conn (BodyInner HeaderMap))
      → Pool Authority Conn
      → Result RequestError (Response c Conn (BodyInner HeaderMap)) × Pool Authority Conn
  unfolding keep
  settle a (err e) pool = (err (io e), pool)
  settle a (ok (close, res)) pool = (ok res, pool)
  settle a (ok (upgrade conn, res)) pool = (ok (record res { upgrade = some conn }), pool)
  settle a (ok (keep_alive conn, res)) pool = (ok res, keep a conn pool)

  -- req.headers_mut().insert(HOST, host)
  unfoldable pub with_host : Authority → Request c B → Request c B
  with_host a req = record req { headers = insert req.headers (codes "host") (net.host a) }

  -- The exchange over a connection, or the error of connecting.
  unfoldable pub exchange :
      Authority
      → IoResult Conn
      → Request c B
      → Pool Authority Conn
      → Result RequestError (Response c Conn (BodyInner HeaderMap)) × Pool Authority Conn
  unfolding settle with_host
  exchange a (err e) req pool = (err (io e), pool)
  exchange a (ok conn) req pool =
      let (reader, writer) = net.sides conn in
      settle a (send_request c {Handler = Conn} ops conn reader (with_host a req) writer).0 pool

  -- Client::request
  unfoldable pub request :
      Request c B
      → Pool Authority Conn
      → Result RequestError (Response c Conn (BodyInner HeaderMap)) × Pool Authority Conn
  unfolding exchange remove connection_to
  request req pool = elim (net.authority req.uri) [
    | none ↦ (err invalid_uri, pool)
    | some a ↦ exchange a (connection_to a (pool a)) req (remove a pool)
  ]
