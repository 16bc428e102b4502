-- ===== src/Client.antt =====
-- client.rs: one request is sent over a connection, and its response is read.
pub mod Output
pub mod Answered
pub mod Malformed
pub mod Pool
pub mod Served
use touche.Base.{ℕ, Option, none, some, Bool, true, false, codes, ◌==◌, if◌then◌else◌}
use touche.Base.Result.{Result, ok, err, map_err, and_then, lift, ◌>>=◌, ◌>>◌}
use touche.Io.{IoError, parse_failed, Stream, Write, flush}
use touche.Crates.{Crates}
use touche.Http.{Request, Response, asks_for}
use touche.Body.{BodyInner, HttpBody, IoResult}
use touche.Head.{ParseError}
use touche.Response.{parse_response}
use touche.Request.Write.{write_request}

-- client.rs: ConnectionOutcome
pub data ConnectionOutcome (Conn : Type 0) : Type 0 where
  close : ConnectionOutcome Conn
  keep_alive upgrade : Conn → ConnectionOutcome Conn

module _ {Conn : Type 0} where
  -- ConnectionOutcome::closed
  unfoldable pub closed : ConnectionOutcome Conn → Bool
  closed close = true
  closed _ = false

  -- ConnectionOutcome::unwrap; `none` is its panic.
  unfoldable pub unwrap_connection : ConnectionOutcome Conn → Option Conn
  unwrap_connection close = none
  unwrap_connection (keep_alive conn) = some conn
  unwrap_connection (upgrade conn) = some conn

  -- ConnectionOutcome::into_inner
  unfoldable pub into_inner : ConnectionOutcome Conn → Result (ConnectionOutcome Conn) Conn
  into_inner (keep_alive conn) = ok conn
  into_inner (upgrade conn) = ok conn
  into_inner close = err close

module _ (c : Crates) {Conn Handler B : Type 0} (ops : HttpBody c.HeaderMap B) where
  open c use {HeaderMap, connection}

  -- The outcome, by the response's headers and its status 101.
  unfoldable pub connection_outcome :
      Conn → Response c Handler (BodyInner HeaderMap) → ConnectionOutcome Conn
  connection_outcome conn res =
      if asks_for (codes "close") (connection res.headers)
      then close
      else if res.status == 101
      then upgrade conn
      else keep_alive conn

  -- What is made of the response. The reader ends with the response's body.
  unfoldable pub receive :
      Conn → Stream → IoResult (ConnectionOutcome Conn × Response c Handler (BodyInner HeaderMap))
  unfolding connection_outcome
  receive conn reader =
      and_then (map_err (λ _. parse_failed) (parse_response c {Handler = Handler} reader).0)
        λ res. ok (connection_outcome conn res, res)

  -- send_request
  unfoldable pub send_request :
      Conn
      → Stream
      → Request c B
      → Write (ConnectionOutcome Conn × Response c Handler (BodyInner HeaderMap))
  unfolding receive
  send_request conn reader req = write_request c ops req >> flush >> lift (receive conn reader)
