-- ===== src/Server.antt =====
-- server.rs, `serve`: the loop over the requests of one connection.
pub mod Rules
pub mod Fuel
pub mod Closing
pub mod Output
pub mod Described
pub mod Builder
pub mod Rounds
pub mod Exchange
pub mod Pipeline
pub mod Expect
pub mod Continue
pub mod Malformed
use touche.Base.{
  ℕ, zero, suc, ◌+◌, Option, none, some, List, [], ◌∷◌, Bool, true, false, not, ◌&&◌, ◌==◌, Bytes,
  codes, if◌then◌else◌, is_some,
}
use touche.Base.Result.{Result, ok, err, Act, pure, map_err, ◌>>=◌, ◌>>◌}
use touche.Io.{IoError, parse_failed, service_failed, Stream, Sink, Write, flush}
use touche.Crates.{Crates, Version, http_11}
use touche.Http.{Request, Response}
use touche.Body.{BodyInner, HttpBody, unit_body, after_drop}
use touche.Head.{ParseError, connection_closed}
use touche.Request.{parse_request}
use touche.Response.Write.{Outcome, close, keep_alive, upgrade, write_response}
use touche.Server.Rules.{demands_close, expects_continue, stamp, should_write_body}

-- server.rs: Service, over the state of an application. `call` is given the connection behind the head
-- and leaves it as the request's body does once it is dropped.
pub record Service (c : Crates) (App Error Handler B : Type 0) : Type 0 where
  pub call :
      App
      → Request c (BodyInner c.HeaderMap)
      → Stream
      → (Result Error (Response c Handler B) × App) × Stream
  pub should_continue : App → Request c (BodyInner c.HeaderMap) → ℕ × App

-- Service for a closure, with should_continue as the trait has it.
abbrev pub closure_service :
    {c : Crates} {App Error Handler B : Type 0}
    → (App
        → Request c (BodyInner c.HeaderMap)
        → Stream
        → (Result Error (Response c Handler B) × App) × Stream)
    → Service c App Error Handler B
closure_service f = record { call = f; should_continue = λ app req. (100, app) }

-- What `serve` keeps: the reader that the queue hands on, the writer, the application, and how often
-- the clock was read.
pub record Session (App : Type 0) : Type 0 where
  pub reader : Stream
  pub writer : Sink
  pub app : App
  pub ticks : ℕ

-- What follows a request: the next one, or the end of the loop.
pub data Next (Handler : Type 0) : Type 0 where
  again closed : Next Handler
  upgraded : Handler → Next Handler

-- Writing is writing to the session's writer.
unfoldable pub to_writer : {App A : Type 0} → Write A → Act (Session App) IoError A
to_writer w s = let (r, out) = w s.writer in (r, record s { writer = out })

-- The match on the outcome of `write_response`.
unfoldable pub after_outcome : {Handler : Type 0} → Bool → Outcome Handler → Next Handler
after_outcome closes keep_alive = if closes then closed else again
after_outcome closes close = closed
after_outcome closes (upgrade handler) = upgraded handler

module _ (c : Crates) where
  open c use {HeaderMap, no_headers}

  -- Response::builder().status(status).body(()).unwrap()
  abbrev pub bare_response : {Handler : Type 0} → ℕ → Response c Handler (Unit {0})
  bare_response status = record {
    status = status;
    version = http_11;
    headers = no_headers;
    upgrade = none;
    body = tt;
  }

  module _ {App Error Handler B : Type 0} (ops : HttpBody HeaderMap B)
      (service : Service c App Error Handler B) (now : ℕ → Bytes) where
    -- The answer to an Expect; whether the service is called.
    unfoldable pub answer_expect : Request c (BodyInner HeaderMap) → Act (Session App) IoError Bool
    answer_expect req s =
        let (status, app) = service.should_continue s.app req in
        let answer : Act (Session App) IoError Bool =
          to_writer
            (write_response c {Handler = Handler} unit_body (bare_response status) true >> flush)
          >> pure (status == 100) in
        if expects_continue c req.headers then answer (record s { app = app }) else (ok true, s)

    unfoldable pub call_service :
        Request c (BodyInner HeaderMap) → Act (Session App) IoError (Response c Handler B)
    call_service req s =
        let ((res, app), reader) = service.call s.app req s.reader in
        (map_err (λ _. service_failed) res, record s { app = app; reader = reader })

    -- The version, and the headers that the server adds; the clock is read if there is no date.
    unfoldable pub stamped :
        Request c (BodyInner HeaderMap)
        → Response c Handler B
        → Act (Session App) IoError (Response c Handler B)
    stamped req res s =
        let (headers, reads) = stamp c req.version req.headers res.headers (now s.ticks) in
        (
          ok (record res { version = req.version; headers = headers }),
          record s { ticks = (if reads then suc s.ticks else s.ticks) },
        )

    -- The flush, and what the loop does next.
    unfoldable pub conclude :
        Request c (BodyInner HeaderMap) → Outcome Handler → Act (Session App) IoError (Next Handler)
    conclude req outcome =
        to_writer flush >> pure (after_outcome (demands_close c req.version req.headers) outcome)

    unfoldable pub deliver :
        Request c (BodyInner HeaderMap)
        → Response c Handler B
        → Act (Session App) IoError (Next Handler)
    unfolding conclude
    deliver req res =
        to_writer (write_response c ops res (should_write_body c req.method res.status))
        >>= conclude req

    unfoldable pub answer :
        Request c (BodyInner HeaderMap) → Act (Session App) IoError (Next Handler)
    unfolding call_service stamped deliver
    answer req = call_service req >>= λ res. stamped req res >>= deliver req

    -- The `continue` of a request that was refused: its body is dropped.
    unfoldable pub refused :
        Request c (BodyInner HeaderMap) → Act (Session App) IoError (Next Handler)
    refused req s = (ok again, record s { reader = after_drop req.body s.reader })

    -- One round of the loop, for a request that was parsed.
    unfoldable pub respond :
        Request c (BodyInner HeaderMap) → Act (Session App) IoError (Next Handler)
    unfolding answer_expect answer refused
    respond req = do goes_on ← answer_expect req; if goes_on then answer req else refused req

    -- The loop; `none` is a run without an end within the fuel.
    unfoldable pub serve : ℕ → Session App → Option (Result IoError (Option Handler) × Session App)
    serve zero s = none
    serve (suc fuel) s =
        let (parsed, reader) = parse_request c s.reader in
        elim parsed [
          | err connection_closed ↦ some (ok none, record s { reader = reader })
          | err _ ↦ some (err parse_failed, record s { reader = reader })
          | ok req ↦
              let (next, s') = respond req (record s { reader = reader }) in
              elim next [
                | err e ↦ some (err e, s')
                | ok closed ↦ some (ok none, s')
                | ok (upgraded handler) ↦ some (ok (some handler), s')
                | ok again ↦ serve fuel s'
              ]
        ]
