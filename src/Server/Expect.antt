-- ===== src/Server/Expect.antt =====
-- What the server makes of a request that expects a 100 before its body.
use touche.Base.{ℕ, ◌≡◌, refl, ◌++◌, Bytes, Bool, true, false, ◌==◌, if◌then◌else◌}
use touche.Base.Result.{ok, ◌>>◌}
use touche.Io.{Stream, flush}
use touche.Crates.{Crates}
use touche.Http.{Request}
use touche.Body.{BodyInner, HttpBody, unit_body, after_drop}
use touche.Response.Write.{Outcome, write_response}
use touche.Response.Written.{response_text, write_response-open}
use touche.Server.{
  Service, Session, again, to_writer, bare_response, answer_expect, answer, refused, respond,
}
use touche.Server.Rounds.{session}
use touche.Server.Rules.{expects_continue}

module _ (c : Crates) {App Error Handler B : Type 0} (ops : HttpBody c.HeaderMap B)
    (service : Service c App Error Handler B) (now : ℕ → Bytes) where
  open c use {HeaderMap}

  -- The bare response of a status, as it goes out.
  abbrev pub bare_text : ℕ → Bytes
  bare_text status = (response_text c {Handler = Handler} unit_body (bare_response c status) true).0

  write_bare :
      (status : ℕ) (reader : Stream) (o : Bytes) (app : App) (ticks : ℕ) (out : Outcome Handler)
      → (response_text c {Handler = Handler} unit_body (bare_response c status) true).1 ≡ ok out
      → to_writer
          (write_response c {Handler = Handler} unit_body (bare_response c status) true >> flush)
          (session reader o app ticks)
        ≡ (ok tt, session reader (o ++ bare_text status) app ticks)
  unfolding to_writer flush
  write_bare status reader o app ticks out e =
      rw (write_response-open c {Handler = Handler} unit_body (bare_response c status) true o)
        (rw e)

  either :
      (b : Bool) (req : Request c (BodyInner HeaderMap)) (s : Session App)
      → (if b then answer c ops service now req else refused c ops service now req) s ≡ (
          if b
          then answer c ops service now req s
          else (ok again, record s { reader = after_drop req.body s.reader }))
  unfolding refused
  either true req s = refl
  either false req s = refl

  -- A request that expects a 100 makes the server write the bare status that the service decides on. With
  -- a 100 the request is answered behind it; with any other the service is not called, the body is dropped,
  -- and the server goes on with the next request.
  pub respond-expecting :
      (req : Request c (BodyInner HeaderMap)) (reader : Stream) (o : Bytes) (app app' : App)
      (ticks status : ℕ) (out : Outcome Handler)
      → expects_continue c req.headers ≡ true
      → service.should_continue app req ≡ (status, app')
      → (response_text c {Handler = Handler} unit_body (bare_response c status) true).1 ≡ ok out
      → respond c ops service now req (session reader o app ticks) ≡ (
          if status == 100
          then answer c ops service now req (session reader (o ++ bare_text status) app' ticks)
          else (ok again, session (after_drop req.body reader) (o ++ bare_text status) app' ticks))
  unfolding respond answer_expect refused
  respond-expecting req reader o app app' ticks status out expecting decided e =
      let written = write_bare status reader o app' ticks out e in
      rw (expecting, respond, answer_expect)
        (rw (decided, respond)
          (rw (written, respond)
            (either (status == 100) req (session reader (o ++ bare_text status) app' ticks))))
