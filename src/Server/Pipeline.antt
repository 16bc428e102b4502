-- ===== src/Server/Pipeline.antt =====
-- `serve` over requests that a client has written one behind the other.
use touche.Base.{
  ℕ, zero, suc, List, ◌<◌, ◌≡◌, ◌∙◌, Option, none, some, [], ◌++◌, append-nil, append_assoc, arith,
  Bool, true, false, Bytes, length, length-append, if◌then◌else◌,
}
use touche.Base.Result.{ok, err}
use touche.Io.{Stream, parse_failed, with_rest}
use touche.Crates.{Crates}
use touche.Crates.Laws.{HeaderLaws, ReadsRequests, ReadsSizes, SkipsBlank}
use touche.Http.{Request, Response}
use touche.Body.{BodyInner, HttpBody, IoResult}
use touche.Response.Write.{Outcome, keep_alive}
use touche.Response.Written.{response_text}
use touche.Request.Written.{request_text}
use touche.Request.Behind.{parse_request-only_blank}
use touche.Server.{Service, after_outcome, answer_expect, respond, serve}
use touche.Server.Rules.{demands_close, expects_continue, stamp, should_write_body}
use touche.Server.Output.{answer-open}
use touche.Server.Exchange.{
  Exchange, Exchange-unexpecting, Exchange-filled, Exchange-arrives, Exchange-behind, blank_line,
}
use touche.Server.Rounds.{
  arrived, session, round-again, round-left, round-ended, round-failed, loop_end,
}

module _ (c : Crates) {App Error Handler Sent B : Type 0} (sent_ops : HttpBody c.HeaderMap Sent)
    (ops : HttpBody c.HeaderMap B) (service : Service c App Error Handler B) (now : ℕ → Bytes) where
  open c use {HeaderMap}

  -- What goes out for it, the clock having been read `ticks` times, and how it ends.
  unfoldable pub reply :
      ℕ → Request c Sent → HeaderMap → Response c Handler B → Bytes × IoResult (Outcome Handler)
  reply ticks req chosen res =
      response_text c ops
        (record res {
          version = req.version;
          headers = (stamp c req.version chosen res.headers (now ticks)).0;
        })
        (should_write_body c req.method res.status)

  unfoldable pub ticks_after : ℕ → Request c Sent → HeaderMap → Response c Handler B → ℕ
  ticks_after ticks req chosen res =
      if (stamp c req.version chosen res.headers (now ticks)).1 then suc ticks else ticks

  -- A run of the loop: requests that go out one behind the other and their replies, with what it leaves
  -- unread and what it returns. It goes up to the end of the connection, or to a request or a reply that
  -- asks for the end, or a reply that hands the connection over. The first request stands behind a blank line
  -- if the one before it had a chunked body. With nothing behind it that line is a request that cannot be
  -- parsed.
  pub data Pipeline
      : App → ℕ → Bool → Bytes → Bytes → Bytes → App → ℕ → IoResult (Option Handler) → Type 0 where
    ended : (app : App) (ticks : ℕ) → Pipeline app ticks false [] [] [] app ticks (ok none)
    cut_off :
        (app : App) (ticks : ℕ) → Pipeline app ticks true [] [] [] app ticks (err parse_failed)
    answered :
        (app : App) (ticks : ℕ) (behind blank : Bool) (req : Request c Sent) (chosen : HeaderMap)
        (res : Response c Handler B) (app' : App) (inp out left : Bytes) (app'' : App) (ticks' : ℕ)
        (end : IoResult (Option Handler))
        → Exchange c sent_ops service app req chosen res app' blank
        → (reply ticks req chosen res).1 ≡ ok keep_alive
        → demands_close c req.version chosen ≡ false
        → Pipeline app' (ticks_after ticks req chosen res) blank inp out left app'' ticks' end
        → Pipeline app ticks behind
            ((request_text c sent_ops req).0 ++ inp)
            ((reply ticks req chosen res).0 ++ out)
            left
            app''
            ticks'
            end
    closing :
        (app : App) (ticks : ℕ) (behind blank : Bool) (req : Request c Sent) (chosen : HeaderMap)
        (res : Response c Handler B) (app' : App) (left : Bytes) (outcome : Outcome Handler)
        (end : IoResult (Option Handler))
        → Exchange c sent_ops service app req chosen res app' blank
        → (reply ticks req chosen res).1 ≡ ok outcome
        → loop_end (after_outcome (demands_close c req.version chosen) outcome) ≡ some end
        → Pipeline app ticks behind
            ((request_text c sent_ops req).0 ++ left)
            (reply ticks req chosen res).0
            (blank_line blank ++ left)
            app'
            (ticks_after ticks req chosen res)
            end

  respond-open :
      (app : App) (req : Request c Sent) (chosen : HeaderMap) (res : Response c Handler B)
      (app' : App) (b : BodyInner HeaderMap) (s s' : Stream) (o : Bytes) (ticks : ℕ)
      (out : Outcome Handler)
      → expects_continue c chosen ≡ false
      → service.call app (arrived c req chosen b) s' ≡ ((ok res, app'), s)
      → (reply ticks req chosen res).1 ≡ ok out
      → respond c ops service now (arrived c req chosen b) (session s' o app ticks) ≡ (
        ok (after_outcome (demands_close c req.version chosen) out),
        session s (o ++ (reply ticks req chosen res).0) app' (ticks_after ticks req chosen res),
      )
  unfolding respond answer_expect reply ticks_after
  respond-open app req chosen res app' b s s' o ticks out silent served e =
      let answered =
        answer-open c ops service now (arrived c req chosen b) res app' (session s' [] app ticks) o
          s served in
      rw (silent, respond, answer_expect) (answered ∙ rw (e, reply, ticks_after))

  module _ (laws : HeaderLaws c) (heads : ReadsRequests c) (sizes : ReadsSizes c.parse_chunk_size)
      (blanks : SkipsBlank c) where
    serve-again :
        (fuel : ℕ) (app : App) (behind blank : Bool) (req : Request c Sent) (chosen : HeaderMap)
        (res : Response c Handler B) (app' : App) (s : Stream) (r o : Bytes) (ticks : ℕ)
        → Exchange c sent_ops service app req chosen res app' blank
        → (reply ticks req chosen res).1 ≡ ok keep_alive
        → demands_close c req.version chosen ≡ false
        → serve c ops service now (suc fuel) (
            session
              (with_rest s (blank_line behind ++ ((request_text c sent_ops req).0 ++ r)))
              o
              app
              ticks)
          ≡ serve c ops service now fuel (
              session
                (with_rest s (blank_line blank ++ r))
                (o ++ (reply ticks req chosen res).0)
                app'
                (ticks_after ticks req chosen res))
    unfolding after_outcome
    serve-again fuel app behind blank req chosen res app' s r o ticks x e d =
        let (b, s', parsed, served) =
          Exchange-arrives c sent_ops service laws heads sizes blanks app req chosen res app' blank
            s r x in
        let first =
          Exchange-behind c sent_ops service laws heads sizes blanks app req chosen res app' blank
            behind s r x in
        round-again c ops service now fuel _ _ _ s' (first ∙ parsed) (
          respond-open app req chosen res app' b _ s' o ticks keep_alive
            (Exchange-unexpecting c sent_ops service x) served e
          ∙ rw d)

    serve-left :
        (fuel : ℕ) (app : App) (behind blank : Bool) (req : Request c Sent) (chosen : HeaderMap)
        (res : Response c Handler B) (app' : App) (s : Stream) (r o : Bytes) (ticks : ℕ)
        (out : Outcome Handler) (end : IoResult (Option Handler))
        → Exchange c sent_ops service app req chosen res app' blank
        → (reply ticks req chosen res).1 ≡ ok out
        → loop_end (after_outcome (demands_close c req.version chosen) out) ≡ some end
        → serve c ops service now (suc fuel) (
            session
              (with_rest s (blank_line behind ++ ((request_text c sent_ops req).0 ++ r)))
              o
              app
              ticks)
          ≡ some (
            end,
            session
                (with_rest s (blank_line blank ++ r))
                (o ++ (reply ticks req chosen res).0)
                app'
                (ticks_after ticks req chosen res),
          )
    serve-left fuel app behind blank req chosen res app' s r o ticks out end x e l =
        let (b, s', parsed, served) =
          Exchange-arrives c sent_ops service laws heads sizes blanks app req chosen res app' blank
            s r x in
        let first =
          Exchange-behind c sent_ops service laws heads sizes blanks app req chosen res app' blank
            behind s r x in
        round-left c ops service now fuel _ _ _ s' _ end (first ∙ parsed)
          (respond-open app req chosen res app' b _ s' o ticks out
            (Exchange-unexpecting c sent_ops service x) served e)
          l

    -- Requests that stand on the connection one behind the other, as `write_request` writes them, are
    -- served in order on a connection that takes everything: for each its reply goes out, up to the end of
    -- the connection, which comes without an error, or to the first request or reply that closes the
    -- connection or hands it over, behind which nothing is read. Each request is an exchange: of a fixed
    -- length or of chunks without trailers, expecting no 100, and answered by the service by its bytes or its
    -- chunks, which it reads to their end. A chunked body leaves a blank line, behind which the next request
    -- is read all the same, and the end of the connection is an error. One round more than there are bytes is
    -- enough.
    pub serve-Pipeline :
        (app : App) (ticks : ℕ) (behind : Bool) (inp out left : Bytes) (app' : App) (ticks' : ℕ)
        (end : IoResult (Option Handler)) (bursts : List ℕ) (o : Bytes) (fuel : ℕ)
        → Pipeline app ticks behind inp out left app' ticks' end
        → length inp < fuel
        → serve c ops service now fuel (
            session
              (record { rest = blank_line behind ++ inp; fault = none; bursts = bursts })
              o
              app
              ticks)
          ≡ some (
            end,
            session (record { rest = left; fault = none; bursts = bursts }) (o ++ out) app' ticks',
          )
    serve-Pipeline app ticks behind inp out left app' ticks' end bursts o zero run h =
        absurd (omega arith)
    serve-Pipeline app ticks behind inp out left app' ticks' end bursts o (suc fuel) (ended _ _) h =
        rw (append-nil o) (round-ended c ops service now fuel bursts o app ticks)
    serve-Pipeline app ticks behind inp out left app' ticks' end bursts o (suc fuel) (cut_off _ _)
          h =
        let (e, malformed, other) = parse_request-only_blank c laws heads blanks bursts in
        rw (append-nil o) (round-failed c ops service now fuel _ e _ malformed other)
    serve-Pipeline app ticks behind inp out left app'' ticks' end bursts o (suc fuel)
          (answered _ _ _ blank req chosen res app' inp' out' _ _ _ _ x e d run) h =
        let s : Stream = record { rest = []; fault = none; bursts = bursts } in
        let sent = (request_text c sent_ops req).0 in
        let shorter : length inp' < fuel =
          omega (arith, length-append sent inp', Exchange-filled c sent_ops service x) in
        serve-again fuel app behind blank req chosen res app' s inp' o ticks x e d
        ∙ serve-Pipeline app' _ blank inp' out' left app'' ticks' end bursts
            (o ++ (reply ticks req chosen res).0) fuel run shorter
        ∙ simp append_assoc
    serve-Pipeline app ticks behind inp out left app'' ticks' end bursts o (suc fuel)
          (closing _ _ _ blank req chosen res app' left' outcome _ x e l) h =
        serve-left fuel app behind blank req chosen res app'
          (record { rest = []; fault = none; bursts = bursts }) left' o ticks outcome end x e l
