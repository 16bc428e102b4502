-- ===== src/Server/Continue.antt =====
-- A request that expects a 100, or does not, described case by case with the text that goes out.
use touche.Base.{
  ℕ, ◌≡◌, ◌≢◌, refl, ap, none, some, ◌∷◌, ◌++◌, map, append_assoc, append-nil, true, false, Bytes,
  crlf, arith, ◌==◌, if◌then◌else◌, Bool-cases, inl, inr,
}
use touche.Base.Result.{ok}
use touche.Io.{Stream}
use touche.Crates.{Crates, http_11}
use touche.Crates.Laws.{HeaderLaws, status_text_line}
use touche.Http.{Request}
use touche.Body.{BodyInner, HttpBody, IoResult, unit_body, after_drop}
use touche.Head.Lines.{lines}
use touche.Wire.Header.{header_text, header_lines-lines}
use touche.Wire.Body.{fixed_length}
use touche.Wire.Body.Laws.{body_text, bytes_text}
use touche.Response.Encode.{choose_encoding, sized_encoding, sent_headers}
use touche.Response.Write.{Outcome, outcome, status_line}
use touche.Response.Written.{response_text, encoded_text, sent_body, head_text}
use touche.Server.{Service, Session, Next, again, bare_response, answer_expect, answer, respond}
use touche.Server.Rounds.{session}
use touche.Server.Rules.{expects_continue}
use touche.Server.Expect.{respond-expecting}

-- A new header map announces no body.
pub record AnnouncesNone (c : Crates) : Type 0 where
  pub unencoded : c.try_transfer_encoding c.no_headers ≡ ok none
  pub unsized : c.try_content_length c.no_headers ≡ ok none

module _ (c : Crates) where
  open c use {HeaderMap, iter, no_headers, insert_content_length, expect}

  -- A status on its own: an HTTP/1.1 head with a Content-Length of 0 and no other header.
  abbrev pub bare_head : ℕ → Bytes
  bare_head status =
      lines (
        status_text_line c http_11 status
        ∷ map header_text (iter (insert_content_length no_headers 0)))
      ++ crlf

  bare_response-text :
      {Handler : Type 0}
      → HeaderLaws c
      → AnnouncesNone c
      → (status : ℕ)
      → (out : Outcome Handler) × (response_text c {Handler = Handler} unit_body
            (bare_response c status)
            true
          ≡ (bare_head status, ok out))
  unfolding response_text encoded_text sent_body choose_encoding sized_encoding sent_headers
      body_text bytes_text head_text status_line
  bare_response-text laws new status =
      let te = laws.get_transfer_encoding no_headers none new.unencoded in
      let cl = laws.get_content_length no_headers none new.unsized in
      (
        outcome c none (fixed_length 0) (insert_content_length no_headers 0),
        rw (te, response_text, choose_encoding)
            (rw (cl, response_text)
              (rw (header_lines-lines (iter (insert_content_length no_headers 0)))
                (simp (append_assoc, append-nil)))),
      )

  module _ {App Error Handler B : Type 0} (ops : HttpBody HeaderMap B)
      (service : Service c App Error Handler B) (now : ℕ → Bytes)
      (req : Request c (BodyInner HeaderMap)) (reader : Stream) (o : Bytes) (app : App)
      (ticks : ℕ) where
    -- What a round of the loop does, by what the request expects and what the service decides.
    pub data Replies : IoResult (Next Handler) × Session App → Type 0 where
      unexpected :
          expect req.headers ≢ some true
          → Replies (answer c ops service now req (session reader o app ticks))
      allowed :
          (status : ℕ) (app' : App)
          → expect req.headers ≡ some true
          → service.should_continue app req ≡ (status, app')
          → status ≡ 100
          → Replies
              (answer c ops service now req (session reader (o ++ bare_head status) app' ticks))
      turned_down :
          (status : ℕ) (app' : App)
          → expect req.headers ≡ some true
          → service.should_continue app req ≡ (status, app')
          → status ≢ 100
          → Replies
              (ok again, session (after_drop req.body reader) (o ++ bare_head status) app' ticks)

    respond-unexpecting :
        expects_continue c req.headers ≡ false
        → respond c ops service now req (session reader o app ticks)
          ≡ answer c ops service now req (session reader o app ticks)
    unfolding respond answer_expect
    respond-unexpecting silent = rw (silent, respond, answer_expect) refl

    respond-bare :
        HeaderLaws c
        → AnnouncesNone c
        → (status : ℕ) (app' : App) → expect req.headers ≡ some true
        → service.should_continue app req ≡ (status, app')
        → respond c ops service now req (session reader o app ticks) ≡ (
            if status == 100
            then answer c ops service now req (session reader (o ++ bare_head status) app' ticks)
            else (
              ok again,
              session (after_drop req.body reader) (o ++ bare_head status) app' ticks,
            ))
    unfolding expects_continue
    respond-bare laws new status app' expecting decided =
        let (out, text) = bare_response-text {Handler = Handler} laws new status in
        let told =
          respond-expecting c ops service now req reader o app app' ticks status out
            (rw expecting refl) decided (ap (λ p. p.1) text) in
        rw (ap (λ p. p.0) text) at told

    -- On a connection that takes everything, a request that does not expect a 100 is answered at once. For
    -- one that does, the status that the service decides on goes out as an HTTP/1.1 head with a
    -- Content-Length of 0 and no other header. Behind a 100 the request is answered; with any other status
    -- the service is not called, the body is dropped, and the loop goes on with the next request.
    pub respond-Replies :
        HeaderLaws c
        → AnnouncesNone c
        → Replies (respond c ops service now req (session reader o app ticks))
    unfolding expects_continue
    respond-Replies laws new =
        let (status, app') = service.should_continue app req in
        elim (Bool-cases (expects_continue c req.headers)) [
          | inl expecting ↦
              let hit : expect req.headers ≡ some true = ground arith in
              let told = respond-bare laws new status app' hit refl in
              elim (Bool-cases (status == 100)) [
                | inl go ↦
                    let same : status ≡ 100 = ground (arith, go) in
                    rw told (rw go (allowed status app' hit refl same))
                | inr stop ↦
                    let other : status ≢ 100 = ground (arith, stop) in
                    rw told (rw stop (turned_down status app' hit refl other))
              ]
          | inr silent ↦
              let miss : expect req.headers ≢ some true = λ e. absurd (cc (rw e at silent)) in
              rw (respond-unexpecting silent) (unexpected miss)
        ]
