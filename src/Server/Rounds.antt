-- ===== src/Server/Rounds.antt =====
-- Single rounds of the loop of `serve`.
use mathlib.Core.Option.{some-injective}
use touche.Base.{ℕ, suc, ◌≡◌, ◌≢◌, refl, ap, ◌∙◌, Option, none, some, List, [], Bytes}
use touche.Base.Result.{Result, ok, err}
use touche.Io.{IoError, Stream, parse_failed, open_sink, read_line, split_line}
use touche.Crates.{Crates}
use touche.Http.{Request}
use touche.Body.{BodyInner, HttpBody, IoResult}
use touche.Head.{
  ParseError, io, invalid, incomplete_request, connection_closed, unsupported_http_version,
  invalid_transfer_encoding, invalid_header, unknown, read_head, read_lines,
}
use touche.Request.{parse_request, parse_request_buffer, over_head}
use touche.Server.{Service, Session, Next, again, closed, upgraded, respond, serve}

-- A session whose peer takes everything.
abbrev pub session : {App : Type 0} → Stream → Bytes → App → ℕ → Session App
session reader out app ticks = record {
  reader = reader;
  writer = open_sink out;
  app = app;
  ticks = ticks;
}

-- What the loop returns where it does not go on.
abbrev pub loop_end : {Handler : Type 0} → Next Handler → Option (IoResult (Option Handler))
loop_end again = none
loop_end closed = some (ok none)
loop_end (upgraded handler) = some (ok (some handler))

module _ (c : Crates) {Sent : Type 0} where
  open c use {HeaderMap}

  -- The request as the server has it: the headers that went out, and a body that was read.
  abbrev pub arrived :
      Request c Sent → HeaderMap → BodyInner HeaderMap → Request c (BodyInner HeaderMap)
  arrived req chosen b = record {
    method = req.method;
    uri = req.uri;
    version = req.version;
    headers = chosen;
    body = b;
  }

module _ (c : Crates) {App Error Handler B : Type 0} (ops : HttpBody c.HeaderMap B)
    (service : Service c App Error Handler B) (now : ℕ → Bytes) where
  open c use {HeaderMap}

  pub round-again :
      (fuel : ℕ) (s s' : Session App) (req : Request c (BodyInner HeaderMap)) (reader : Stream)
      → parse_request c s.reader ≡ (ok req, reader)
      → respond c ops service now req (record s { reader = reader }) ≡ (ok again, s')
      → serve c ops service now (suc fuel) s ≡ serve c ops service now fuel s'
  unfolding serve
  round-again fuel s s' req reader e f =
      let f' : respond c ops service now req (record s { reader = (parse_request c s.reader).1 })
          ≡ (ok again, s') =
        ap (λ p. respond c ops service now req (record s { reader = p.1 })) e ∙ f in
      rw (e, serve) (rw f' (ap (λ p. serve c ops service now fuel p.1) f'))

  round-closed :
      (fuel : ℕ) (s s' : Session App) (req : Request c (BodyInner HeaderMap)) (reader : Stream)
      → parse_request c s.reader ≡ (ok req, reader)
      → respond c ops service now req (record s { reader = reader }) ≡ (ok closed, s')
      → serve c ops service now (suc fuel) s ≡ some (ok none, s')
  unfolding serve
  round-closed fuel s s' req reader e f =
      let f' : respond c ops service now req (record s { reader = (parse_request c s.reader).1 })
          ≡ (ok closed, s') =
        ap (λ p. respond c ops service now req (record s { reader = p.1 })) e ∙ f in
      rw (e, serve) (rw f' (ap (λ p. some (ok none, p.1)) f'))

  round-upgraded :
      (fuel : ℕ) (s s' : Session App) (req : Request c (BodyInner HeaderMap)) (reader : Stream)
      (handler : Handler)
      → parse_request c s.reader ≡ (ok req, reader)
      → respond c ops service now req (record s { reader = reader }) ≡ (ok (upgraded handler), s')
      → serve c ops service now (suc fuel) s ≡ some (ok (some handler), s')
  unfolding serve
  round-upgraded fuel s s' req reader handler e f =
      let f' : respond c ops service now req (record s { reader = (parse_request c s.reader).1 })
          ≡ (ok (upgraded handler), s') =
        ap (λ p. respond c ops service now req (record s { reader = p.1 })) e ∙ f in
      rw (e, serve) (rw f' (ap (λ p. some (ok (some handler), p.1)) f'))

  -- A round behind which the loop does not go on.
  pub round-left :
      (fuel : ℕ) (s s' : Session App) (req : Request c (BodyInner HeaderMap)) (reader : Stream)
      (next : Next Handler) (end : IoResult (Option Handler))
      → parse_request c s.reader ≡ (ok req, reader)
      → respond c ops service now req (record s { reader = reader }) ≡ (ok next, s')
      → loop_end next ≡ some end
      → serve c ops service now (suc fuel) s ≡ some (end, s')
  round-left fuel s s' req reader again end e f l = absurd (cc l)
  round-left fuel s s' req reader closed end e f l =
      round-closed fuel s s' req reader e f ∙ ap (λ r. some (r, s')) (some-injective _ _ l)
  round-left fuel s s' req reader (upgraded handler) end e f l =
      round-upgraded fuel s s' req reader handler e f
      ∙ ap (λ r. some (r, s')) (some-injective _ _ l)

  -- The end of the connection between two requests ends the loop without an error.
  pub round-ended :
      (fuel : ℕ) (bursts : List ℕ) (o : Bytes) (app : App) (ticks : ℕ)
      → let s = session (record { rest = []; fault = none; bursts = bursts }) o app ticks in
        serve c ops service now (suc fuel) s ≡ some (ok none, s)
  unfolding serve parse_request parse_request_buffer over_head read_head read_lines read_line
      split_line
  round-ended fuel bursts o app ticks = refl

  failed-left :
      (s : Session App) (e : ParseError) (reader : Stream)
      → parse_request c s.reader ≡ (err e, reader)
      → ◌≡◌ {A = Option (Result IoError (Option Handler) × Session App)}
          (some (err parse_failed, record s { reader = (parse_request c s.reader).1 }))
          (some (err parse_failed, record s { reader = reader }))
  failed-left s e reader parsed =
      ap (λ p. some (err parse_failed, record s { reader = p.1 })) parsed

  -- A request that cannot be parsed ends the loop with an error, and nothing is written for it.
  pub round-failed :
      (fuel : ℕ) (s : Session App) (e : ParseError) (reader : Stream)
      → parse_request c s.reader ≡ (err e, reader)
      → e ≢ connection_closed
      → serve c ops service now (suc fuel) s ≡ some (err parse_failed, record s { reader = reader })
  unfolding serve
  round-failed fuel s connection_closed reader e other = absurd (other refl)
  round-failed fuel s (io x) reader e other = rw (e, serve) (failed-left s (io x) reader e)
  round-failed fuel s invalid reader e other = rw (e, serve) (failed-left s invalid reader e)
  round-failed fuel s incomplete_request reader e other =
      rw (e, serve) (failed-left s incomplete_request reader e)
  round-failed fuel s (unsupported_http_version v) reader e other =
      rw (e, serve) (failed-left s (unsupported_http_version v) reader e)
  round-failed fuel s invalid_transfer_encoding reader e other =
      rw (e, serve) (failed-left s invalid_transfer_encoding reader e)
  round-failed fuel s invalid_header reader e other =
      rw (e, serve) (failed-left s invalid_header reader e)
  round-failed fuel s unknown reader e other = rw (e, serve) (failed-left s unknown reader e)
