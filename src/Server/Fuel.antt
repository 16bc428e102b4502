-- ===== src/Server/Fuel.antt =====
-- The loop of `serve` ends: every request takes its head off the connection.
use touche.Base.{
  ℕ, zero, suc, ◌≤◌, ◌<◌, ◌≡◌, refl, Option, none, some, arith, Bytes, length, true, false,
  Bool-cases, inl, inr,
}
use touche.Base.Result.{Result, ok, err, Act, ◌>>=◌, ◌>>◌, Result-cases}
use touche.Io.{IoError, parse_failed, Stream, Write, flush}
use touche.Crates.{Crates}
use touche.Http.{Request, Response}
use touche.Head.{ParseError, connection_closed}
use touche.Body.{BodyInner, HttpBody, unit_body}
use touche.Request.{parse_request}
use touche.Server.{
  Service, Session, serve, respond, answer, deliver, conclude, answer_expect, call_service, stamped,
  refused, to_writer, again, closed, upgraded, bare_response,
}
use touche.Server.Rules.{expects_continue, should_write_body}
use touche.Response.Write.{Outcome, write_response}
use touche.Request.Taken.{Leaves, parse_request-Leaves}

module _ (c : Crates) where
  open c use {HeaderMap}

  module _ {App Error Handler B : Type 0} (ops : HttpBody HeaderMap B)
      (service : Service c App Error Handler B) (now : ℕ → Bytes) where
    bind-reader :
        {A A' : Type 0} (m : Act (Session App) IoError A) (f : A → Act (Session App) IoError A')
        (s : Session App)
        → ((a : A) (s' : Session App) → (f a s').1.reader ≡ s'.reader)
        → ((m >>= f) s).1.reader ≡ (m s).1.reader
    bind-reader m f s h = elim (Result-cases (m s).0) [
      | inl (a, e) ↦ rw e (h a (m s).1)
      | inr (x, e) ↦ rw e
    ]

    to_writer-reader :
        {A A' : Type 0} (w : Write A) (f : A → Act (Session App) IoError A') (s : Session App)
        → ((a : A) (s' : Session App) → (f a s').1.reader ≡ s'.reader)
        → ((to_writer w >>= f) s).1.reader ≡ s.reader
    unfolding to_writer
    to_writer-reader w f s h = bind-reader (to_writer w) f s h

    conclude-reader :
        (req : Request c (BodyInner HeaderMap)) (outcome : Outcome Handler) (s : Session App)
        → (conclude c ops service now req outcome s).1.reader ≡ s.reader
    unfolding conclude to_writer flush
    conclude-reader req outcome s = refl

    deliver-reader :
        (req : Request c (BodyInner HeaderMap)) (res : Response c Handler B) (s : Session App)
        → (deliver c ops service now req res s).1.reader ≡ s.reader
    unfolding deliver
    deliver-reader req res s =
        to_writer-reader (write_response c ops res (should_write_body c req.method res.status))
          (conclude c ops service now req) s (conclude-reader req)

    stamped-reader :
        (req : Request c (BodyInner HeaderMap)) (res : Response c Handler B) (s : Session App)
        → ((stamped c ops service now req res >>= deliver c ops service now req) s).1.reader
          ≡ s.reader
    unfolding stamped
    stamped-reader req res s = deliver-reader req _ _

    answer-reader :
        (req : Request c (BodyInner HeaderMap)) (s : Session App)
        → (answer c ops service now req s).1.reader ≡ (service.call s.app req s.reader).1
    unfolding answer call_service
    answer-reader req s =
        bind-reader (call_service c ops service now req)
          (λ res. stamped c ops service now req res >>= deliver c ops service now req) s
          (stamped-reader req)

    answer_expect-reader :
        (req : Request c (BodyInner HeaderMap)) (s : Session App)
        → (answer_expect c ops service now req s).1.reader ≡ s.reader
    unfolding answer_expect
    answer_expect-reader req s = elim (Bool-cases (expects_continue c req.headers)) [
      | inl e ↦
          let (status, app) = service.should_continue s.app req in
          let bare = bare_response c {Handler = Handler} status in
          rw e (
            to_writer-reader (write_response c unit_body bare true >> flush) _
              (record s { app = app }) (λ u s'. refl))
      | inr e ↦ rw e
    ]

    -- The service puts nothing back: it leaves of the connection no more than there is, both as it was
    -- given it and behind the request's body.
    abbrev pub Shrinks : Type 0
    Shrinks =
        (app : App) (req : Request c (BodyInner HeaderMap)) (s : Stream) (n : ℕ)
        → Leaves n req.body s
        → length (service.call app req s).1.rest ≤ n

    respond-le :
        (req : Request c (BodyInner HeaderMap)) (s : Session App) (n : ℕ)
        → Shrinks
        → Leaves n req.body s.reader
        → length (respond c ops service now req s).1.reader.rest ≤ n
    unfolding respond refused
    respond-le req s n shrinks leaves =
        let reader = answer_expect-reader req s in
        elim (Result-cases (answer_expect c ops service now req s).0) [
          | inl (true, e) ↦
              let s' = (answer_expect c ops service now req s).1 in
              rw (e, answer-reader req s') (shrinks s'.app req s'.reader n (rw reader leaves))
          | inl (false, e) ↦ rw (e, reader) leaves.1
          | inr (x, e) ↦ rw (e, reader) leaves.0
        ]

    stops :
        (x : ParseError) (s : Session App) (fuel : ℕ)
        → (parse_request c s.reader).0 ≡ err x
        → (r : Result IoError (Option Handler) × Session App) × (serve c ops service now
              (suc fuel)
              s
            ≡ some r)
    unfolding serve
    stops connection_closed s fuel e =
        ((ok none, record s { reader = (parse_request c s.reader).1 }), rw (e, serve))
    stops x s fuel e =
        ((err parse_failed, record s { reader = (parse_request c s.reader).1 }), rw (e, serve))

    -- If the service puts nothing back, a connection of n bytes is served to an end within any number of
    -- rounds above n.
    pub serve-ends :
        (fuel : ℕ) (s : Session App)
        → Shrinks
        → length s.reader.rest < fuel
        → (r : Result IoError (Option Handler) × Session App) × (serve c ops service now fuel s
            ≡ some r)
    unfolding serve
    serve-ends zero s shrinks h = absurd (omega arith)
    serve-ends (suc fuel) s shrinks h = elim (Result-cases (parse_request c s.reader).0) [
      | inl (req, e) ↦
          let s' = record s { reader = (parse_request c s.reader).1 } in
          let (n, lt, leaves) = parse_request-Leaves c s.reader req e in
          elim (Result-cases (respond c ops service now req s').0) [
            | inl (again, f) ↦
                let (r, p) =
                  serve-ends fuel (respond c ops service now req s').1 shrinks
                    (ground (arith, respond-le req s' n shrinks leaves)) in
                (r, rw (e, serve) (rw f p))
            | inl (closed, f) ↦
                ((ok none, (respond c ops service now req s').1), rw (e, serve) (rw f))
            | inl (upgraded handler, f) ↦
                ((ok (some handler), (respond c ops service now req s').1), rw (e, serve) (rw f))
            | inr (x, f) ↦ ((err x, (respond c ops service now req s').1), rw (e, serve) (rw f))
          ]
      | inr (x, e) ↦ stops x s fuel e
    ]
