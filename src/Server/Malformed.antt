-- ===== src/Server/Malformed.antt =====
-- `serve` over a request that cannot be read.
use touche.Base.{ℕ, suc, ◌≡◌, ◌≢◌, ap, some, ◌++◌, Bytes}
use touche.Base.Result.{err}
use touche.Io.{Stream, parse_failed, with_rest}
use touche.Crates.{Crates, Version}
use touche.Crates.Laws.{HeaderLaws, ReadsRequests}
use touche.Body.{HttpBody}
use touche.Head.{ParseError, connection_closed}
use touche.Request.{parse_request}
use touche.Request.Parsed.{CanAsk, asked_text}
use touche.Request.Errors
use touche.Request.Errors.{Unreadable, parse_request-Unreadable}
use touche.Server.{Service, serve}
use touche.Server.Rounds.{session, round-failed}

Unreadable-other :
    {c : Crates} {h : c.HeaderMap} {s : Stream} {e : ParseError}
    → Unreadable c h s e
    → e ≢ connection_closed
Unreadable-other (Errors.bad_encoding x te) same = absurd (cc same)
Unreadable-other (Errors.not_chunked te) same = absurd (cc same)
Unreadable-other (Errors.bad_length x te cl) same = absurd (cc same)
Unreadable-other (Errors.cut_short len te cl small short) same = absurd (cc same)

module _ (c : Crates) {App Error Handler B : Type 0} (ops : HttpBody c.HeaderMap B)
    (service : Service c App Error Handler B) (now : ℕ → Bytes) (laws : HeaderLaws c)
    (heads : ReadsRequests c) where
  -- A request whose head can be sent, and whose body is announced in a way that cannot be read, ends the
  -- connection with an error: no answer goes out for it, and the service is not called.
  pub serve-Unreadable :
      (method : c.Method) (uri : c.Uri) (version : Version) (h : c.HeaderMap) (s : Stream)
      (r o : Bytes) (e : ParseError) (app : App) (ticks fuel : ℕ)
      → (v : CanAsk c method uri version h) → Unreadable c h (with_rest s r) e
      → (left : Stream) × (serve c ops service now
            (suc fuel)
            (session (with_rest s (asked_text c method uri h v.version_text ++ r)) o app ticks)
          ≡ some (err parse_failed, session left o app ticks))
  serve-Unreadable method uri version h s r o e app ticks fuel v unreadable =
      let text = with_rest s (asked_text c method uri h v.version_text ++ r) in
      let failed =
        (parse_request-Unreadable c laws heads method uri version h s r e v).1 unreadable in
      let left = (parse_request c text).1 in
      (
        left,
        round-failed c ops service now fuel (session text o app ticks) e left
            (ap (λ p. (p, left)) failed) (Unreadable-other unreadable),
      )
