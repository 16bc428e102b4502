-- ===== src/Client/Malformed.antt =====
-- `send_request` over a response that cannot be read.
use touche.Base.{ℕ, ◌≡◌, ◌↔◌, refl, ap, sym, ◌∙◌, ◌++◌, Bytes}
use touche.Base.Result.{Result, ok, err, and_then, map_err}
use touche.Io.{IoError, Stream, parse_failed, with_rest, open_sink}
use touche.Crates.{Crates, Version}
use touche.Crates.Laws.{HeaderLaws, ReadsResponses}
use touche.Http.{Request}
use touche.Body.{HttpBody}
use touche.Head.{ParseError}
use touche.Request.Written.{request_text}
use touche.Request.Errors.{Unreadable}
use touche.Response.{parse_response}
use touche.Response.Written.{head_text}
use touche.Response.Parsed.{CanSend}
use touche.Response.Errors.{parse_response-Unreadable}
use touche.Client.{connection_outcome, receive, send_request}
use touche.Client.Output.{send_request-open}

map_err-failed :
    {E A B : Type 0} (r : Result E A) (f : A → B) (x : IoError)
    → and_then (map_err (λ _. parse_failed) r) (λ a. ok (f a)) ≡ err x
    → (e : E) × (r ≡ err e)
map_err-failed (ok a) f x failed = absurd (cc failed)
map_err-failed (err e) f x failed = (e, refl)

module _ (c : Crates) (laws : HeaderLaws c) (heads : ReadsResponses c) {Conn Handler Sent : Type 0}
    (ops : HttpBody c.HeaderMap Sent) where
  -- A request that goes out without an error over a connection that takes everything, and for which a
  -- response comes in whose head can be sent, fails exactly if the headers of the response, and what comes
  -- behind them, are unreadable with some error. The error of the request does not say which.
  pub send_request-Unreadable :
      (conn : Conn) (req : Request c Sent) (version : Version) (status : ℕ) (h : c.HeaderMap)
      (s : Stream) (r o : Bytes)
      → (request_text c ops req).1 ≡ ok tt
      → CanSend c version status h
      → (send_request c {Handler = Handler} ops conn
            (with_rest s (head_text c version status h ++ r))
            req
            (open_sink o)
          ≡ (err parse_failed, open_sink (o ++ (request_text c ops req).0)))
        ↔ ((e : ParseError) × Unreadable c h (with_rest s r) e)
  unfolding receive
  send_request-Unreadable conn req version status h s r o sent v =
      let reader = with_rest s (head_text c version status h ++ r) in
      let refused =
        parse_response-Unreadable c laws heads {Handler = Handler} version status h s r in
      let written =
        send_request-open c {Handler = Handler} ops conn reader req o ∙ rw (sent, receive) refl in
      (
        (λ failed.
            let (e, parsed) =
              map_err-failed (parse_response c {Handler = Handler} reader).0
                (λ res. (connection_outcome c ops conn res, res)) parse_failed
                (ap (λ p. p.0) (sym written ∙ failed)) in
            (e, (refused e v).0 parsed)),
        (λ (e, unreadable).
            written
            ∙ ap
                (λ p. (
                  and_then (map_err (λ _. parse_failed) p)
                      (λ res. ok (connection_outcome c ops conn res, res)),
                  open_sink (o ++ (request_text c ops req).0),
                ))
                ((refused e v).1 unreadable)),
      )
