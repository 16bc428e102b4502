-- ===== src/Server/Output.antt =====
-- What one request makes the server write, on a connection that takes everything.
use touche.Base.{ℕ, ◌≡◌, refl, ◌++◌, append-nil, true, false, Bytes, suc, if◌then◌else◌}
use touche.Base.Result.{ok, err, and_then, continue}
use touche.Io.{Stream, open_sink, flush}
use touche.Crates.{Crates}
use touche.Http.{Request, Response}
use touche.Body.{BodyInner, HttpBody, IoResult}
use touche.Wire.Body.{Encoding}
use touche.Response.Encode.{choose_encoding, sent_headers}
use touche.Response.Write.{Outcome}
use touche.Response.Written.{response_text, encoded_text, sent_body, head_text, write_response-open}
use touche.Server.{
  Service, Session, after_outcome, to_writer, call_service, stamped, conclude, deliver, answer,
}
use touche.Server.Rules.{demands_close, should_write_body, stamp}

module _ (c : Crates) where
  open c use {HeaderMap, is_head, is_connect, is_success}

  module _ {App Error Handler B : Type 0} (ops : HttpBody HeaderMap B)
      (service : Service c App Error Handler B) (now : ℕ → Bytes) where
    conclude-result :
        (req : Request c (BodyInner HeaderMap)) (out : IoResult (Outcome Handler)) (s : Session App)
        → continue out (conclude c ops service now req) s
          ≡ (and_then out (λ o. ok (after_outcome (demands_close c req.version req.headers) o)), s)
    unfolding conclude to_writer flush
    conclude-result req (ok out) s = refl
    conclude-result req (err e) s = refl

    -- A response is delivered as its text, and its outcome decides what follows.
    pub deliver-open :
        (req : Request c (BodyInner HeaderMap)) (res : Response c Handler B) (s : Session App)
        (o : Bytes)
        → let text = response_text c ops res (should_write_body c req.method res.status) in
          deliver c ops service now req res (record s { writer = open_sink o }) ≡ (
            and_then text.1
                (λ out. ok (after_outcome (demands_close c req.version req.headers) out)),
            record s { writer = open_sink (o ++ text.0) },
          )
    unfolding deliver to_writer
    deliver-open req res s o =
        rw (write_response-open c ops res (should_write_body c req.method res.status) o, deliver)
          (conclude-result req _ _)

    -- A request that the service answers makes the server write the text of that response, with the
    -- request's version and the server's headers, and go on as its outcome and the request say.
    pub answer-open :
        (req : Request c (BodyInner HeaderMap)) (res : Response c Handler B) (app : App)
        (s : Session App) (o : Bytes) (left : Stream)
        → service.call s.app req s.reader ≡ ((ok res, app), left)
        → let (headers, reads) = stamp c req.version req.headers res.headers (now s.ticks) in
          let text =
            response_text c ops
              (record res { version = req.version; headers = headers })
              (should_write_body c req.method res.status) in
          answer c ops service now req (record s { writer = open_sink o }) ≡ (
            and_then text.1
                (λ out. ok (after_outcome (demands_close c req.version req.headers) out)),
            record {
              reader = left;
              writer = open_sink (o ++ text.0);
              app = app;
              ticks = if reads then suc s.ticks else s.ticks;
            },
          )
    unfolding answer call_service stamped
    answer-open req res app s o left e =
        rw (e, answer)
          (deliver-open req _
            (record s {
              reader = left;
              app = app;
              ticks =
                  if (stamp c req.version req.headers res.headers (now s.ticks)).1
                  then suc s.ticks
                  else s.ticks;
            })
            o)

  withheld :
      (method : c.Method) (status : ℕ)
      → is_head method ≡ false
      → is_connect method ≡ true
      → is_success status ≡ false
      → should_write_body c method status ≡ false
  unfolding should_write_body
  withheld method status h k n = rw (h, k, n)

  -- A CONNECT, which is not a HEAD, is refused with a head and no body on the wire, whatever encoding its
  -- headers announce.
  pub connect_refusal :
      {Handler B : Type 0} (ops : HttpBody HeaderMap B) (req : Request c (BodyInner HeaderMap))
      (res : Response c Handler B) (encoding : Encoding) (chosen : HeaderMap)
      → is_head req.method ≡ false
      → is_connect req.method ≡ true
      → is_success res.status ≡ false
      → choose_encoding c res.version res.headers (ops.len res.body) ≡ ok (encoding, chosen)
      → (response_text c ops res (should_write_body c req.method res.status)).0
        ≡ head_text c res.version res.status (sent_headers c res.version res.headers chosen)
  unfolding response_text encoded_text sent_body
  connect_refusal ops req res encoding chosen h k n e =
      rw (e, response_text) (rw (withheld req.method res.status h k n) (rw append-nil))
