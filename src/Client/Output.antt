-- ===== src/Client/Output.antt =====
-- What the client writes, and what it makes of the answer.
use touche.Base.{◌≡◌, refl, ◌++◌, Bytes}
use touche.Base.Result.{ok, err, and_then, lift, ◌>>◌}
use touche.Io.{Stream, Sink, open_sink, flush}
use touche.Crates.{Crates}
use touche.Http.{Request}
use touche.Body.{HttpBody, IoResult}
use touche.Request.Written.{request_text, write_request-open}
use touche.Client.{receive, send_request}

after_flush :
    {A : Type 0} (w : IoResult (Unit {0})) (r : IoResult A) (s : Sink)
    → ((λ t. (w, t)) >> flush >> lift r) s ≡ (and_then w (λ _. r), s)
unfolding flush
after_flush (ok u) r s = refl
after_flush (err e) r s = refl

module _ (c : Crates) {Conn Handler B : Type 0} (ops : HttpBody c.HeaderMap B) where
  -- On a connection that takes everything the client writes the text of its request. It reads a
  -- response only if the request went out without an error.
  pub send_request-open :
      (conn : Conn) (reader : Stream) (req : Request c B) (o : Bytes)
      → let text = request_text c ops req in
        send_request c {Handler = Handler} ops conn reader req (open_sink o)
        ≡ (and_then text.1 (λ _. receive c ops conn reader), open_sink (o ++ text.0))
  unfolding send_request
  send_request-open conn reader req o =
      rw (write_request-open c ops req o, send_request) (after_flush _ _ _)
