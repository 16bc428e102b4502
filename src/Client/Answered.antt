-- ===== src/Client/Answered.antt =====
-- What the client makes of a response that the server wrote.
use touche.Base.{
  ℕ, ◌^◌, ◌<◌, ◌≡◌, ap, ◌∙◌, Option, none, some, List, [], ◌++◌, arith, true, false, Bytes, length,
}
use touche.Base.Result.{ok, err}
use touche.Io.{Stream, with_rest, open_sink, unexpected_eof, read_exact}
use touche.Crates.{Crates, Version}
use touche.Crates.Laws.{HeaderLaws, ReadsResponses}
use touche.Http.{Request, Response}
use touche.Head.{io}
use touche.Body.{BodyInner, HttpBody}
use touche.Body.Consume.{into_bytes}
use touche.Wire.Body.{fixed_length}
use touche.Request.Written.{request_text}
use touche.Response.{parse_response, with_body, response_body, sized_body}
use touche.Response.Encode.{choose_encoding}
use touche.Response.Written.{response_text, encoded_text, sent_body, head_text}
use touche.Response.Parsed.{CanSend, parse_response-head_text}
use touche.Response.RoundTrip.{Holds}
use touche.Response.RoundTrip.Fixed.{fixed_headers, fixed_round_trip}
use touche.Client.{connection_outcome, receive, send_request}
use touche.Client.Output.{send_request-open}

module _ (c : Crates) (laws : HeaderLaws c) (heads : ReadsResponses c) where
  open c use {HeaderMap, try_transfer_encoding, try_content_length}

  module _ {Conn Handler B Sent : Type 0} where
    -- A request that goes out without an error, over a connection that takes everything and on which a
    -- response of a fixed length below 2 ^ 64 is coming in, gives that response, with its status, version,
    -- sent headers and bytes, and the outcome that its headers and status call for. The response's head can
    -- be sent, its body holds its bytes, and its own headers have no Transfer-Encoding and a readable
    -- Content-Length, if any.
    pub send_request-answered :
        (sent_ops : HttpBody HeaderMap Sent) (ops : HttpBody HeaderMap B) (conn : Conn)
        (req : Request c Sent) (res : Response c Handler B) (chosen : HeaderMap) (stated : Option ℕ)
        (bs : Bytes) (s : Stream) (r o : Bytes)
        → (request_text c sent_ops req).1 ≡ ok tt
        → length bs < 2 ^ 64
        → Holds ops res.body bs
        → try_transfer_encoding res.headers ≡ ok none
        → try_content_length res.headers ≡ ok stated
        → choose_encoding c res.version res.headers (ops.len res.body)
          ≡ ok (fixed_length (length bs), chosen)
        → CanSend c res.version res.status chosen
        → (b : BodyInner HeaderMap) × (into_bytes c b ≡ ok bs)
          × (let got : Response c Handler (BodyInner HeaderMap) = record {
            status = res.status;
            version = res.version;
            headers = chosen;
            upgrade = none;
            body = b;
          } in
              send_request c sent_ops conn
                (with_rest s ((response_text c ops res true).0 ++ r))
                req
                (open_sink o)
              ≡ (
                ok (connection_outcome c sent_ops conn got, got),
                open_sink (o ++ (request_text c sent_ops req).0),
              ))
    unfolding receive
    send_request-answered sent_ops ops conn req res chosen stated bs s r o sent fits holds te cl e
          v =
        let (b, s', parsed, i, d) =
          fixed_round_trip c laws {Handler' = Handler} ops res chosen stated bs s r heads fits holds
            te cl e v in
        (
          b,
          i,
          send_request-open c sent_ops conn (with_rest s ((response_text c ops res true).0 ++ r))
                req o
              ∙ rw (sent, receive) (rw parsed),
        )

  unread_body :
      {Handler' : Type 0} (status : ℕ) (version : Version) (h : HeaderMap) (bursts : List ℕ)
      (len : ℕ)
      → try_transfer_encoding h ≡ ok none
      → try_content_length h ≡ ok (some len)
      → 0 < len
      → len < 1024
      → (with_body c {Handler = Handler'}
          (ok (status, version, h))
          (record { rest = []; fault = none; bursts = bursts })).0
        ≡ err (io unexpected_eof)
  unfolding with_body response_body sized_body read_exact
  unread_body status version h bursts len te cl some_bytes few =
      rw (te, response_body) (rw (cl, response_body) (ground arith))

  -- A response of a fixed length from 1 to 1023 that goes out without its body, as the answer to a HEAD, and
  -- behind which the connection ends, is an error for `parse_response`, which does not know of the method.
  -- Its head can be sent, and its own headers have no Transfer-Encoding and a readable Content-Length, if
  -- any.
  pub head_answer_unread :
      {Handler Handler' B : Type 0} (ops : HttpBody HeaderMap B) (res : Response c Handler B)
      (chosen : HeaderMap) (stated : Option ℕ) (len : ℕ) (bursts : List ℕ)
      → try_transfer_encoding res.headers ≡ ok none
      → try_content_length res.headers ≡ ok stated
      → choose_encoding c res.version res.headers (ops.len res.body) ≡ ok (fixed_length len, chosen)
      → CanSend c res.version res.status chosen
      → 0 < len
      → len < 1024
      → (parse_response c {Handler = Handler'}
          (record { rest = (response_text c ops res false).0; fault = none; bursts = bursts })).0
        ≡ err (io unexpected_eof)
  unfolding response_text encoded_text sent_body
  head_answer_unread ops res chosen stated len bursts te cl e v some_bytes few =
      let s : Stream = record { rest = []; fault = none; bursts = bursts } in
      let (te', cl', same) =
        fixed_headers c laws res.version res.headers chosen stated _ len (omega arith) te cl e in
      let text : (response_text c ops res false).0
          ≡ head_text c res.version res.status chosen ++ [] =
        rw (e, response_text) (rw same) in
      rw text
        (ap (λ p. p.0) (parse_response-head_text c laws heads res.version res.status chosen s [] v))
      ∙ unread_body res.status res.version chosen bursts len te' cl' some_bytes few
