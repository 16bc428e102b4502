-- ===== src/Server/Exchange.antt =====
-- Requests that a client writes and the service answers by what they hold.
use touche.Base.{
  ℕ, ◌^◌, ◌<◌, ◌≡◌, refl, ap, ◌∙◌, Option, none, List, [], ◌++◌, Bool, true, false, Bytes, length,
  crlf, All,
}
use touche.Base.Result.{ok}
use touche.Io.{Stream, with_rest}
use touche.Crates.{Crates}
use touche.Crates.Laws.{HeaderLaws, ReadsRequests, ReadsSizes, SkipsBlank}
use touche.Http.{Request, Response}
use touche.Chunked.{read_chunks}
use touche.Chunked.RoundTrip.{IsSendable, read_chunks-chunk_frames}
use touche.Body.{BodyInner, HttpBody, iter, decoded, after_drop}
use touche.Body.Channel.Laws.{data_of}
use touche.Body.Consume.{into_bytes}
use touche.Wire.{header_lines}
use touche.Wire.Body.{fixed_length, chunked}
use touche.Response.RoundTrip.{Holds, extend_all}
use touche.Request.{parse_request}
use touche.Request.Write.{request_encoding}
use touche.Request.Written.{request_text}
use touche.Request.Parsed.{CanAsk}
use touche.Request.RoundTrip.{
  request_fixed_round_trip, request_text-filled, parse_request-chunked, behind_head,
}
use touche.Request.Behind.{parse_request-behind}
use touche.Server.{Service}
use touche.Server.Rules.{expects_continue}
use touche.Server.Rounds.{arrived}

-- The blank line that a chunked body leaves behind it.
abbrev pub blank_line : Bool → Bytes
blank_line true = crlf
blank_line false = []

module _ (c : Crates) {App Error Handler Sent B : Type 0} (sent_ops : HttpBody c.HeaderMap Sent)
    (service : Service c App Error Handler B) where
  open c use {HeaderMap, try_transfer_encoding, try_content_length}

  -- A request of the bytes `bs` that goes out with the headers `chosen`, does not expect a 100, and that
  -- the service answers by those bytes, leaving the connection behind the body.
  pub record IsExchange (app : App) (req : Request c Sent) (chosen : HeaderMap) (bs : Bytes)
      (res : Response c Handler B) (app' : App) : Type 0 where
    pub stated : Option ℕ
    pub fits : length bs < 2 ^ 64
    pub holds : Holds sent_ops req.body bs
    pub unchunked : try_transfer_encoding req.headers ≡ ok none
    pub sized : try_content_length req.headers ≡ ok stated
    pub encoded :
        request_encoding c req.method req.version req.headers (sent_ops.len req.body)
        ≡ ok (fixed_length (length bs), chosen)
    pub can_ask : CanAsk c req.method req.uri req.version chosen
    pub no_expect : expects_continue c chosen ≡ false
    pub served :
        (b : BodyInner HeaderMap) (s : Stream)
        → into_bytes c b ≡ ok bs
        → service.call app (arrived c req chosen b) s ≡ ((ok res, app'), after_drop b s)

  -- A request of the chunks `cs`, and no trailers, that the service answers by these chunks, reading them
  -- to their end.
  pub record IsChunkedExchange (app : App) (req : Request c Sent) (chosen : HeaderMap)
      (cs : List Bytes) (res : Response c Handler B) (app' : App) : Type 0 where
    pub stated : Option Bool
    pub readable : try_transfer_encoding req.headers ≡ ok stated
    pub sendable : All IsSendable cs
    pub holds : sent_ops.into_chunks req.body ≡ data_of HeaderMap cs ++ []
    pub encoded :
        request_encoding c req.method req.version req.headers (sent_ops.len req.body)
        ≡ ok (chunked, chosen)
    pub can_ask : CanAsk c req.method req.uri req.version chosen
    pub no_expect : expects_continue c chosen ≡ false
    pub served :
        (s left : Stream)
        → read_chunks c.parse_chunk_size s ≡ (cs, left)
        → service.call app (arrived c req chosen (iter (decoded s))) s ≡ ((ok res, app'), left)

  -- Either of them, and whether it leaves a blank line.
  pub data Exchange (app : App) (req : Request c Sent) (chosen : HeaderMap)
      (res : Response c Handler B) (app' : App) : Bool → Type 0 where
    sized :
        (bs : Bytes)
        → IsExchange app req chosen bs res app'
        → Exchange app req chosen res app' false
    in_chunks :
        (cs : List Bytes)
        → IsChunkedExchange app req chosen cs res app'
        → Exchange app req chosen res app' true

  pub Exchange-unexpecting :
      {app app' : App} {req : Request c Sent} {chosen : HeaderMap} {res : Response c Handler B}
      {blank : Bool}
      → Exchange app req chosen res app' blank
      → expects_continue c chosen ≡ false
  Exchange-unexpecting (sized bs x) = x.no_expect
  Exchange-unexpecting (in_chunks cs x) = x.no_expect

  pub Exchange-filled :
      {app app' : App} {req : Request c Sent} {chosen : HeaderMap} {res : Response c Handler B}
      {blank : Bool}
      → Exchange app req chosen res app' blank
      → 0 < length (request_text c sent_ops req).0
  Exchange-filled {req = req} {chosen = chosen} (sized bs x) =
      request_text-filled c sent_ops req (fixed_length (length bs)) chosen x.encoded x.can_ask
  Exchange-filled {req = req} {chosen = chosen} (in_chunks cs x) =
      request_text-filled c sent_ops req chunked chosen x.encoded x.can_ask

  module _ (laws : HeaderLaws c) (heads : ReadsRequests c) (sizes : ReadsSizes c.parse_chunk_size)
      (blanks : SkipsBlank c) where
    -- The request is parsed, and the service that is called on it leaves the connection behind it.
    pub Exchange-arrives :
        (app : App) (req : Request c Sent) (chosen : HeaderMap) (res : Response c Handler B)
        (app' : App) (blank : Bool) (s : Stream) (r : Bytes)
        → Exchange app req chosen res app' blank
        → (b : BodyInner HeaderMap) × (s' : Stream) × (parse_request c
              (with_rest s ((request_text c sent_ops req).0 ++ r))
            ≡ (ok (arrived c req chosen b), s'))
          × (service.call app (arrived c req chosen b) s'
              ≡ ((ok res, app'), with_rest s (blank_line blank ++ r)))
    unfolding header_lines extend_all
    Exchange-arrives app req chosen res app' blank s r (sized bs x) =
        let (b, s', parsed, i, left) =
          request_fixed_round_trip c laws heads sent_ops req chosen x.stated bs s r x.fits x.holds
            x.unchunked x.sized x.encoded x.can_ask in
        (b, s', parsed, x.served b s' i ∙ ap (λ t. ((ok res, app'), t)) left)
    Exchange-arrives app req chosen res app' blank s r (in_chunks cs x) =
        let left = behind_head c laws heads s cs [] r in
        let decodes =
          read_chunks-chunk_frames c.parse_chunk_size sizes s cs
            (header_lines (c.iter c.no_headers) ++ (crlf ++ r)) x.sendable in
        (
          iter (decoded left),
          left,
          parse_request-chunked c laws heads sent_ops req chosen x.stated cs [] s r x.holds
              x.readable x.encoded x.can_ask,
          x.served left (with_rest s (crlf ++ r))
              (decodes ∙ ap (λ l. (cs, with_rest s (header_lines l ++ (crlf ++ r)))) laws.none_new),
        )

    -- It is parsed behind a blank line as well.
    pub Exchange-behind :
        (app : App) (req : Request c Sent) (chosen : HeaderMap) (res : Response c Handler B)
        (app' : App) (blank behind : Bool) (s : Stream) (r : Bytes)
        → Exchange app req chosen res app' blank
        → parse_request c
            (with_rest s (blank_line behind ++ ((request_text c sent_ops req).0 ++ r)))
          ≡ parse_request c (with_rest s ((request_text c sent_ops req).0 ++ r))
    Exchange-behind app req chosen res app' blank false s r x = refl
    Exchange-behind app req chosen res app' blank true s r (sized bs x) =
        parse_request-behind c laws heads blanks sent_ops req (fixed_length (length bs)) chosen s r
          x.encoded x.can_ask
    Exchange-behind app req chosen res app' blank true s r (in_chunks cs x) =
        parse_request-behind c laws heads blanks sent_ops req chunked chosen s r x.encoded x.can_ask
