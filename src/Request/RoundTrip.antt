-- ===== src/Request/RoundTrip.antt =====
-- A request that `write_request` wrote is what `parse_request` reads, with the same bytes of body.
pub mod Framing
use touche.Base.{
  ℕ, ◌^◌, ◌<◌, ◌≡◌, refl, ap, ◌∙◌, Option, none, some, List, ◌++◌, map, append_assoc, arith, Bool,
  true, Bytes, length, length-append, concat, crlf, All,
}
use touche.Base.Result.{ok}
use touche.Io.{Stream, with_rest}
use touche.Crates.{Crates}
use touche.Crates.Laws.{HeaderLaws, ReadsRequests, ReadsSizes}
use touche.Http.{Request}
use touche.Chunked.RoundTrip.{read_chunks-chunk_frames, IsSendable}
use touche.Chunked.{read_chunks}
use touche.Wire.{header_lines, chunk_frames, last_chunk}
use touche.Wire.Body.{Encoding, fixed_length, chunked}
use touche.Wire.Body.Laws.{body_text}
use touche.Body.{BodyInner, HttpBody, after_drop, trailers, iter, decoded}
use touche.Body.Channel.Laws.{data_of}
use touche.Body.Consume.{into_bytes}
use touche.Response.RoundTrip.{Holds, body_text-fixed, body_text-chunked, extend_all}
use touche.Response.RoundTrip.Chunked.{into_bytes-decodes}
use touche.Request.{request_body, over_head, parse_request}
use touche.Request.Write.{version_name, request_encoding}
use touche.Request.Written.{framed_text, request_text}
use touche.Request.Parsed.{CanAsk, asked_text, asked_text-filled, parse_request-asked_text}
use touche.Request.RoundTrip.Framing.{
  fixed_request_headers, chunked_request_headers, request_body-fixed,
}

module _ (c : Crates) where
  open c use {HeaderMap, try_transfer_encoding, try_content_length}

  -- The text of a request begins with its head, and the text of its body follows.
  pub request_text-encoded :
      {B : Type 0} (ops : HttpBody HeaderMap B) (req : Request c B) (encoding : Encoding)
      (chosen : HeaderMap) (text : Bytes)
      → request_encoding c req.method req.version req.headers (ops.len req.body)
        ≡ ok (encoding, chosen)
      → (v : CanAsk c req.method req.uri req.version chosen)
      → (body_text c ops encoding req.body).0 ≡ text
      → (request_text c ops req).0 ≡ asked_text c req.method req.uri chosen v.version_text ++ text
  unfolding request_text framed_text asked_text
  request_text-encoded ops req encoding chosen text e v f =
      rw (e, request_text) (rw (v.spelled, f) (simp append_assoc))

  -- A request that goes out has a head.
  pub request_text-filled :
      {B : Type 0} (ops : HttpBody HeaderMap B) (req : Request c B) (encoding : Encoding)
      (chosen : HeaderMap)
      → request_encoding c req.method req.version req.headers (ops.len req.body)
        ≡ ok (encoding, chosen)
      → CanAsk c req.method req.uri req.version chosen
      → 0 < length (request_text c ops req).0
  request_text-filled ops req encoding chosen e v =
      let text = (body_text c ops encoding req.body).0 in
      rw (request_text-encoded ops req encoding chosen text e v refl) (
        omega (
          arith,
          length-append (asked_text c req.method req.uri chosen v.version_text) text,
          asked_text-filled c req.method req.uri req.version chosen v,
        ))

  module _ (laws : HeaderLaws c) (heads : ReadsRequests c) where
    -- A request that goes out with a fixed length below 2 ^ 64 is read back with its method, target,
    -- version, sent headers and bytes, and its body, consumed or dropped, leaves the stream right behind
    -- it. Its head can be sent, its body holds its bytes, and its own headers have no Transfer-Encoding and a
    -- readable Content-Length, if any.
    pub request_fixed_round_trip :
        {B : Type 0} (ops : HttpBody HeaderMap B) (req : Request c B) (chosen : HeaderMap)
        (stated : Option ℕ) (bs : Bytes) (s : Stream) (r : Bytes)
        → length bs < 2 ^ 64
        → Holds ops req.body bs
        → try_transfer_encoding req.headers ≡ ok none
        → try_content_length req.headers ≡ ok stated
        → request_encoding c req.method req.version req.headers (ops.len req.body)
          ≡ ok (fixed_length (length bs), chosen)
        → CanAsk c req.method req.uri req.version chosen
        → (b : BodyInner HeaderMap) × (s' : Stream) × (parse_request c
              (with_rest s ((request_text c ops req).0 ++ r))
            ≡ (
              ok (record {
                method = req.method;
                uri = req.uri;
                version = req.version;
                headers = chosen;
                body = b;
              }),
              s',
            ))
          × (into_bytes c b ≡ ok bs)
          × (after_drop b s' ≡ with_rest s r)
    unfolding over_head
    request_fixed_round_trip ops req chosen stated bs s r fits holds te cl e v =
        let (te', cl') =
          fixed_request_headers c laws req.method req.version req.headers chosen stated _
            (length bs) fits te cl e in
        let (b, s', read, i, d) = request_body-fixed c chosen s bs r te' cl' in
        let text =
          request_text-encoded ops req _ chosen bs e v
            (body_text-fixed c ops req.body bs (length bs) holds) in
        (
          b,
          s',
          rw (text, append_assoc (asked_text c req.method req.uri chosen v.version_text) bs r)
              (parse_request-asked_text c laws heads req.method req.uri req.version chosen s
                  (bs ++ r) v
                ∙ rw (read, over_head)),
          i,
          d,
        )

    -- What a request of chunks `cs` leaves of the connection `s` when it is parsed: its framed body, and
    -- what stands behind it.
    abbrev pub behind_head : Stream → List Bytes → List HeaderMap → Bytes → Stream
    behind_head s cs ts r =
        let tail = header_lines (c.iter (extend_all c c.no_headers ts)) in
        with_rest s (chunk_frames cs ++ (last_chunk ++ (tail ++ (crlf ++ r))))

    pub parse_request-chunked :
        {B : Type 0} (ops : HttpBody HeaderMap B) (req : Request c B) (chosen : HeaderMap)
        (te : Option Bool) (cs : List Bytes) (ts : List HeaderMap) (s : Stream) (r : Bytes)
        → ops.into_chunks req.body ≡ data_of HeaderMap cs ++ map (λ t. ok (trailers t)) ts
        → try_transfer_encoding req.headers ≡ ok te
        → request_encoding c req.method req.version req.headers (ops.len req.body)
          ≡ ok (chunked, chosen)
        → CanAsk c req.method req.uri req.version chosen
        → let left = behind_head s cs ts r in
          parse_request c (with_rest s ((request_text c ops req).0 ++ r)) ≡ (
            ok (record {
              method = req.method;
              uri = req.uri;
              version = req.version;
              headers = chosen;
              body = iter (decoded left);
            }),
            left,
          )
    unfolding over_head request_body
    parse_request-chunked ops req chosen te cs ts s r items te_is e v =
        let tail = header_lines (c.iter (extend_all c c.no_headers ts)) in
        let body = chunk_frames cs ++ (last_chunk ++ (tail ++ crlf)) in
        let te' =
          chunked_request_headers c laws req.method req.version req.headers chosen te _ te_is e in
        let text =
          request_text-encoded ops req chunked chosen body e v
            (body_text-chunked c ops req.body cs ts items) in
        rw (text, append_assoc (asked_text c req.method req.uri chosen v.version_text) body r)
          (parse_request-asked_text c laws heads req.method req.uri req.version chosen s (body ++ r)
              v
            ∙ rw (te', over_head, request_body) (simp append_assoc))

    -- A request that goes out with a body of chunks and then trailers is read back with its method, target,
    -- version, sent headers and data. Once its chunks are consumed the stream is left in front of the
    -- trailers. If its body is dropped instead the stream is left in front of the chunks. Its head can be
    -- sent, no chunk is empty or has 2 ^ 64 bytes, and its own headers have a readable Transfer-Encoding, if
    -- any.
    pub request_chunked_round_trip :
        {B : Type 0} (ops : HttpBody HeaderMap B) (req : Request c B) (chosen : HeaderMap)
        (te : Option Bool) (cs : List Bytes) (ts : List HeaderMap) (s : Stream) (r : Bytes)
        → ReadsSizes c.parse_chunk_size
        → All IsSendable cs
        → ops.into_chunks req.body ≡ data_of HeaderMap cs ++ map (λ t. ok (trailers t)) ts
        → try_transfer_encoding req.headers ≡ ok te
        → request_encoding c req.method req.version req.headers (ops.len req.body)
          ≡ ok (chunked, chosen)
        → CanAsk c req.method req.uri req.version chosen
        → let tail = header_lines (c.iter (extend_all c c.no_headers ts)) in
          (b : BodyInner HeaderMap) × (s' : Stream) × (parse_request c
              (with_rest s ((request_text c ops req).0 ++ r))
            ≡ (
              ok (record {
                method = req.method;
                uri = req.uri;
                version = req.version;
                headers = chosen;
                body = b;
              }),
              s',
            ))
          × (into_bytes c b ≡ ok (concat cs))
          × ((read_chunks c.parse_chunk_size s').1 ≡ with_rest s (tail ++ (crlf ++ r)))
          × (after_drop b s'
              ≡ with_rest s (chunk_frames cs ++ (last_chunk ++ (tail ++ (crlf ++ r)))))
    unfolding after_drop
    request_chunked_round_trip ops req chosen te cs ts s r sizes sendable items te_is e v =
        let left = behind_head s cs ts r in
        let tail = header_lines (c.iter (extend_all c c.no_headers ts)) in
        let decodes =
          read_chunks-chunk_frames c.parse_chunk_size sizes s cs (tail ++ (crlf ++ r)) sendable in
        (
          iter (decoded left),
          left,
          parse_request-chunked ops req chosen te cs ts s r items te_is e v,
          into_bytes-decodes c left cs decodes,
          ap (λ p. p.1) decodes,
          refl,
        )
