-- ===== src/Request/Behind.antt =====
-- A blank line that a chunked body left on the connection, in front of the next request.
use touche.Base.{
  ℕ, ◌<◌, ◌≡◌, ◌≢◌, codes, refl, sym, none, List, [], ◌∷◌, ◌++◌, map, append_assoc, arith, true,
  Bytes, length, crlf, All, Option-cases, inl, inr,
}
use touche.Base.Result.{ok, err}
use touche.Io.{Stream, with_rest, read_line, split_line}
use touche.Crates.{Crates, Version}
use touche.Crates.Laws.{HeaderLaws, ReadsRequests, SkipsBlank, request_text_line}
use touche.Http.{Request}
use touche.Body.{HttpBody}
use touche.Head.{
  ParseError, connection_closed, invalid, incomplete_request, read_head, read_lines, ends_head,
  blank_backwards,
}
use touche.Head.Lines.{IsLine, read_head-blank_lines}
use touche.Wire.{header_lines}
use touche.Wire.Body.{Encoding}
use touche.Wire.Body.Laws.{body_text}
use touche.Wire.Header.{header_text, header_lines-IsLine, is_token}
use touche.Request.{request_head, over_head, parse_request_buffer, parse_request}
use touche.Request.Write.{request_encoding}
use touche.Request.Written.{request_text}
use touche.Request.Parsed.{
  CanAsk, asked_text, asked_text-lines, asked_text-request, request_text_line-IsLine,
  request_head-asked_text, parse_request-asked_text,
}
use touche.Request.RoundTrip.{request_text-encoded}

module _ (c : Crates) where
  open c use {Method, Uri, HeaderMap, iter, method_text, uri_text, parse_request_head}

  parse_request_head-blank :
      (name rest : Bytes)
      → SkipsBlank c
      → 0 < length name
      → All (λ b. is_token b ≡ true) name
      → parse_request_head (crlf ++ (name ++ rest)) ≡ parse_request_head (name ++ rest)
  parse_request_head-blank [] rest blanks named token = absurd (omega arith)
  parse_request_head-blank (b ∷ name) rest blanks named token =
      blanks.skips b (name ++ rest) token.0

  module _ (laws : HeaderLaws c) (heads : ReadsRequests c) (blanks : SkipsBlank c) where
    asked_text-blank :
        (method : Method) (uri : Uri) (version : Version) (h : HeaderMap)
        → (v : CanAsk c method uri version h)
        → parse_request_head (crlf ++ asked_text c method uri h v.version_text)
          ≡ parse_request_head (asked_text c method uri h v.version_text)
    asked_text-blank method uri version h v =
        let target = codes " " ++ (uri_text uri ++ (codes " " ++ v.version_text)) in
        let rest = crlf ++ (header_lines (iter h) ++ crlf) in
        rw
          (
            asked_text-request c method uri h v.version_text,
            append_assoc (method_text method) target rest,
          )
          (parse_request_head-blank (method_text method) (target ++ rest) blanks v.named v.token)

    request_head-blank :
        (method : Method) (uri : Uri) (version : Version) (h : HeaderMap)
        → (v : CanAsk c method uri version h)
        → request_head c (crlf ++ asked_text c method uri h v.version_text)
          ≡ ok (method, uri, version, h)
    unfolding request_head
    request_head-blank method uri version h v =
        rw (asked_text-blank method uri version h v, request_head)
          (request_head-asked_text c laws heads method uri version h v)

    read_head-blank :
        (method : Method) (uri : Uri) (version : Version) (h : HeaderMap) (s : Stream) (r : Bytes)
        → (v : CanAsk c method uri version h)
        → read_head (with_rest s (crlf ++ (asked_text c method uri h v.version_text ++ r)))
          ≡ (ok (crlf ++ asked_text c method uri h v.version_text), with_rest s r)
    read_head-blank method uri version h s r v =
        let line = request_text_line c method uri v.version_text in
        let more = map header_text (iter h) in
        let well_formed : All IsLine (line ∷ more) = (
          request_text_line-IsLine c method uri version h v,
          header_lines-IsLine (iter h) v.headers,
        ) in
        let e = read_head-blank_lines s (line ∷ more) r well_formed in
        rw (asked_text-lines c method uri h v.version_text)
          (simp append_assoc (simp append_assoc at e))

    parse_request-blank :
        (method : Method) (uri : Uri) (version : Version) (h : HeaderMap) (s : Stream) (r : Bytes)
        → (v : CanAsk c method uri version h)
        → parse_request c (with_rest s (crlf ++ (asked_text c method uri h v.version_text ++ r)))
          ≡ parse_request c (with_rest s (asked_text c method uri h v.version_text ++ r))
    unfolding parse_request parse_request_buffer
    parse_request-blank method uri version h s r v =
        rw (read_head-blank method uri version h s r v, parse_request)
          (rw (request_head-blank method uri version h v)
            (sym (parse_request-asked_text c laws heads method uri version h s r v)))

    -- A request is read behind a blank line as it is without it, if its head can be sent.
    pub parse_request-behind :
        {B : Type 0} (ops : HttpBody HeaderMap B) (req : Request c B) (encoding : Encoding)
        (chosen : HeaderMap) (s : Stream) (r : Bytes)
        → request_encoding c req.method req.version req.headers (ops.len req.body)
          ≡ ok (encoding, chosen)
        → CanAsk c req.method req.uri req.version chosen
        → parse_request c (with_rest s (crlf ++ ((request_text c ops req).0 ++ r)))
          ≡ parse_request c (with_rest s ((request_text c ops req).0 ++ r))
    parse_request-behind ops req encoding chosen s r e v =
        let text = (body_text c ops encoding req.body).0 in
        rw
          (
            request_text-encoded c ops req encoding chosen text e v refl,
            append_assoc (asked_text c req.method req.uri chosen v.version_text) text r,
          )
          (parse_request-blank req.method req.uri req.version chosen s (text ++ r) v)

    request_head-only_blank :
        (e : ParseError) × (request_head c crlf ≡ err e) × (e ≢ connection_closed)
    unfolding request_head
    request_head-only_blank = elim (Option-cases (parse_request_head crlf)) [
      | inl unread ↦ (invalid, rw unread refl, λ same. absurd (cc same))
      | inr (head, read) ↦
          (incomplete_request, rw read (rw (blanks.blank head read) refl), λ same. absurd (cc same))
    ]

    -- Where the connection ends behind the blank line, it is read as a malformed request.
    pub parse_request-only_blank :
        (bursts : List ℕ)
        → (e : ParseError) × (parse_request c
              (record { rest = crlf; fault = none; bursts = bursts })
            ≡ (err e, record { rest = []; fault = none; bursts = bursts }))
          × (e ≢ connection_closed)
    unfolding parse_request parse_request_buffer over_head read_head read_lines read_line split_line
        ends_head blank_backwards
    parse_request-only_blank bursts =
        let (e, malformed, other) = request_head-only_blank in (e, rw malformed refl, other)
