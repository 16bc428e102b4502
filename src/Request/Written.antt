-- ===== src/Request/Written.antt =====
-- write_request against a description of the bytes that it writes.
use touche.Base.{◌≡◌, [], ◌++◌, append-nil, append_assoc, Bytes, crlf, inl, inr}
use touche.Base.Result.{ok, err, Result-cases}
use touche.Io.{open_sink, write_all}
use touche.Crates.{Crates}
use touche.Http.{Request}
use touche.Wire.{header_lines}
use touche.Wire.Body.{Encoding}
use touche.Wire.Body.Laws.{write_headers-open, write_body-open, body_text}
use touche.Body.{HttpBody, IoResult}
use touche.Request.Write.{version_name, request_encoding, request_line, write_request}

module _ (c : Crates) where
  open c use {HeaderMap, iter}

  -- The request line, the headers, the blank line and the body in its framing.
  unfoldable pub framed_text :
      {B : Type 0}
      → HttpBody HeaderMap B
      → Request c B
      → Encoding
      → HeaderMap
      → Bytes
      → Bytes × IoResult (Unit {0})
  framed_text ops req encoding headers version =
      let body = body_text c ops encoding req.body in
      (
        request_line c req.method req.uri version
            ++ (header_lines (iter headers) ++ (crlf ++ body.0)),
        body.1,
      )

  -- Nothing is written where no encoding fits, or for a version without a name.
  unfoldable pub request_text :
      {B : Type 0} → HttpBody HeaderMap B → Request c B → Bytes × IoResult (Unit {0})
  request_text ops req =
      elim (request_encoding c req.method req.version req.headers (ops.len req.body)) [
        | err e ↦ ([], err e)
        | ok (encoding, headers) ↦ elim (version_name req.version) [
          | err e ↦ ([], err e)
          | ok version ↦ framed_text ops req encoding headers version
        ]
      ]

  -- On a connection that takes everything `write_request` writes its text, and ends with its result.
  pub write_request-open :
      {B : Type 0} (ops : HttpBody HeaderMap B) (req : Request c B) (o : Bytes)
      → let text = request_text ops req in
        write_request c ops req (open_sink o) ≡ (text.1, open_sink (o ++ text.0))
  unfolding write_request request_text framed_text write_all
  write_request-open ops req o =
      elim (Result-cases
        (request_encoding c req.method req.version req.headers (ops.len req.body))) [
          | inl ((encoding, headers), e) ↦ elim (Result-cases (version_name req.version)) [
            | inl (version, f) ↦
                rw (e, write_request, request_text)
                  (rw f (
                    let line = request_line c req.method req.uri version in
                    rw
                      (
                        write_headers-open (iter headers) (o ++ line),
                        write_body-open c ops encoding req.body
                            (((o ++ line) ++ header_lines (iter headers)) ++ crlf),
                      )
                      (simp append_assoc)))
            | inr (x, f) ↦ rw (e, write_request, request_text) (rw f (rw append-nil))
          ]
          | inr (x, e) ↦ rw (e, write_request, request_text) (rw append-nil)
        ]
