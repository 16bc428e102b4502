-- ===== src/Response.antt =====
-- response.rs: a response is read from a stream, and written to one.
pub mod Encode
pub mod Write
pub mod Written
pub mod Parsed
pub mod RoundTrip
pub mod Outcomes
pub mod Errors
use touche.Base.{
  ℕ, Option, none, some, List, [], ◌∷◌, ◌++◌, Bool, true, false, Bytes, codes, ltb, is_nil,
  if◌then◌else◌,
}
use touche.Base.Result.{Result, ok, err, Act, pure, fail, lift, and_then, map_err, ok_or, ◌>>=◌}
use touche.Io.{IoError, Stream, read_exact}
use touche.Crates.{Crates, Version}
use touche.Http.{Response, asks_for}
use touche.Body.{BodyInner, decoded, empty, buffered, iter, reader}
use touche.Head.{
  ParseError, io, invalid, incomplete_request, invalid_transfer_encoding, invalid_header, unknown,
  read_head, take_filled, http_version, add_headers,
}

-- stream.read_exact(&mut buf)? and Body::from(buf) for a small length, Body::from_reader else.
unfoldable pub sized_body : {H : Type 0} → ℕ → Act Stream ParseError (BodyInner H)
sized_body len s =
    let (bs, s') = read_exact len s in
    if ltb len 1024
    then (and_then (map_err io bs) (λ buf. ok (buffered buf)), s')
    else (ok (reader s (some len)), s)

module _ (c : Crates) where
  open c use {
    HeaderMap, parse_response_head, status_from_u16, no_headers, try_transfer_encoding,
    try_content_length, connection,
  }

  -- From the bytes of the head: the status, the version and the headers.
  unfoldable pub response_head : Bytes → Result ParseError (ℕ × Version × HeaderMap)
  response_head buf = and_then (ok_or (parse_response_head buf) invalid) λ res.
      and_then
        (ok_or (elim res.code [ none ↦ none | some code ↦ status_from_u16 code ])
          incomplete_request)
        λ status. and_then (ok_or res.version incomplete_request) λ v.
          and_then (http_version v) λ version.
            and_then (ok_or (add_headers c no_headers (take_filled res.headers)) unknown)
              λ headers. ok (status, version, headers)

  -- The body that the headers announce. A body that owns the stream has it as it is left here.
  unfoldable pub response_body : HeaderMap → Act Stream ParseError (BodyInner HeaderMap)
  response_body headers s = elim (try_transfer_encoding headers) [
    | err e ↦ (err invalid_header, s)
    | ok (some is_chunked) ↦
        if is_chunked then (ok (iter (decoded s)), s) else (err invalid_transfer_encoding, s)
    | ok none ↦ elim (try_content_length headers) [
      | err e ↦ (err invalid_header, s)
      | ok (some len) ↦ sized_body len s
      | ok none ↦
          if asks_for (codes "close") (connection headers)
          then (ok (reader s none), s)
          else (ok empty, s)
    ]
  ]

  -- The response over a parsed head, with the body that is read behind it.
  unfoldable pub with_body :
      {Handler : Type 0}
      → Result ParseError (ℕ × Version × HeaderMap)
      → Act Stream ParseError (Response c Handler (BodyInner HeaderMap))
  with_body (err e) s = (err e, s)
  with_body (ok (status, version, headers)) s =
      let (body, s') = response_body headers s in
      (
        and_then body λ b. ok (record {
          status = status;
          version = version;
          headers = headers;
          upgrade = none;
          body = b;
        }),
        s',
      )

  unfoldable pub parse_buffer :
      {Handler : Type 0}
      → Result IoError Bytes
      → Act Stream ParseError (Response c Handler (BodyInner HeaderMap))
  parse_buffer (err e) s = (err (io e), s)
  parse_buffer (ok buf) s =
      with_body (if is_nil buf then err incomplete_request else response_head buf) s

  -- parse_response
  unfoldable pub parse_response :
      {Handler : Type 0} → Act Stream ParseError (Response c Handler (BodyInner HeaderMap))
  parse_response s = let (buf, s') = read_head s in parse_buffer buf s'
