-- ===== src/Request.antt =====
-- request.rs: a request is read from a stream, and written to one.
pub mod Write
pub mod Written
pub mod Taken
pub mod Closed
pub mod Parsed
pub mod RoundTrip
pub mod Behind
pub mod Errors
use touche.Base.{
  ℕ, Option, none, some, List, [], ◌∷◌, ◌++◌, Bool, true, false, Bytes, is_nil, if◌then◌else◌,
}
use touche.Base.Result.{Result, ok, err, Act, and_then, ok_or}
use touche.Io.{IoError, Stream}
use touche.Crates.{Crates, Version}
use touche.Http.{Request}
use touche.Body.{BodyInner, decoded, empty, iter}
use touche.Head.{
  ParseError, io, invalid, incomplete_request, connection_closed, invalid_transfer_encoding,
  invalid_header, unknown, read_head, take_filled, http_version, add_headers,
}
use touche.Response.{sized_body}

module _ (c : Crates) where
  open c use {
    Method, Uri, HeaderMap, parse_request_head, method_from_bytes, uri_from_bytes, no_headers,
    try_transfer_encoding, try_content_length,
  }

  -- From the bytes of the head: the method, the target, the version and the headers. A target or a
  -- header that is malformed shows only when the headers are asked for.
  unfoldable pub request_head : Bytes → Result ParseError (Method × Uri × Version × HeaderMap)
  request_head buf = and_then (ok_or (parse_request_head buf) invalid) λ req.
      and_then (ok_or req.method incomplete_request) λ name.
        and_then (ok_or req.path incomplete_request) λ path.
          and_then (ok_or req.version incomplete_request) λ v. and_then (http_version v) λ version.
            and_then (ok_or (method_from_bytes name) incomplete_request) λ method.
              and_then (ok_or (uri_from_bytes path) unknown) λ uri.
                and_then (ok_or (add_headers c no_headers (take_filled req.headers)) unknown)
                  λ headers. ok (method, uri, version, headers)

  -- The body that the headers announce. A body that owns the stream has it as it is left here.
  unfoldable pub request_body : HeaderMap → Act Stream ParseError (BodyInner HeaderMap)
  request_body headers s = elim (try_transfer_encoding headers) [
    | err e ↦ (err invalid_header, s)
    | ok (some is_chunked) ↦
        if is_chunked then (ok (iter (decoded s)), s) else (err invalid_transfer_encoding, s)
    | ok none ↦ elim (try_content_length headers) [
      | err e ↦ (err invalid_header, s)
      | ok (some len) ↦ sized_body len s
      | ok none ↦ (ok empty, s)
    ]
  ]

  -- The request over a parsed head, with the body that is read behind it.
  unfoldable pub over_head :
      Result ParseError (Method × Uri × Version × HeaderMap)
      → Act Stream ParseError (Request c (BodyInner HeaderMap))
  over_head (err e) s = (err e, s)
  over_head (ok (method, uri, version, headers)) s =
      let (body, s') = request_body headers s in
      (
        and_then body λ b.
            ok (record {
              method = method;
              uri = uri;
              version = version;
              headers = headers;
              body = b;
            }),
        s',
      )

  unfoldable pub parse_request_buffer :
      Result IoError Bytes → Act Stream ParseError (Request c (BodyInner HeaderMap))
  parse_request_buffer (err e) s = (err (io e), s)
  parse_request_buffer (ok buf) s =
      over_head (if is_nil buf then err connection_closed else request_head buf) s

  -- parse_request
  unfoldable pub parse_request : Act Stream ParseError (Request c (BodyInner HeaderMap))
  parse_request s = let (buf, s') = read_head s in parse_request_buffer buf s'
