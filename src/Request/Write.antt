-- ===== src/Request/Write.antt =====
-- write_request: the choice of the encoding, and what goes out.
use touche.Base.{ℕ, Option, none, some, ◌++◌, not, ◌&&◌, Bytes, codes, crlf, ◌==◌, if◌then◌else◌}
use touche.Base.Result.{Result, ok, err, lift, ◌>>=◌, ◌>>◌}
use touche.Io.{IoError, length_mismatch, unknown_size, unsupported_version, Write, write_all}
use touche.Crates.{Crates, Version, http_10, http_11}
use touche.Http.{Request}
use touche.Body.{HttpBody}
use touche.Wire.Body.{Encoding, fixed_length, chunked, write_headers, write_body}
use touche.Response.Encode.{is_http_11, has_chunked_encoding}

-- The name of a version on the request line.
unfoldable pub version_name : Version → Result IoError Bytes
version_name http_11 = ok (codes "HTTP/1.1")
version_name http_10 = ok (codes "HTTP/1.0")
version_name _ = err unsupported_version

module _ (c : Crates) where
  open c use {
    Method, Uri, HeaderMap, iter, content_length, insert_content_length, insert_chunked,
    method_text, uri_text, is_get, is_head,
  }

  -- The match on (content_length, body.len()), and the branches behind it where neither is known.
  unfoldable pub sized_request :
      Option ℕ → Option ℕ → Method → Version → HeaderMap → Result IoError (Encoding × HeaderMap)
  sized_request (some len) (some body_len) method version headers =
      if len == body_len then ok (fixed_length len, headers) else err length_mismatch
  sized_request (some len) none method version headers = ok (fixed_length len, headers)
  sized_request none (some len) method version headers =
      ok (fixed_length len, insert_content_length headers len)
  sized_request none none method version headers =
      if not (is_get method) && not (is_head method) && is_http_11 version
      then ok (chunked, insert_chunked headers)
      else err unknown_size

  unfoldable pub request_encoding :
      Method → Version → HeaderMap → Option ℕ → Result IoError (Encoding × HeaderMap)
  unfolding sized_request
  request_encoding method version headers body_len =
      if has_chunked_encoding c headers && is_http_11 version
      then ok (chunked, headers)
      else sized_request (content_length headers) body_len method version headers

  -- format!("{method} {uri} {version}\r\n")
  unfoldable pub request_line : Method → Uri → Bytes → Bytes
  request_line method uri version =
      method_text method ++ (codes " " ++ (uri_text uri ++ (codes " " ++ (version ++ crlf))))

  unfoldable pub write_request :
      {B : Type 0} → HttpBody HeaderMap B → Request c B → Write (Unit {0})
  write_request ops req = do
    (encoding, headers) ←
        lift (request_encoding req.method req.version req.headers (ops.len req.body))
    version ← lift (version_name req.version)
    write_all (request_line req.method req.uri version)
    write_headers (iter headers)
    write_all crlf
    write_body c ops encoding req.body
