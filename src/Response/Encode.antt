-- ===== src/Response/Encode.antt =====
-- write_response, the choice of the encoding: which headers go out, and how the body is framed.
use touche.Base.{ℕ, Option, none, some, Bool, true, false, not, ◌&&◌, codes, ◌==◌, if◌then◌else◌}
use touche.Base.Result.{Result, ok, err}
use touche.Io.{IoError, length_mismatch}
use touche.Crates.{Crates, Version, http_10, http_11}
use touche.Wire.Body.{Encoding, fixed_length, chunked, close_delimited}
use touche.Http.{asks_for, is_true}

abbrev pub is_http_11 : Version → Bool
is_http_11 http_11 = true
is_http_11 _ = false

abbrev pub is_http_10 : Version → Bool
is_http_10 http_10 = true
is_http_10 _ = false

module _ (c : Crates) where
  open c use {
    HeaderMap, transfer_encoding, connection, content_length, insert_content_length, insert_chunked,
    insert_connection_close, remove_transfer_encoding,
  }

  abbrev pub has_chunked_encoding : HeaderMap → Bool
  has_chunked_encoding headers = is_true (transfer_encoding headers)

  abbrev pub has_connection_close : HeaderMap → Bool
  has_connection_close headers = asks_for (codes "close") (connection headers)

  -- Neither a Content-Length nor a length of the body is known.
  unfoldable pub unsized_encoding : Version → HeaderMap → Encoding × HeaderMap
  unsized_encoding version headers =
      if not (has_connection_close headers) && is_http_11 version
      then (chunked, insert_chunked headers)
      else (
        close_delimited,
        (if has_connection_close headers then headers else insert_connection_close headers),
      )

  -- The match on (content_length, body.len()).
  unfoldable pub sized_encoding :
      Option ℕ → Option ℕ → Version → HeaderMap → Result IoError (Encoding × HeaderMap)
  unfolding unsized_encoding
  sized_encoding (some len) (some body_len) version headers =
      if len == body_len then ok (fixed_length len, headers) else err length_mismatch
  sized_encoding (some len) none version headers = ok (fixed_length len, headers)
  sized_encoding none (some len) version headers =
      ok (fixed_length len, insert_content_length headers len)
  sized_encoding none none version headers = ok (unsized_encoding version headers)

  unfoldable pub choose_encoding :
      Version → HeaderMap → Option ℕ → Result IoError (Encoding × HeaderMap)
  unfolding sized_encoding
  choose_encoding version headers body_len =
      if has_chunked_encoding headers && is_http_11 version
      then ok (chunked, headers)
      else sized_encoding (content_length headers) body_len version headers

  -- headers.remove(TRANSFER_ENCODING) for HTTP/1.0; the test is on the headers as they came.
  unfoldable pub sent_headers : Version → HeaderMap → HeaderMap → HeaderMap
  sent_headers version headers chosen =
      if is_http_10 version && has_chunked_encoding headers
      then remove_transfer_encoding chosen
      else chosen
