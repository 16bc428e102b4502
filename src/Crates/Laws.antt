-- ===== src/Crates/Laws.antt =====
-- What the proofs rely on of the third-party crates, each law a documented behaviour.
use touche.Base.{
  ℕ, ◌+◌, ◌-◌, ◌^◌, ◌≤◌, ◌<◌, ◌≡◌, ◌++◌, [], ◌∷◌, List, Option, none, some, Bool, true, Bytes,
  codes, crlf, length, replicate, All, leb, ◌&&◌,
}
use touche.Base.Result.{ok}
use touche.Crates.{Crates, ChunkSize, RequestHead, Version, http_10, http_11, complete}
use touche.Head.{add_headers}
use touche.Http.{asks_for}
use touche.Wire.{header_lines}
use touche.Wire.Hex.{hex}
use touche.Wire.Header.{IsHeader, is_token}
use touche.Request.Write.{version_name}
use touche.Wire.Laws.{NoLf}

-- httparse::parse_chunk_size reads a hexadecimal size of 64 bits that a line end closes.
pub record ReadsSizes (parse_chunk_size : Bytes → ChunkSize) : Type 0 where
  pub reads :
      (n : ℕ) → n < 2 ^ 64 → parse_chunk_size (hex n ++ crlf) ≡ complete (length (hex n) + 2) n

-- The version number that httparse reads off a version, for those that it reads.
abbrev pub version_number : Version → Option ℕ
version_number http_10 = some 0
version_number http_11 = some 1
version_number _ = none

-- The typed headers of the headers crate: each is read back as it was inserted, an insertion leaves the
-- other headers, and `typed_get` gives what `typed_try_get` does where that is no error. A map of
-- well-formed headers is rebuilt from the pairs that it iterates over, and a new one has none.
pub record HeaderLaws (c : Crates) : Type 0 where
  pub none_new : c.iter c.no_headers ≡ []
  pub rebuilt :
      (h : c.HeaderMap) → All IsHeader (c.iter h) → add_headers c c.no_headers (c.iter h) ≡ some h
  pub get_transfer_encoding :
      (h : c.HeaderMap) (t : Option Bool)
      → c.try_transfer_encoding h ≡ ok t
      → c.transfer_encoding h ≡ t
  pub get_content_length :
      (h : c.HeaderMap) (n : Option ℕ) → c.try_content_length h ≡ ok n → c.content_length h ≡ n
  pub insert_content_length :
      (h : c.HeaderMap) (n : ℕ)
      → n < 2 ^ 64
      → c.try_content_length (c.insert_content_length h n) ≡ ok (some n)
  pub insert_content_length-transfer_encoding :
      (h : c.HeaderMap) (n : ℕ)
      → c.try_transfer_encoding (c.insert_content_length h n) ≡ c.try_transfer_encoding h
  pub insert_chunked :
      (h : c.HeaderMap) → c.try_transfer_encoding (c.insert_chunked h) ≡ ok (some true)
  pub insert_connection_close :
      (h : c.HeaderMap)
      → asks_for (codes "close") (c.connection (c.insert_connection_close h)) ≡ true
  pub insert_connection_close-transfer_encoding :
      (h : c.HeaderMap)
      → c.try_transfer_encoding (c.insert_connection_close h) ≡ c.try_transfer_encoding h
  pub insert_connection_close-content_length :
      (h : c.HeaderMap)
      → c.try_content_length (c.insert_connection_close h) ≡ c.try_content_length h
  pub remove_transfer_encoding :
      (h : c.HeaderMap) → c.try_transfer_encoding (c.remove_transfer_encoding h) ≡ ok none
  pub remove_transfer_encoding-content_length :
      (h : c.HeaderMap)
      → c.try_content_length (c.remove_transfer_encoding h) ≡ c.try_content_length h
  pub remove_transfer_encoding-connection :
      (h : c.HeaderMap) → c.connection (c.remove_transfer_encoding h) ≡ c.connection h

-- format!("{version:?} {status}")
abbrev pub status_text_line : Crates → Version → ℕ → Bytes
status_text_line c version status = c.version_debug version ++ (codes " " ++ c.status_text status)

-- httparse::Response::parse reads a status line of HTTP/1.0 or HTTP/1.1 and up to 64 header lines. The
-- slots behind those that it filled stay empty.
pub record ReadsResponses (c : Crates) : Type 0 where
  pub line :
      (version : Version) (status number : ℕ)
      → version_number version ≡ some number
      → 100 ≤ status
      → status ≤ 999
      → (0 < length (status_text_line c version status)) × NoLf (status_text_line c version status)
  pub code : (status : ℕ) → 100 ≤ status → status ≤ 999 → c.status_from_u16 status ≡ some status
  pub reads :
      (version : Version) (status number : ℕ) (hs : List (Bytes × Bytes))
      → version_number version ≡ some number
      → 100 ≤ status
      → status ≤ 999
      → All IsHeader hs
      → length hs ≤ 64
      → c.parse_response_head
          (status_text_line c version status ++ (crlf ++ (header_lines hs ++ crlf)))
        ≡ some (record {
          code = some status;
          version = some number;
          headers = hs ++ replicate (64 - length hs) ([], []);
        })

-- The bytes of a request's target as it stands on the request line: visible ones.
abbrev pub is_visible : ℕ → Bool
is_visible b = leb 33 b && leb b 126

-- format!("{method} {uri} {version}")
abbrev pub request_text_line : (c : Crates) → c.Method → c.Uri → Bytes → Bytes
request_text_line c method uri version =
    c.method_text method ++ (codes " " ++ (c.uri_text uri ++ (codes " " ++ version)))

-- httparse::Request::parse reads a request line whose method is a token and whose target is visible,
-- and up to 64 header lines. Method::from_bytes and Uri read what their Display writes.
pub record ReadsRequests (c : Crates) : Type 0 where
  pub method :
      (m : c.Method)
      → 0 < length (c.method_text m)
      → All (λ b. is_token b ≡ true) (c.method_text m)
      → c.method_from_bytes (c.method_text m) ≡ some m
  pub uri :
      (u : c.Uri)
      → 0 < length (c.uri_text u)
      → All (λ b. is_visible b ≡ true) (c.uri_text u)
      → c.uri_from_bytes (c.uri_text u) ≡ some u
  pub reads :
      (m : c.Method) (u : c.Uri) (version : Version) (number : ℕ) (name : Bytes)
      (hs : List (Bytes × Bytes))
      → 0 < length (c.method_text m)
      → All (λ b. is_token b ≡ true) (c.method_text m)
      → 0 < length (c.uri_text u)
      → All (λ b. is_visible b ≡ true) (c.uri_text u)
      → version_number version ≡ some number
      → version_name version ≡ ok name
      → All IsHeader hs
      → length hs ≤ 64
      → c.parse_request_head (request_text_line c m u name ++ (crlf ++ (header_lines hs ++ crlf)))
        ≡ some (record {
          method = some (c.method_text m);
          path = some (c.uri_text u);
          version = some number;
          headers = hs ++ replicate (64 - length hs) ([], []);
        })

-- httparse::Request::parse skips a blank line in front of the request line, and has read no method off a
-- buffer that holds nothing else.
pub record SkipsBlank (c : Crates) : Type 0 where
  pub skips :
      (b : ℕ) (bs : Bytes)
      → is_token b ≡ true
      → c.parse_request_head (crlf ++ (b ∷ bs)) ≡ c.parse_request_head (b ∷ bs)
  pub blank : (head : RequestHead) → c.parse_request_head crlf ≡ some head → head.method ≡ none
