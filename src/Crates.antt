-- ===== src/Crates.antt =====
-- The third-party crates that the program calls (http, headers, httparse), as parameters. Their types
-- and functions are the fields of one record; what the proofs rely on are the laws in Crates/Laws.
pub mod Laws
use touche.Base.{ℕ, Bool, Option, List, Bytes}
use touche.Base.Result.{Result}

-- httparse::parse_chunk_size: Ok(Complete((pos, size))), Ok(Partial) or Err.
pub data ChunkSize : Type 0 where
  complete : ℕ → ℕ → ChunkSize
  partial invalid : ChunkSize

-- The fields that httparse::Request has after parse(&buf), the 64 header slots in order.
pub record RequestHead : Type 0 where
  pub method : Option Bytes
  pub path : Option Bytes
  pub version : Option ℕ
  pub headers : List (Bytes × Bytes)

-- The fields that httparse::Response has after parse(&buf).
pub record ResponseHead : Type 0 where
  pub code : Option ℕ
  pub version : Option ℕ
  pub headers : List (Bytes × Bytes)

-- headers::Error
pub data HeaderError : Type 0 where
  undecodable : HeaderError

-- The constants of http::Version.
pub data Version : Type 0 where
  http_09 http_10 http_11 http_2 http_3 : Version

pub record Crates : Type 1 where
  -- httparse
  pub parse_chunk_size : Bytes → ChunkSize
  pub parse_request_head : Bytes → Option RequestHead
  pub parse_response_head : Bytes → Option ResponseHead
  -- http::Method: from_bytes, its Display, and the tests against GET, HEAD and CONNECT
  pub Method : Type 0
  pub method_from_bytes : Bytes → Option Method
  pub method_text : Method → Bytes
  pub is_get : Method → Bool
  pub is_head : Method → Bool
  pub is_connect : Method → Bool
  -- http::Uri: from a path, its Display
  pub Uri : Type 0
  pub uri_from_bytes : Bytes → Option Uri
  pub uri_text : Uri → Bytes
  -- http::StatusCode, by its number: from_u16, its Display, is_success
  pub status_from_u16 : ℕ → Option ℕ
  pub status_text : ℕ → Bytes
  pub is_success : ℕ → Bool
  -- The Debug of http::Version
  pub version_debug : Version → Bytes
  -- http::HeaderMap: new, Builder::header (`none` for a malformed pair), iter, insert, extend
  pub HeaderMap : Type 0
  pub no_headers : HeaderMap
  pub append : HeaderMap → Bytes → Bytes → Option HeaderMap
  pub iter : HeaderMap → List (Bytes × Bytes)
  pub insert : HeaderMap → Bytes → Bytes → HeaderMap
  pub extend : HeaderMap → HeaderMap → HeaderMap
  pub remove_transfer_encoding : HeaderMap → HeaderMap
  -- headers::HeaderMapExt. Transfer-Encoding is read as its is_chunked, Content-Length as its number,
  -- Connection as its `contains`, Expect as its comparison with 100-continue, Date as its text.
  pub try_transfer_encoding : HeaderMap → Result HeaderError (Option Bool)
  pub transfer_encoding : HeaderMap → Option Bool
  pub try_content_length : HeaderMap → Result HeaderError (Option ℕ)
  pub content_length : HeaderMap → Option ℕ
  pub connection : HeaderMap → Option (Bytes → Bool)
  pub expect : HeaderMap → Option Bool
  pub date : HeaderMap → Option Bytes
  pub insert_content_length : HeaderMap → ℕ → HeaderMap
  pub insert_chunked : HeaderMap → HeaderMap
  pub insert_connection_close : HeaderMap → HeaderMap
  pub insert_date : HeaderMap → Bytes → HeaderMap
