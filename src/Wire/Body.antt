-- ===== src/Wire/Body.antt =====
-- The body as write_request and write_response write it, by the encoding that they chose.
pub mod Laws
use touche.Base.{
  ℕ, Option, none, some, List, [], ◌∷◌, ◌++◌, Bytes, codes, crlf, length, ltb, if◌then◌else◌,
}
use touche.Base.Result.{Result, ok, err, Act, pure, fail, lift, ◌>>=◌, ◌>>◌}
use touche.Io.{IoError, Stream, Write, write_all, flush, copy}
use touche.Crates.{Crates}
use touche.Wire.{header_line, last_chunk}
use touche.Wire.Hex.{hex}
use touche.Body.{Chunk, HttpBody, IoResult, bytes, trailers}

-- response.rs: Encoding
pub data Encoding : Type 0 where
  fixed_length : ℕ → Encoding
  chunked close_delimited : Encoding

-- for (name, val) in headers.iter() { stream.write_all(..)?; }
unfoldable pub write_headers : List (Bytes × Bytes) → Write (Unit {0})
write_headers [] = pure tt
write_headers (h ∷ hs) = do write_all (header_line h); write_headers hs

module _ (c : Crates) where
  open c use {HeaderMap, no_headers, extend, iter}

  -- The loop over the chunks: data is framed and flushed, trailers are collected.
  unfoldable pub write_chunks : List (IoResult (Chunk HeaderMap)) → HeaderMap → Write HeaderMap
  write_chunks [] tr = pure tr
  write_chunks (ok (bytes chunk) ∷ items) tr = do
    write_all (hex (length chunk) ++ crlf)
    write_all chunk
    write_all crlf
    flush
    write_chunks items tr
  write_chunks (ok (trailers te) ∷ items) tr = write_chunks items (extend tr te)
  write_chunks (err e ∷ items) tr = fail e

  unfoldable pub write_chunked : List (IoResult (Chunk HeaderMap)) → Write (Unit {0})
  write_chunked items = do
    tr ← write_chunks items no_headers
    write_all last_chunk
    write_headers (iter tr)
    write_all crlf

  -- The match on the encoding; a small body is buffered.
  unfoldable pub write_body : {B : Type 0} → HttpBody HeaderMap B → Encoding → B → Write (Unit {0})
  write_body ops (fixed_length len) body =
      if ltb len 1024
      then (do bs ← lift (ops.into_bytes body); write_all bs)
      else copy (ops.into_reader body)
  write_body ops close_delimited body = copy (ops.into_reader body)
  write_body ops chunked body = write_chunked (ops.into_chunks body)
