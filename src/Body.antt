-- ===== src/Body.antt =====
-- body.rs and body/http_body.rs: streaming bodies. A body that owns a stream keeps it as a value;
-- what is left of the stream when the body is dropped is `drop_body`.
pub mod Reader
pub mod Chunks
pub mod Consume
pub mod Channel
pub mod From
use touche.Base.{
  ℕ, zero, suc, ◌+◌, ◌-◌, ◌*◌, Option, none, some, List, [], ◌∷◌, ◌++◌, map, Bool, true, false,
  Bytes, codes, length, take, drop, concat, ltb, leb, if◌then◌else◌,
}
use touche.Base.Result.{Result, ok, err, Act, and_then, map_err, ok_or}
use touche.Io.{IoError, Stream, body_closed, aborted, of_bytes, with_rest, read, read_to_end, limit}
use touche.Crates.{ChunkSize, Crates}
use touche.Chunked.{read_chunks}

abbrev pub IoResult : Type 0 → Type 0
IoResult = Result IoError

-- http_body.rs: Chunk
pub data Chunk (HeaderMap : Type 0) : Type 0 where
  bytes : Bytes → Chunk HeaderMap
  trailers : HeaderMap → Chunk HeaderMap

-- The boxed iterator of a body: its items, or a ChunkedReader over a stream.
pub data Source (HeaderMap : Type 0) : Type 0 where
  listed : List (IoResult (Chunk HeaderMap)) → Source HeaderMap
  decoded : Stream → Source HeaderMap

pub data BodyInner (HeaderMap : Type 0) : Type 0 where
  empty : BodyInner HeaderMap
  buffered : Bytes → BodyInner HeaderMap
  iter : Source HeaderMap → BodyInner HeaderMap
  reader : Stream → Option ℕ → BodyInner HeaderMap

-- `Body(None)` is a body that was taken from, and `Body::default()`.
pub record Body (HeaderMap : Type 0) : Type 0 where
  pub inner : Option (BodyInner HeaderMap)

-- A field of a Debug output: a text, or the bytes of a buffer.
pub data Shown : Type 0 where
  text : Bytes → Shown
  bytes_of : Bytes → Shown

-- The trait HttpBody. A reader is the stream of what reading it to its end gives; the iterator of
-- chunks is the list of its items up to the first `None`.
pub record HttpBody (HeaderMap B : Type 0) : Type 0 where
  pub len : B → Option ℕ
  pub into_reader : B → Stream
  pub into_bytes : B → IoResult Bytes
  pub into_chunks : B → List (IoResult (Chunk HeaderMap))

-- HttpBody::is_empty
unfoldable pub is_empty : {HeaderMap B : Type 0} → HttpBody HeaderMap B → B → Bool
is_empty ops b = elim (ops.len b) [ none ↦ false | some n ↦ leb n 0 ]

-- HttpBody::into_bytes, the trait's own: read the reader to its end.
abbrev pub default_into_bytes : Stream → IoResult Bytes
default_into_bytes s = (read_to_end s).0

-- HttpBody for (): an empty reader and no chunk.
abbrev pub unit_body : {HeaderMap : Type 0} → HttpBody HeaderMap (Unit {0})
unit_body = record {
  len = λ _. some 0;
  into_reader = λ _. of_bytes [];
  into_bytes = λ _. ok [];
  into_chunks = λ _. [];
}

-- HttpBody for String, &str, &'static [u8], Vec<u8>, Bytes and BytesMut: one chunk.
abbrev pub bytes_body : {HeaderMap : Type 0} → HttpBody HeaderMap Bytes
bytes_body = record {
  len = λ bs. some (length bs);
  into_reader = λ bs. of_bytes bs;
  into_bytes = λ bs. ok bs;
  into_chunks = λ bs. ok (bytes bs) ∷ [];
}

module _ {HeaderMap : Type 0} where
  -- The closure of the `filter_map` in into_reader, into_bytes and From<Body>: trailers are left out.
  unfoldable pub data_items : List (IoResult (Chunk HeaderMap)) → List (IoResult Bytes)
  data_items [] = []
  data_items (ok (bytes bs) ∷ items) = ok bs ∷ data_items items
  data_items (ok (trailers t) ∷ items) = data_items items
  data_items (err e ∷ items) = err e ∷ data_items items

  -- Body::len
  unfoldable pub len_inner : Option (BodyInner HeaderMap) → Option ℕ
  len_inner (some empty) = some 0
  len_inner (some (buffered bs)) = some (length bs)
  len_inner (some (iter chunks)) = none
  len_inner (some (reader s (some len))) = some len
  len_inner (some (reader s none)) = none
  len_inner none = none

  -- What the Debug of a Body shows in its tuple.
  unfoldable pub debug_field : Option (BodyInner HeaderMap) → Shown
  debug_field (some empty) = text (codes "empty")
  debug_field (some (buffered bs)) = bytes_of bs
  debug_field (some (iter chunks)) = text (codes "chunked")
  debug_field (some (reader s len)) = text (codes "streaming")
  debug_field none = text (codes "empty")

  -- Drop for Body: a reader is drained, up to its length if it has one; an iterator is only dropped.
  -- The result is the stream as the body leaves it, if the body owned one.
  unfoldable pub drop_body : Option (BodyInner HeaderMap) → Option Stream
  drop_body (some (reader s (some len))) = some (with_rest s (drop len s.rest))
  drop_body (some (reader s none)) = some (with_rest s [])
  drop_body (some (iter (decoded s))) = some s
  drop_body _ = none

  -- The stream that a message was read from, once its body is dropped: a body that owns the stream
  -- leaves it, and with any other body it is where the parser left it.
  unfoldable pub after_drop : BodyInner HeaderMap → Stream → Stream
  unfolding drop_body
  after_drop b s = elim (drop_body (some b)) [ none ↦ s | some t ↦ t ]

-- collect::<io::Result<Vec<_>>>(), flattened: the first error ends it.
unfoldable pub collect_bytes : List (IoResult Bytes) → IoResult Bytes
collect_bytes [] = ok []
collect_bytes (ok bs ∷ items) = and_then (collect_bytes items) λ more. ok (bs ++ more)
collect_bytes (err e ∷ items) = err e
