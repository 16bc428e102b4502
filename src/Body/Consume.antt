-- ===== src/Body/Consume.antt =====
-- body.rs, HttpBody for Body: the three ways to consume a body.
pub mod Agree
pub mod Errors
pub mod Bounds
use touche.Base.{
  ℕ, Option, none, some, List, [], ◌∷◌, map, Bool, true, Bytes, is_some, if◌then◌else◌,
}
use touche.Base.Result.{Result, ok, err}
use touche.Io.{IoError, Stream, limit, read_to_end}
use touche.Crates.{Crates}
use touche.Chunked.{read_chunks}
use touche.Chunked.Capacity.{has_room, try_read_chunks}
use touche.Body.{
  IoResult, Chunk, Source, Body, BodyInner, HttpBody, bytes, listed, decoded, empty, buffered, iter,
  reader, data_items, collect_bytes, len_inner,
}
use touche.Body.Reader
use touche.Body.Reader.{BodyReader, contents}
use touche.Body.Chunks
use touche.Body.Chunks.{ChunkIterator, chunks}

module _ (c : Crates) where
  open c use {HeaderMap, parse_chunk_size}

  -- The items that the boxed iterator yields; those of `Body::from_iter(ChunkedReader(stream))` are the
  -- decoded chunks, each in an `Ok`.
  unfoldable pub source_items : Source HeaderMap → List (IoResult (Chunk HeaderMap))
  source_items (listed items) = items
  source_items (decoded s) = map (λ bs. ok (bytes bs)) (read_chunks parse_chunk_size s).0

  -- The first buffer of the reader: an error in its place counts as an empty one.
  unfoldable pub reader_over : List (IoResult Bytes) → BodyReader
  reader_over [] = Reader.iter [] none
  reader_over (ok bs ∷ items) = Reader.iter items (some bs)
  reader_over (err e ∷ items) = Reader.iter items (some [])

  -- Body::into_reader, and From<Body> for BodyReader
  unfoldable pub into_reader : BodyInner HeaderMap → BodyReader
  unfolding source_items reader_over
  into_reader empty = Reader.buffered []
  into_reader (buffered bs) = Reader.buffered bs
  into_reader (iter source) = reader_over (data_items (source_items source))
  into_reader (reader s (some len)) = Reader.reader (limit len s)
  into_reader (reader s none) = Reader.reader s

  -- Body::into_bytes, for a body that does not panic (try_into_bytes).
  unfoldable pub into_bytes : BodyInner HeaderMap → IoResult Bytes
  unfolding source_items
  into_bytes empty = ok []
  into_bytes (buffered bs) = ok bs
  into_bytes (iter source) = collect_bytes (data_items (source_items source))
  into_bytes (reader s (some len)) = (read_to_end (limit len s)).0
  into_bytes (reader s none) = (read_to_end s).0

  -- Whether the vectors that into_bytes makes have room: that for the length of a reader, and those for the
  -- chunks of a chunked body.
  unfoldable pub has_vectors : BodyInner HeaderMap → Bool
  has_vectors (reader s (some len)) = has_room len
  has_vectors (iter (decoded s)) = is_some (try_read_chunks parse_chunk_size s)
  has_vectors _ = true

  -- Body::into_bytes; `none` is the panic of a vector that does not have room.
  unfoldable pub try_into_bytes : BodyInner HeaderMap → Option (IoResult Bytes)
  unfolding into_bytes has_vectors
  try_into_bytes b = if has_vectors b then some (into_bytes b) else none

  -- Body::into_chunks
  unfoldable pub into_chunks : BodyInner HeaderMap → ChunkIterator HeaderMap
  unfolding source_items
  into_chunks empty = none
  into_chunks (buffered bs) = some (Chunks.single bs)
  into_chunks (iter source) = some (Chunks.iter (source_items source))
  into_chunks (reader s len) = some (Chunks.reader s len)

  -- HttpBody for Body, over the contents of a body that was not taken from.
  abbrev pub inner_body : HttpBody HeaderMap (BodyInner HeaderMap)
  inner_body = record {
    len = λ b. len_inner (some b);
    into_reader = λ b. contents (into_reader b);
    into_bytes = into_bytes;
    into_chunks = λ b. chunks (into_chunks b);
  }

-- What `self.0.take().unwrap()` hands on; `none` is the panic of a body that was taken from.
unfoldable pub consume :
    {HeaderMap A : Type 0} → (BodyInner HeaderMap → A) → Body HeaderMap → Option A
consume f b = elim b.inner [ none ↦ none | some inner ↦ some (f inner) ]
