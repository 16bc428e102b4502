-- ===== src/Body/Consume/Agree.antt =====
-- The three ways to consume a body agree where it holds no error and no more than its length.
use touche.Base.{
  ℕ, ◌^◌, Bytes, true, ◌≤◌, ◌<◌, ◌≡◌, refl, ap, sym, ◌∙◌, none, some, List, [], ◌∷◌, arith, length,
  take-of_length_le, leb, All, if◌then◌else◌, append-nil,
}
use touche.Base.Result.{Result, ok, err}
use touche.Io.{IoError, Stream, limit, read_to_end}
use touche.Crates.{Crates}
use touche.Body.{
  BodyInner, listed, decoded, bytes, trailers, empty, buffered, iter, reader, data_items,
  collect_bytes,
}
use touche.Chunked.Capacity.{try_read_chunks}
use touche.Body.Reader.{contents, until_error}
use touche.Body.Reader.Laws.{whole}
use touche.Body.Chunks.{Item, chunks, measure, collect}
use touche.Body.Chunks.Laws.{
  before_error, payload, chunks-iter, chunks-reader, chunks-reader_fitting,
}
use touche.Body.Consume.{
  source_items, reader_over, into_reader, into_bytes, into_chunks, has_vectors, try_into_bytes,
}

-- No item of an iterator is an error.
abbrev pub IsOk : {A : Type 0} → Result IoError A → Type 0
IsOk (ok a) = Unit
IsOk (err e) = ⊥

module _ {HeaderMap : Type 0} where
  pub before_error-ok :
      (items : List (Item HeaderMap)) → All IsOk items → before_error items ≡ items
  unfolding before_error
  before_error-ok [] h = refl
  before_error-ok (ok i ∷ items) h = ap (λ l. ok i ∷ l) (before_error-ok items h.1)
  before_error-ok (err e ∷ items) h = absurd h.0

  collect_bytes-until_error :
      (items : List (Item HeaderMap))
      → All IsOk items
      → collect_bytes (data_items items) ≡ ok (until_error (data_items items))
  unfolding data_items collect_bytes until_error
  collect_bytes-until_error [] h = refl
  collect_bytes-until_error (ok (bytes bs) ∷ items) h = rw (collect_bytes-until_error items h.1)
  collect_bytes-until_error (ok (trailers t) ∷ items) h = collect_bytes-until_error items h.1
  collect_bytes-until_error (err e ∷ items) h = absurd h.0

pub read_to_end-whole : (s : Stream) → (read_to_end s).0 ≡ whole s.rest s.fault
unfolding read_to_end
read_to_end-whole s = ground arith

read_to_end-limit :
    (len : ℕ) (s : Stream)
    → length s.rest ≤ len
    → (read_to_end (limit len s)).0
      ≡ (if leb len (length s.rest) then ok s.rest else whole s.rest s.fault)
unfolding read_to_end limit
read_to_end-limit len s h = ground (arith, take-of_length_le len s.rest)

module _ (c : Crates) where
  open c use {HeaderMap, parse_chunk_size}

  -- The body holds no error, and its stream no more than its length.
  abbrev pub IsPlain : BodyInner HeaderMap → Type 0
  IsPlain (iter source) = All IsOk (source_items c source)
  IsPlain (reader s (some len)) = (0 < len) × (length s.rest ≤ len)
  IsPlain _ = Unit

  reader_over-contents :
      (items : List (Item HeaderMap))
      → All IsOk items
      → (read_to_end (contents (reader_over c (data_items items)))).0
        ≡ ok (until_error (data_items items))
  unfolding read_to_end contents reader_over until_error data_items
  reader_over-contents [] h = refl
  reader_over-contents (ok (bytes bs) ∷ items) h = refl
  reader_over-contents (ok (trailers t) ∷ items) h = reader_over-contents items h.1
  reader_over-contents (err e ∷ items) h = absurd h.0

  -- For a body without an error and with no more bytes than its length, reading it to its end gives what `into_bytes` gives.
  pub reader-bytes :
      (b : BodyInner HeaderMap)
      → IsPlain b
      → (read_to_end (contents (into_reader c b))).0 ≡ into_bytes c b
  unfolding into_reader into_bytes contents
  reader-bytes empty h = unfold read_to_end in refl
  reader-bytes (buffered bs) h = unfold read_to_end in refl
  reader-bytes (iter source) h =
      reader_over-contents (source_items c source) h
      ∙ sym (collect_bytes-until_error (source_items c source) h)
  reader-bytes (reader s (some len)) h = refl
  reader-bytes (reader s none) h = refl

  pub chunks-bytes :
      (b : BodyInner HeaderMap) → IsPlain b → payload (chunks (into_chunks c b)) ≡ into_bytes c b
  unfolding into_chunks into_bytes
  chunks-bytes empty h = unfold chunks measure collect data_items collect_bytes in refl
  chunks-bytes (buffered bs) h =
      unfold chunks measure collect data_items collect_bytes in rw (append-nil bs)
  chunks-bytes (iter source) h =
      rw (chunks-iter (source_items c source), before_error-ok (source_items c source) h)
  chunks-bytes (reader s (some len)) h =
      chunks-reader_fitting HeaderMap len s h.0 h.1 ∙ sym (read_to_end-limit len s h.1)
  chunks-bytes (reader s none) h = chunks-reader HeaderMap s ∙ sym (read_to_end-whole s)

  -- The vectors that into_bytes makes have room: a length below isize::MAX + 1, and a run of the chunks
  -- without a panic.
  abbrev pub HasRoom : BodyInner HeaderMap → Type 0
  HasRoom (reader s (some len)) = len < 2 ^ 63
  HasRoom (iter (decoded s)) =
      (r : List Bytes × Stream) × (try_read_chunks parse_chunk_size s ≡ some r)
  HasRoom _ = Unit

  HasRoom-has_vectors : (b : BodyInner HeaderMap) → HasRoom b → has_vectors c b ≡ true
  unfolding has_vectors
  HasRoom-has_vectors empty room = refl
  HasRoom-has_vectors (buffered bs) room = refl
  HasRoom-has_vectors (iter (listed items)) room = refl
  HasRoom-has_vectors (iter (decoded s)) (r, e) = rw e refl
  HasRoom-has_vectors (reader s none) room = refl
  HasRoom-has_vectors (reader s (some len)) room = ground (arith, room)

  -- For a body without an error, with no more bytes than its length, and for which there is room, into_bytes
  -- does not panic, and gives what its chunks put together are.
  pub chunks-try_into_bytes :
      (b : BodyInner HeaderMap)
      → IsPlain b
      → HasRoom b
      → try_into_bytes c b ≡ some (payload (chunks (into_chunks c b)))
  unfolding try_into_bytes
  chunks-try_into_bytes b plain room =
      rw (HasRoom-has_vectors b room) (ap (λ r. some r) (sym (chunks-bytes b plain)))
