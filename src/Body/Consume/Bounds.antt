-- ===== src/Body/Consume/Bounds.antt =====
-- How far each way to consume a body goes in the stream that the body owns.
use touche.Base.{
  ℕ, ◌≤◌, ◌<◌, ◌≡◌, refl, Option, none, some, [], ◌∷◌, ◌++◌, arith, Bytes, length, take, drop,
  length-take, take-append-drop, take-of_length_le,
}
use touche.Base.Result.{ok}
use touche.Io.{IoError, Stream, with_rest, limit, read, read_parts, read_to_end}
use touche.Crates.{Crates}
use touche.Body.{bytes, reader, drop_body}
use touche.Body.Chunks.{chunks, collect, measure, next, after_read, next_read}
use touche.Body.Consume.{into_bytes, into_chunks}

after_read_over :
    {HeaderMap : Type 0} (s : Stream) (len got : ℕ)
    → 0 < len
    → len ≤ got
    → after_read {HeaderMap = HeaderMap} s (some len) got ≡ none
unfolding after_read
after_read_over s len got pos h = ground arith

module _ (c : Crates) where
  open c use {HeaderMap}

  -- A sized body whose stream holds its length gives exactly its length of bytes, and when it is
  -- dropped instead, the stream stands right behind these bytes.
  pub into_bytes-drop_body :
      (len : ℕ) (s : Stream)
      → len ≤ length s.rest
      → (bs : Bytes) × (into_bytes c (reader s (some len)) ≡ ok bs)
        × (length bs ≡ len)
        × (t : Stream) × (drop_body {HeaderMap = HeaderMap} (some (reader s (some len))) ≡ some t)
        × (bs ++ t.rest ≡ s.rest)
  unfolding into_bytes limit read_to_end drop_body
  into_bytes-drop_body len s h = (
    take len s.rest,
    ground arith,
    omega (arith, length-take len s.rest),
    with_rest s (drop len s.rest),
    refl,
    take-append-drop len s.rest,
  )

  -- A sized body whose stream ends early, without an error, is taken for whole: its bytes are those that came.
  pub into_bytes-short :
      (len : ℕ) (s : Stream)
      → length s.rest < len
      → s.fault ≡ none
      → into_bytes c (reader s (some len)) ≡ ok s.rest
  unfolding into_bytes limit read_to_end
  into_bytes-short len s h f = ground arith

  -- Chunks are read by the buffer, not by the length: of a stream that delivers more than the length at
  -- once, up to the size of the buffer, the one chunk holds what lies behind the body too.
  pub chunks_beyond_length :
      (len b : ℕ) (bs : Bytes) (fault : Option IoError)
      → 0 < len
      → len ≤ length (b ∷ bs)
      → length (b ∷ bs) ≤ 8192
      → chunks
          (into_chunks c (reader (record { rest = b ∷ bs; fault = fault; bursts = [] }) (some len)))
        ≡ ok (bytes (b ∷ bs)) ∷ []
  unfolding into_chunks chunks measure collect next read read_parts next_read
  chunks_beyond_length len b bs fault pos h k =
      let behind : Stream = record { rest = drop 8191 bs; fault = fault; bursts = [] } in
      rw (
        take-of_length_le 8191 bs (omega arith),
        after_read_over {HeaderMap = HeaderMap} behind len (length (b ∷ bs)) pos h,
      )
