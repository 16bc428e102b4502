-- ===== src/Chunked/Fuel.antt =====
-- The loops of `ChunkedReader` end: each round takes bytes off the stream, so that the fuel that the
-- model gives is enough, and any more changes nothing.
use native.Mathlib.Nat.{le_trans}
use touche.Base.{
  ℕ, zero, suc, ◌≤◌, ◌<◌, ◌≡◌, Option, some, [], ◌++◌, arith, Bytes, length, Option-cases, inl, inr,
}
use touche.Base.Result.{Result-cases}
use touche.Io.{Stream, read_line, read_exact}
use touche.Crates.{ChunkSize, complete, partial, invalid}
use touche.Io.Laws.{length-read_line, read_line-le, read_exact-le}
use touche.Chunked.{take_chunk, decide, next_chunk, next, collect_chunks}

module _ (parse_chunk_size : Bytes → ChunkSize) where
  take_chunk-le :
      (n : ℕ) (s : Stream) → length (take_chunk parse_chunk_size n s).1.rest ≤ length s.rest
  unfolding take_chunk
  take_chunk-le n s = ground (arith, read_exact-le n s, read_line-le (read_exact n s).1)

  decide-le :
      (z : ChunkSize) (more : Option Bytes × Stream) (s : Stream) (n : ℕ)
      → length more.1.rest ≤ n
      → length s.rest ≤ n
      → length (decide parse_chunk_size z more s).1.rest ≤ n
  unfolding decide
  decide-le (complete pos size) more s n h k = ground (arith, take_chunk-le size s)
  decide-le _ more s n h k = omega arith

  decide-lt :
      (z : ChunkSize) (more : Option Bytes × Stream) (s : Stream) (n : ℕ) (c : Bytes)
      → ((d : Bytes) → more.0 ≡ some d → length more.1.rest < n)
      → length s.rest < n
      → (decide parse_chunk_size z more s).0 ≡ some c
      → length (decide parse_chunk_size z more s).1.rest < n
  unfolding decide
  decide-lt (complete pos size) more s n c h k e = ground (arith, take_chunk-le size s)
  decide-lt partial more s n c h k e = h c e
  decide-lt invalid more s n c h k e = ground arith

  -- With more fuel than bytes the loop of `next` does not depend on it.
  pub next_chunk-fuel :
      (f g : ℕ) (buf : Bytes) (s : Stream)
      → length s.rest < f
      → length s.rest < g
      → next_chunk parse_chunk_size f buf s ≡ next_chunk parse_chunk_size g buf s
  unfolding next_chunk
  next_chunk-fuel zero g buf s h k = absurd (omega arith)
  next_chunk-fuel (suc f) zero buf s h k = absurd (omega arith)
  next_chunk-fuel (suc f) (suc g) buf s h k = elim (Result-cases (read_line s).0) [
    | inl (line, e) ↦
        ground (arith, length-read_line s line e, next_chunk-fuel f g (buf ++ line) (read_line s).1)
    | inr (x, e) ↦ ground arith
  ]

  next_chunk-le :
      (f : ℕ) (buf : Bytes) (s : Stream)
      → length (next_chunk parse_chunk_size f buf s).1.rest ≤ length s.rest
  unfolding next_chunk
  next_chunk-le zero buf s = omega arith
  next_chunk-le (suc f) buf s = elim (Result-cases (read_line s).0) [
    | inl (line, e) ↦ ground (
      arith,
      read_line-le s,
      next_chunk-le f (buf ++ line) (read_line s).1,
      decide-le (parse_chunk_size (buf ++ line))
          (next_chunk parse_chunk_size f (buf ++ line) (read_line s).1) (read_line s).1
          (length s.rest),
    )
    | inr (x, e) ↦ ground (arith, read_line-le s)
  ]

  -- A chunk takes its size line off the stream at least.
  next_chunk-lt :
      (f : ℕ) (buf : Bytes) (s : Stream) (c : Bytes)
      → (next_chunk parse_chunk_size f buf s).0 ≡ some c
      → length (next_chunk parse_chunk_size f buf s).1.rest < length s.rest
  unfolding next_chunk
  next_chunk-lt zero buf s c h = ground arith
  next_chunk-lt (suc f) buf s c h = elim (Result-cases (read_line s).0) [
    | inl (line, e) ↦
        let shorter =
          λ (d : Bytes)
              (k : (next_chunk parse_chunk_size f (buf ++ line) (read_line s).1).0 ≡ some d).
            le_trans (next_chunk-lt f (buf ++ line) (read_line s).1 d k) (read_line-le s) in
        ground (
          arith,
          length-read_line s line e,
          decide-lt (parse_chunk_size (buf ++ line))
              (next_chunk parse_chunk_size f (buf ++ line) (read_line s).1) (read_line s).1
              (length s.rest) c shorter,
        )
    | inr (x, e) ↦ ground arith
  ]

  -- Each chunk that the iterator yields leaves less of the stream.
  pub next-lt :
      (s : Stream) (c : Bytes)
      → (next parse_chunk_size s).0 ≡ some c
      → length (next parse_chunk_size s).1.rest < length s.rest
  unfolding next
  next-lt s c = next_chunk-lt (suc (length s.rest)) [] s c

  -- Collecting the chunks of a stream ends by the iterator, not by the fuel: any fuel above the number
  -- of bytes, for the loop in `next` and for the collection, gives the same chunks and stream.
  pub collect_chunks-fuel :
      (f g : ℕ) (s : Stream)
      → length s.rest < f
      → length s.rest < g
      → collect_chunks parse_chunk_size f s ≡ collect_chunks parse_chunk_size g s
  unfolding collect_chunks
  collect_chunks-fuel zero g s h k = absurd (omega arith)
  collect_chunks-fuel (suc f) zero s h k = absurd (omega arith)
  collect_chunks-fuel (suc f) (suc g) s h k = elim (Option-cases (next parse_chunk_size s).0) [
    | inl e ↦ ground arith
    | inr (c, e) ↦
        ground (arith, next-lt s c e, collect_chunks-fuel f g (next parse_chunk_size s).1)
  ]
