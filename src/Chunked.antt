-- ===== src/Chunked.antt =====
-- request.rs, ChunkedReader: the iterator that decodes a chunked body from a stream.
pub mod Fuel
pub mod RoundTrip
pub mod Capacity
use touche.Base.{
  ℕ, zero, suc, ◌+◌, Option, none, some, List, [], ◌∷◌, ◌++◌, Bytes, length, ◌==◌, if◌then◌else◌,
}
use touche.Base.Result.{ok, err}
use touche.Io.{Stream, read_line, read_exact}
use touche.Crates.{ChunkSize, complete, partial, invalid}

module _ (parse_chunk_size : Bytes → ChunkSize) where
  -- The chunk of `size` bytes that follows its size line, and the line end behind it, if there is one, for a
  -- size that a vector has room for. Capacity has the panic for the others.
  unfoldable pub take_chunk : ℕ → Stream → Option Bytes × Stream
  take_chunk size s =
      let (chunk, s') = read_exact size s in
      elim chunk [
        | err e ↦ (none, s')
        | ok bytes ↦
            let (l, s'') = read_line s' in elim l [ err e ↦ (none, s'') | ok _ ↦ (some bytes, s'') ]
      ]

  -- The match on the parsed size line, `more` being the next round of the loop.
  unfoldable pub decide : ChunkSize → Option Bytes × Stream → Stream → Option Bytes × Stream
  decide (complete pos size) more s = if size == 0 then (none, s) else take_chunk size s
  decide partial more s = more
  decide invalid more s = (none, s)

  -- Iterator::next, with the buffer of the loop; each round reads at least a byte, or is the last.
  unfoldable pub next_chunk : ℕ → Bytes → Stream → Option Bytes × Stream
  next_chunk zero buf s = (none, s)
  next_chunk (suc fuel) buf s =
      let (l, s') = read_line s in
      elim l [
        | err e ↦ (none, s')
        | ok line ↦
            let more : Option Bytes × Stream = next_chunk fuel (buf ++ line) s' in
            let size = parse_chunk_size (buf ++ line) in
            if length line == 0 then (none, s') else decide size more s'
      ]

  unfoldable pub next : Stream → Option Bytes × Stream
  unfolding next_chunk decide take_chunk
  next s = next_chunk (suc (length s.rest)) [] s

  -- All chunks that the iterator yields before its first `None`, and the stream behind them.
  unfoldable pub collect_chunks : ℕ → Stream → List Bytes × Stream
  collect_chunks zero s = ([], s)
  collect_chunks (suc fuel) s =
      let (chunk, s') = next s in
      let (chunks, s'') = collect_chunks fuel s' in
      elim chunk [ none ↦ ([], s') | some bytes ↦ (bytes ∷ chunks, s'') ]

  unfoldable pub read_chunks : Stream → List Bytes × Stream
  read_chunks s = collect_chunks (suc (length s.rest)) s
