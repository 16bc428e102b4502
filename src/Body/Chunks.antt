-- ===== src/Body/Chunks.antt =====
-- body.rs, ChunkIterator: a body as an iterator of chunks.
pub mod Laws
use touche.Base.{
  ℕ, zero, suc, ◌+◌, ◌-◌, Option, none, some, List, [], ◌∷◌, Bytes, length, leb, ltb, if◌then◌else◌,
}
use touche.Base.Result.{Result, ok, err}
use touche.Io.{IoError, Stream, read}
use touche.Body.{IoResult, Chunk, bytes}

-- ChunkIteratorInner
pub data Inner (HeaderMap : Type 0) : Type 0 where
  single : Bytes → Inner HeaderMap
  iter : List (IoResult (Chunk HeaderMap)) → Inner HeaderMap
  reader : Stream → Option ℕ → Inner HeaderMap

-- `ChunkIterator(None)` has come to its end.
abbrev pub ChunkIterator : Type 0 → Type 0
ChunkIterator HeaderMap = Option (Inner HeaderMap)

-- The buffer of 8 * 1024 bytes, which is not cut to the length that is left.
abbrev pub buffer_size : ℕ
buffer_size = 8192

-- usize::checked_sub
abbrev pub checked_sub : ℕ → ℕ → Option ℕ
checked_sub a b = if leb b a then some (a - b) else none

abbrev pub Item : Type 0 → Type 0
Item HeaderMap = IoResult (Chunk HeaderMap)

module _ {HeaderMap : Type 0} where
  -- ChunkIterator::from_reader
  abbrev pub chunks_of_reader : Stream → Option ℕ → ChunkIterator HeaderMap
  chunks_of_reader s len = some (reader s len)

  -- The reader goes on while bytes are left of a known length, and always without one.
  unfoldable pub after_read : Stream → Option ℕ → ℕ → ChunkIterator HeaderMap
  after_read s none got = some (reader s none)
  after_read s (some len) got = elim (checked_sub len got) [
    | none ↦ none
    | some rem ↦ if ltb 0 rem then some (reader s (some rem)) else none
  ]

  unfoldable pub next_read :
      IoResult Bytes → Stream → Option ℕ → Option (Item HeaderMap) × ChunkIterator HeaderMap
  next_read (err e) s len = (some (err e), none)
  next_read (ok []) s len = (none, none)
  next_read (ok (b ∷ bs)) s len = (some (ok (bytes (b ∷ bs))), after_read s len (length (b ∷ bs)))

  -- Iterator::next. An error among the items of an iterator ends it, as its end does.
  unfoldable pub next : ChunkIterator HeaderMap → Option (Item HeaderMap) × ChunkIterator HeaderMap
  unfolding next_read after_read read
  next none = (none, none)
  next (some (single bs)) = (some (ok (bytes bs)), none)
  next (some (iter [])) = (none, none)
  next (some (iter (ok item ∷ items))) = (some (ok item), some (iter items))
  next (some (iter (err e ∷ items))) = (none, none)
  next (some (reader s len)) = let (k, s') = read buffer_size s in next_read k s' len

  -- The items up to the first `None`, as a `for` loop sees them.
  unfoldable pub collect : ℕ → ChunkIterator HeaderMap → List (Item HeaderMap)
  unfolding next
  collect zero it = []
  collect (suc fuel) it =
      let (item, it') = next it in
      let items : List (Item HeaderMap) = collect fuel it' in
      elim item [ none ↦ [] | some i ↦ i ∷ items ]

  -- Each `next` but the last one makes this smaller.
  unfoldable pub measure : ChunkIterator HeaderMap → ℕ
  measure none = 0
  measure (some (single bs)) = 1
  measure (some (iter items)) = suc (length items)
  measure (some (reader s len)) = suc (length s.rest)

  unfoldable pub chunks : ChunkIterator HeaderMap → List (Item HeaderMap)
  chunks it = collect (suc (measure it)) it
