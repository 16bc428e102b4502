-- ===== src/Chunked/Capacity.antt =====
-- ChunkedReader with the panic of `vec![0; size]` for a size above isize::MAX.
use mathlib.Core.Path.{subst}
use mathlib.Core.Option.{some-injective}
use touche.Base.{
  ℕ, zero, suc, ◌^◌, ◌<◌, ◌≤◌, ◌≡◌, ◌≢◌, refl, ap, Option, none, some, List, [], ◌∷◌, ◌++◌, Bool,
  false, arith, Bytes, length, ltb, ◌==◌, if◌then◌else◌, Bool-cases, Option-cases, inl, inr,
}
use touche.Base.Result.{ok, err, Result-cases}
use touche.Io.{IoError, Stream, read_line}
use touche.Crates.{ChunkSize, complete, partial, invalid}
use touche.Io.Laws.{length-read_line}
use touche.Chunked.{take_chunk, decide, next_chunk, next, collect_chunks, read_chunks}
use touche.Chunked.Fuel.{next-lt}

-- Vec::with_capacity and vec! panic for more than isize::MAX bytes.
abbrev pub has_room : ℕ → Bool
has_room n = ltb n (2 ^ 63)

abbrev pub consed : Bytes → Option (List Bytes × Stream) → Option (List Bytes × Stream)
consed chunk none = none
consed chunk (some (chunks, s)) = some (chunk ∷ chunks, s)

module _ (parse_chunk_size : Bytes → ChunkSize) where
  -- The match on the parsed size line; `none` is the panic.
  unfoldable pub try_decide :
      ChunkSize → Option (Option Bytes × Stream) → Stream → Option (Option Bytes × Stream)
  unfolding take_chunk
  try_decide (complete pos size) more s =
      if size == 0
      then some (none, s)
      else if has_room size
      then some (take_chunk parse_chunk_size size s)
      else none
  try_decide partial more s = more
  try_decide invalid more s = some (none, s)

  -- Iterator::next
  unfoldable pub try_next_chunk : ℕ → Bytes → Stream → Option (Option Bytes × Stream)
  unfolding try_decide
  try_next_chunk zero buf s = some (none, s)
  try_next_chunk (suc fuel) buf s =
      let (l, s') = read_line s in
      elim l [
        | err e ↦ some (none, s')
        | ok line ↦
            let more : Option (Option Bytes × Stream) = try_next_chunk fuel (buf ++ line) s' in
            let size = parse_chunk_size (buf ++ line) in
            if length line == 0 then some (none, s') else try_decide size more s'
      ]

  unfoldable pub try_next : Stream → Option (Option Bytes × Stream)
  unfolding try_next_chunk
  try_next s = try_next_chunk (suc (length s.rest)) [] s

  -- All chunks up to the first `None`, or the panic.
  unfoldable pub try_collect : ℕ → Stream → Option (List Bytes × Stream)
  unfolding try_next
  try_collect zero s = some ([], s)
  try_collect (suc fuel) s = elim (try_next s) [
    | none ↦ none
    | some (chunk, s') ↦
        let rest = try_collect fuel s' in
        elim chunk [ none ↦ some ([], s') | some bytes ↦ consed bytes rest ]
  ]

  unfoldable pub try_read_chunks : Stream → Option (List Bytes × Stream)
  unfolding try_collect
  try_read_chunks s = try_collect (suc (length s.rest)) s

  -- The rounds of the loop of `next`, to its result or its panic, which is `none`.
  pub data Rounds : Bytes → Stream → Option (Option Bytes × Stream) → Type 0 where
    failed :
        (buf : Bytes) (s s' : Stream) (e : IoError)
        → read_line s ≡ (err e, s')
        → Rounds buf s (some (none, s'))
    ended :
        (buf : Bytes) (s s' : Stream) (line : Bytes)
        → read_line s ≡ (ok line, s')
        → length line ≡ 0
        → Rounds buf s (some (none, s'))
    last :
        (buf : Bytes) (s s' : Stream) (line : Bytes) (pos : ℕ)
        → read_line s ≡ (ok line, s')
        → length line ≢ 0
        → parse_chunk_size (buf ++ line) ≡ complete pos 0
        → Rounds buf s (some (none, s'))
    taken :
        (buf : Bytes) (s s' : Stream) (line : Bytes) (pos size : ℕ)
        → read_line s ≡ (ok line, s')
        → length line ≢ 0
        → parse_chunk_size (buf ++ line) ≡ complete pos size
        → 0 < size
        → size < 2 ^ 63
        → Rounds buf s (some (take_chunk parse_chunk_size size s'))
    panicked :
        (buf : Bytes) (s s' : Stream) (line : Bytes) (pos size : ℕ)
        → read_line s ≡ (ok line, s')
        → length line ≢ 0
        → parse_chunk_size (buf ++ line) ≡ complete pos size
        → 2 ^ 63 ≤ size
        → Rounds buf s none
    refused :
        (buf : Bytes) (s s' : Stream) (line : Bytes)
        → read_line s ≡ (ok line, s')
        → length line ≢ 0
        → parse_chunk_size (buf ++ line) ≡ invalid
        → Rounds buf s (some (none, s'))
    again :
        (buf : Bytes) (s s' : Stream) (line : Bytes) (r : Option (Option Bytes × Stream))
        → read_line s ≡ (ok line, s')
        → length line ≢ 0
        → parse_chunk_size (buf ++ line) ≡ partial
        → Rounds (buf ++ line) s' r
        → Rounds buf s r

  -- The calls of `next` up to the first `None`, or to a panic.
  pub data Runs : Stream → Option (List Bytes × Stream) → Type 0 where
    done : (s t : Stream) → Rounds [] s (some (none, t)) → Runs s (some ([], t))
    stopped : (s : Stream) → Rounds [] s none → Runs s none
    more :
        (s t : Stream) (chunk : Bytes) (r : Option (List Bytes × Stream))
        → Rounds [] s (some (some chunk, t))
        → Runs t r
        → Runs s (consed chunk r)

  decided-Rounds :
      (buf : Bytes) (s s' : Stream) (line : Bytes) (z : ChunkSize)
      (rest : Option (Option Bytes × Stream))
      → read_line s ≡ (ok line, s')
      → length line ≢ 0
      → parse_chunk_size (buf ++ line) ≡ z
      → Rounds (buf ++ line) s' rest
      → Rounds buf s (try_decide z rest s')
  unfolding try_decide
  decided-Rounds buf s s' line (complete pos zero) rest e full parsed next_round =
      last buf s s' line pos e full parsed
  decided-Rounds buf s s' line (complete pos (suc n)) rest e full parsed next_round =
      let some_size : (suc n == 0) ≡ false = ground arith in
      elim (Bool-cases (has_room (suc n))) [
        | inl room ↦
            let small : suc n < 2 ^ 63 = ground (arith, room) in
            rw (some_size, room) (taken buf s s' line pos (suc n) e full parsed (omega arith) small)
        | inr huge ↦
            let large : 2 ^ 63 ≤ suc n = ground (arith, huge) in
            rw (some_size, huge) (panicked buf s s' line pos (suc n) e full parsed large)
      ]
  decided-Rounds buf s s' line partial rest e full parsed next_round =
      again buf s s' line rest e full parsed next_round
  decided-Rounds buf s s' line invalid rest e full parsed next_round =
      refused buf s s' line e full parsed

  try_next_chunk-Rounds :
      (fuel : ℕ) (buf : Bytes) (s : Stream)
      → length s.rest < fuel
      → Rounds buf s (try_next_chunk fuel buf s)
  unfolding try_next_chunk
  try_next_chunk-Rounds zero buf s enough = absurd (omega arith)
  try_next_chunk-Rounds (suc fuel) buf s enough = elim (Result-cases (read_line s).0) [
    | inl (line, e) ↦
        let whole : read_line s ≡ (ok line, (read_line s).1) = ap (λ r. (r, (read_line s).1)) e in
        elim (Bool-cases (length line == 0)) [
          | inl empty ↦
              let nil : length line ≡ 0 = ground (arith, empty) in
              rw (e, try_next_chunk) (rw empty (ended buf s _ line whole nil))
          | inr some_bytes ↦
              let full : length line ≢ 0 = ground (arith, some_bytes) in
              let shorter : length (read_line s).1.rest < fuel =
                omega (arith, length-read_line s line e, full) in
              rw (e, try_next_chunk)
                (rw some_bytes (
                  decided-Rounds buf s _ line (parse_chunk_size (buf ++ line)) _ whole full refl
                    (try_next_chunk-Rounds fuel (buf ++ line) (read_line s).1 shorter)))
        ]
    | inr (x, e) ↦ rw (e, try_next_chunk) (failed buf s _ x (ap (λ r. (r, (read_line s).1)) e))
  ]

  try_decide-decide :
      (z : ChunkSize) (rest : Option (Option Bytes × Stream)) (rest' r : Option Bytes × Stream)
      (s : Stream)
      → ((q : Option Bytes × Stream) → rest ≡ some q → rest' ≡ q)
      → try_decide z rest s ≡ some r
      → decide parse_chunk_size z rest' s ≡ r
  unfolding try_decide decide
  try_decide-decide (complete pos size) rest rest' r s h e = elim (Bool-cases (size == 0)) [
    | inl none_left ↦ rw none_left (some-injective _ _ (rw none_left at e))
    | inr more_left ↦ elim (Bool-cases (has_room size)) [
      | inl room ↦ rw more_left (some-injective _ _ (rw room at (rw more_left at e)))
      | inr huge ↦ absurd (cc (rw huge at (rw more_left at e)))
    ]
  ]
  try_decide-decide partial rest rest' r s h e = h r e
  try_decide-decide invalid rest rest' r s h e = some-injective _ _ e

  try_next_chunk-next_chunk :
      (fuel : ℕ) (buf : Bytes) (s : Stream) (r : Option Bytes × Stream)
      → try_next_chunk fuel buf s ≡ some r
      → next_chunk parse_chunk_size fuel buf s ≡ r
  unfolding try_next_chunk next_chunk
  try_next_chunk-next_chunk zero buf s r e = some-injective _ _ e
  try_next_chunk-next_chunk (suc fuel) buf s r e = elim (Result-cases (read_line s).0) [
    | inl (line, f) ↦ elim (Bool-cases (length line == 0)) [
      | inl empty ↦
          rw (f, next_chunk)
            (rw empty (some-injective _ _ (rw empty at (rw (f, try_next_chunk) at e))))
      | inr full ↦
          rw (f, next_chunk)
            (rw full (
              try_decide-decide (parse_chunk_size (buf ++ line))
                (try_next_chunk fuel (buf ++ line) (read_line s).1)
                (next_chunk parse_chunk_size fuel (buf ++ line) (read_line s).1) r (read_line s).1
                (try_next_chunk-next_chunk fuel (buf ++ line) (read_line s).1)
                (rw full at (rw (f, try_next_chunk) at e))))
    ]
    | inr (x, f) ↦ rw (f, next_chunk) (some-injective _ _ (rw (f, try_next_chunk) at e))
  ]

  try_next-next :
      (s : Stream) (r : Option Bytes × Stream) → try_next s ≡ some r → next parse_chunk_size s ≡ r
  unfolding try_next next
  try_next-next s r e = try_next_chunk-next_chunk (suc (length s.rest)) [] s r e

  try_next-Rounds : (s : Stream) → Rounds [] s (try_next s)
  unfolding try_next
  try_next-Rounds s = try_next_chunk-Rounds (suc (length s.rest)) [] s (omega arith)

  try_collect-Runs : (fuel : ℕ) (s : Stream) → length s.rest < fuel → Runs s (try_collect fuel s)
  unfolding try_collect
  try_collect-Runs zero s enough = absurd (omega arith)
  try_collect-Runs (suc fuel) s enough = elim (Option-cases (try_next s)) [
    | inl panics ↦
        rw (panics, try_collect) (stopped s (subst (Rounds [] s) panics (try_next-Rounds s)))
    | inr ((none, t), e) ↦
        rw (e, try_collect) (done s t (subst (Rounds [] s) e (try_next-Rounds s)))
    | inr ((some chunk, t), e) ↦
        let same = try_next-next s (some chunk, t) e in
        let less = next-lt parse_chunk_size s chunk (ap (λ p. p.0) same) in
        let shorter : length t.rest < fuel = omega (arith, ap (λ p. length p.1.rest) same, less) in
        rw (e, try_collect)
          (more s t chunk (try_collect fuel t) (subst (Rounds [] s) e (try_next-Rounds s))
            (try_collect-Runs fuel t shorter))
  ]

  consed-some :
      (chunk : Bytes) (rest : Option (List Bytes × Stream)) (r : List Bytes × Stream)
      → consed chunk rest ≡ some r
      → (q : List Bytes × Stream) × (rest ≡ some q) × ((chunk ∷ q.0, q.1) ≡ r)
  consed-some chunk none r e = absurd (cc e)
  consed-some chunk (some q) r e = (q, refl, some-injective _ _ e)

  try_collect-collect_chunks :
      (fuel : ℕ) (s : Stream) (r : List Bytes × Stream)
      → try_collect fuel s ≡ some r
      → collect_chunks parse_chunk_size fuel s ≡ r
  unfolding try_collect collect_chunks
  try_collect-collect_chunks zero s r e = some-injective _ _ e
  try_collect-collect_chunks (suc fuel) s r e = elim (Option-cases (try_next s)) [
    | inl panics ↦ absurd (cc (rw (panics, try_collect) at e))
    | inr ((none, t), f) ↦
        let same = try_next-next s (none, t) f in
        rw (ap (λ p. p.0) same, collect_chunks)
          (rw (ap (λ p. p.1) same) (some-injective _ _ (rw (f, try_collect) at e)))
    | inr ((some chunk, t), f) ↦
        let (q, g, same) = consed-some chunk (try_collect fuel t) r (rw (f, try_collect) at e) in
        let next_is = try_next-next s (some chunk, t) f in
        rw (ap (λ p. p.0) next_is, collect_chunks)
          (rw (ap (λ p. p.1) next_is) (rw (try_collect-collect_chunks fuel t q g) same))
  ]

  -- On every stream the model's collection of chunks is the run of ChunkedReader::next to its first None, or
  -- to the panic at a size of 2 ^ 63 or more, by rounds that do not know of any fuel. A run without a panic
  -- gives the chunks and the stream of `read_chunks`.
  pub try_read_chunks-Runs :
      (s : Stream)
      → Runs s (try_read_chunks s)
        × ((r : List Bytes × Stream)
            → try_read_chunks s ≡ some r
            → read_chunks parse_chunk_size s ≡ r)
  unfolding try_read_chunks read_chunks
  try_read_chunks-Runs s = (
    try_collect-Runs (suc (length s.rest)) s (omega arith),
    try_collect-collect_chunks (suc (length s.rest)) s,
  )
