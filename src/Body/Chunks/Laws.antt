-- ===== src/Body/Chunks/Laws.antt =====
-- The items that `ChunkIterator` yields for each kind of body.
use touche.Base.{
  ℕ, zero, suc, ◌+◌, ◌-◌, ◌≤◌, ◌<◌, ◌≡◌, refl, ap, ◌∙◌, Option, none, some, List, [], ◌∷◌, arith,
  Bytes, length, length-append, leb, ltb, true, false, Bool-cases, inl, inr, if◌then◌else◌,
  append-nil, tests,
}
use touche.Base.Result.{ok, err}
use touche.Io.{Stream, read, read_parts}
use touche.Body.{IoResult, data_items, collect_bytes}
use touche.Body.Reader
use touche.Body.Reader.Laws.{Delivers, round, round-whole, whole, read_parts-Delivers}
use touche.Body.Chunks.{Item, iter, reader, after_read, next_read, next, collect, measure, chunks}

module _ {HeaderMap : Type 0} where
  -- The items before the first error.
  unfoldable pub before_error : List (Item HeaderMap) → List (Item HeaderMap)
  before_error [] = []
  before_error (ok item ∷ items) = ok item ∷ before_error items
  before_error (err e ∷ items) = []

  -- All data of a list of items, or its first error.
  abbrev pub payload : List (Item HeaderMap) → IoResult Bytes
  payload items = collect_bytes (data_items items)

  collect-iter :
      (fuel : ℕ) (items : List (Item HeaderMap))
      → length items < fuel
      → collect fuel (some (iter items)) ≡ before_error items
  unfolding collect before_error
  collect-iter zero items h = absurd (omega arith)
  collect-iter (suc fuel) [] h = refl
  collect-iter (suc fuel) (ok item ∷ items) h = rw (collect-iter fuel items (omega arith))
  collect-iter (suc fuel) (err e ∷ items) h = refl

  -- A body made of an iterator is yielded up to its first error, which ends it without a trace.
  pub chunks-iter :
      (items : List (Item HeaderMap)) → chunks (some (iter items)) ≡ before_error items
  unfolding chunks measure
  chunks-iter items = collect-iter _ items (omega arith)

length_nil : (bs : Bytes) → length bs ≡ 0 → bs ≡ []
length_nil [] h = refl
length_nil (b ∷ bs) h = absurd (omega arith)

-- What is read of a stream that does not hold more than the length.
abbrev pub fitting : ℕ → Stream → IoResult Bytes
fitting len s = if leb len (length s.rest) then ok s.rest else whole s.rest s.fault

module _ (HeaderMap : Type 0) where
  after_read_more :
      (s : Stream) (len got : ℕ)
      → ltb got len ≡ true
      → after_read {HeaderMap = HeaderMap} s (some len) got ≡ some (reader s (some (len - got)))
  unfolding after_read
  after_read_more s len got h = ground arith

  after_read_last :
      (s : Stream) (len got : ℕ)
      → ltb got len ≡ false
      → after_read {HeaderMap = HeaderMap} s (some len) got ≡ none
  unfolding after_read
  after_read_last s len got h = ground arith

  collect-none : (fuel : ℕ) → collect {HeaderMap = HeaderMap} fuel none ≡ []
  unfolding collect
  collect-none zero = refl
  collect-none (suc fuel) = refl

  -- The items of a reader from the result of one read on.
  abbrev items_from : IoResult Bytes → Stream → Option ℕ → ℕ → List (Item HeaderMap)
  items_from k s len fuel =
      let (item, it) = next_read {HeaderMap = HeaderMap} k s len in
      elim item [ none ↦ [] | some i ↦ i ∷ collect fuel it ]

  items_from-round :
      (k : IoResult Bytes) (s : Stream) (fuel : ℕ)
      → payload (items_from k s none fuel)
        ≡ round k (payload (collect {HeaderMap = HeaderMap} fuel (some (reader s none))))
  unfolding next_read after_read round data_items collect_bytes
  items_from-round (err e) s fuel = refl
  items_from-round (ok []) s fuel = refl
  items_from-round (ok (b ∷ bs)) s fuel = refl

  collect-reader :
      (fuel : ℕ) (s : Stream)
      → length s.rest < fuel
      → payload (collect {HeaderMap = HeaderMap} fuel (some (reader s none))) ≡ whole s.rest s.fault
  unfolding collect next read Reader.contents
  collect-reader zero s h = absurd (omega arith)
  collect-reader (suc fuel) s h =
      let (k, s') = read_parts 8191 s.rest s.fault s.bursts in
      items_from-round k s' fuel
      ∙ round-whole k (Reader.reader s') s _ (read_parts-Delivers 8191 s.rest s.fault s.bursts)
          (λ shorter. collect-reader fuel s' (omega arith))

  -- A reader of unknown length is yielded to its end: all its bytes, or the error behind them.
  pub chunks-reader :
      (s : Stream)
      → payload (chunks {HeaderMap = HeaderMap} (some (reader s none))) ≡ whole s.rest s.fault
  unfolding chunks measure
  chunks-reader s = collect-reader _ s (omega arith)

  fitting-step :
      (k : IoResult Bytes) (s t : Stream) (len fuel : ℕ)
      → Delivers (k, Reader.reader t) s
      → 0 < len
      → length s.rest ≤ len
      → ((rem : ℕ)
          → length t.rest < length s.rest
          → 0 < rem
          → length t.rest ≤ rem
          → payload (collect {HeaderMap = HeaderMap} fuel (some (reader t (some rem))))
            ≡ fitting rem t)
      → payload (items_from k t (some len) fuel) ≡ fitting len s
  unfolding next_read data_items collect_bytes Reader.contents
  fitting-step (err e) s t len fuel d pos fits ih = ground (arith, ap length d.0)
  fitting-step (ok []) s t len fuel d pos fits ih = ground (arith, ap length d.0)
  fitting-step (ok (b ∷ bs)) s t len fuel d pos fits ih =
      elim (Bool-cases (ltb (suc (length bs)) len)) [
        | inl more ↦
            let total : length s.rest ≡ suc (length bs) + length t.rest =
              omega (arith, ap length d.0, length-append bs t.rest) in
            rw
              (
                after_read_more t len (suc (length bs)) more,
                ih (len - suc (length bs)) (omega arith) (omega (tests, more)) (omega arith),
              )
              (ground (arith, total))
        | inr last ↦
            rw (after_read_last t len (suc (length bs)) last, collect-none fuel)
              (ground
                (arith, ap length d.0, length-append bs t.rest, append-nil bs, length_nil t.rest))
      ]

  collect-reader_fitting :
      (fuel len : ℕ) (s : Stream)
      → length s.rest < fuel
      → 0 < len
      → length s.rest ≤ len
      → payload (collect {HeaderMap = HeaderMap} fuel (some (reader s (some len)))) ≡ fitting len s
  unfolding collect next read Reader.contents
  collect-reader_fitting zero len s h pos fits = absurd (omega arith)
  collect-reader_fitting (suc fuel) len s h pos fits =
      let (k, s') = read_parts 8191 s.rest s.fault s.bursts in
      fitting-step k s s' len fuel (read_parts-Delivers 8191 s.rest s.fault s.bursts) pos fits
        (λ rem shorter pos' fits'. collect-reader_fitting fuel rem s' (omega arith) pos' fits')

  -- A reader that holds no more than its length is yielded to its end too.
  pub chunks-reader_fitting :
      (len : ℕ) (s : Stream)
      → 0 < len
      → length s.rest ≤ len
      → payload (chunks {HeaderMap = HeaderMap} (some (reader s (some len)))) ≡ fitting len s
  unfolding chunks measure
  chunks-reader_fitting len s pos fits = collect-reader_fitting _ len s (omega arith) pos fits
