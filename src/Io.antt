-- ===== src/Io.antt =====
-- std::io as the crate uses it: a `Read` that delivers bytes and then ends or fails, and a `Write`.
pub mod Laws
use touche.Base.{
  ℕ, zero, suc, ◌+◌, ◌-◌, ◌<◌, min, ◌≡◌, refl, Option, none, some, List, [], ◌∷◌, ◌++◌, Bytes,
  length, take, drop, leb, lf, ◌==◌, if◌then◌else◌,
}
use touche.Base.Result.{Result, ok, err, Act, pure, fail}

pub data IoError : Type 0 where
  unexpected_eof transport write_zero : IoError
  body_closed aborted not_a_file : IoError
  length_mismatch unknown_size unsupported_version : IoError
  parse_failed service_failed lock_failed : IoError

-- A reader: the bytes still to come, and what follows them: the end (`none`) or an error. `bursts`
-- bounds what single calls of `read` deliver: the next call gives at most one byte more than its head.
pub record Stream : Type 0 where
  pub rest : Bytes
  pub fault : Option IoError
  pub bursts : List ℕ

-- A stream over bytes in memory, as `Cursor` or `io::empty`.
abbrev pub of_bytes : Bytes → Stream
of_bytes bs = record { rest = bs; fault = none; bursts = [] }

-- The same reader with other bytes to come.
abbrev pub with_rest : Stream → Bytes → Stream
with_rest s bs = record s { rest = bs }

-- How many bytes beyond the first a call may give, with room for n more.
abbrev pub burst : ℕ → List ℕ → ℕ
burst n [] = n
burst n (b ∷ bs) = min n b

abbrev tail_bursts : List ℕ → List ℕ
tail_bursts [] = []
tail_bursts (b ∷ bs) = bs

unfoldable pub read_parts : ℕ → Bytes → Option IoError → List ℕ → Result IoError Bytes × Stream
read_parts n [] none bursts = (ok [], record { rest = []; fault = none; bursts = bursts })
read_parts n [] (some e) bursts = (err e, record { rest = []; fault = some e; bursts = bursts })
read_parts n (b ∷ bs) fault bursts =
    let k = suc (burst n bursts) in
    (
      ok (take k (b ∷ bs)),
      record { rest = drop k (b ∷ bs); fault = fault; bursts = tail_bursts bursts },
    )

-- Read::read with a buffer of n bytes. An empty result is the end.
unfoldable pub read : ℕ → Act Stream IoError Bytes
unfolding read_parts
read zero s = (ok [], s)
read (suc n) s = read_parts n s.rest s.fault s.bursts

-- The bytes up to and with the first line feed, and those after it; `none` if there is none.
unfoldable pub split_line : Bytes → Option (Bytes × Bytes)
split_line [] = none
split_line (b ∷ bs) =
    if b == lf
    then some (b ∷ [], bs)
    else elim (split_line bs) [ none ↦ none | some (l, r) ↦ some (b ∷ l, r) ]

-- BufRead::read_until(b'\n'): the line read, which the caller appends to its buffer. Without a line
-- feed it is all that is left, and it is lost to the caller if an error follows.
unfoldable pub read_line : Act Stream IoError Bytes
read_line s = elim (split_line s.rest) [
  | some (l, r) ↦ (ok l, record s { rest = r })
  | none ↦ elim s.fault [
    | none ↦ (ok s.rest, record s { rest = [] })
    | some e ↦ (err e, record s { rest = [] })
  ]
]

-- Read::read_exact for n bytes.
unfoldable pub read_exact : ℕ → Act Stream IoError Bytes
read_exact n s =
    if leb n (length s.rest)
    then (ok (take n s.rest), record s { rest = drop n s.rest })
    else elim s.fault [
      | none ↦ (err unexpected_eof, record s { rest = [] })
      | some e ↦ (err e, record s { rest = [] })
    ]

-- Read::take(n): at most n bytes, then the end.
unfoldable pub limit : ℕ → Stream → Stream
limit n s = if leb n (length s.rest) then record s { rest = take n s.rest; fault = none } else s

-- Read::read_to_end
unfoldable pub read_to_end : Act Stream IoError Bytes
read_to_end s = elim s.fault [
  | none ↦ (ok s.rest, record s { rest = [] })
  | some e ↦ (err e, record s { rest = [] })
]

-- A writer: what was written, and how many bytes the peer still takes (`none` for any number).
pub record Sink : Type 0 where
  pub out : Bytes
  pub room : Option ℕ

abbrev pub open_sink : Bytes → Sink
open_sink bs = record { out = bs; room = none }

abbrev pub Write : Type 0 → Type 0
Write A = Act Sink IoError A

-- Write::write_all
unfoldable pub write_all : Bytes → Write (Unit {0})
write_all bs s = elim s.room [
  | none ↦ (ok tt, record s { out = s.out ++ bs })
  | some n ↦
      if leb (length bs) n
      then (ok tt, record s { out = s.out ++ bs; room = some (n - length bs) })
      else (err transport, record s { out = s.out ++ take n bs; room = some 0 })
]

-- Write::flush; an error of the connection has shown at the write itself.
unfoldable pub flush : Write (Unit {0})
flush s = (ok tt, s)

-- io::copy from a reader to a writer: the bytes are written before the reader's error shows.
unfoldable pub copy : Stream → Write (Unit {0})
unfolding write_all
copy r s =
    let (w, s') = write_all r.rest s in
    elim w [
      | err e ↦ (err e, s')
      | ok u ↦ elim r.fault [ none ↦ (ok tt, s') | some e ↦ (err e, s') ]
    ]
