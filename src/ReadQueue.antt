-- ===== src/ReadQueue.antt =====
-- read_queue.rs: one reader is handed from each queued reader to the next as they are dropped.
pub mod Turns
pub mod Order
pub mod Progress
pub mod Rounds
use touche.Base.{ℕ, zero, suc, Option, none, some, List, [], ◌∷◌, ◌++◌}

-- QueuedReaderInner, and `gone` for the `None` of a reader that was dropped.
pub data Handle (R : Type 0) : Type 0 where
  current : R → Handle R
  waiting gone : Handle R

-- QueuedReader: its handle, and the message in the channel that `next` sends to, which the reader
-- behind it receives from.
pub record QueuedReader (R : Type 0) : Type 0 where
  pub handle : Handle R
  pub sent : Option R

-- ReadQueue: `Head` by its reader, and `none` for `Next`, whose receiver is that of the last reader's
-- channel. The readers stand in the order of their enqueueing.
pub record ReadQueue (R : Type 0) : Type 0 where
  pub head : Option R
  pub readers : List (QueuedReader R)

-- What is done with a queued reader: Read and BufRead change the reader that it holds, Drop sends it on.
pub data Op (R : Type 0) : Type 0 where
  use_reader : (R → R) → Op R
  drop_reader : Op R

module _ {R : Type 0} where
  -- ReadQueue::new
  abbrev pub new : R → ReadQueue R
  new r = record { head = some r; readers = [] }

  -- ReadQueue::enqueue
  unfoldable pub enqueue : ReadQueue R → ReadQueue R
  enqueue q = elim q.head [
    | some r ↦ record {
      head = none;
      readers = q.readers ++ record { handle = current r; sent = none } ∷ [];
    }
    | none ↦ record {
      head = none;
      readers = q.readers ++ record { handle = waiting; sent = none } ∷ [];
    }
  ]

  unfoldable pub place : Op R → R → QueuedReader R → QueuedReader R
  place (use_reader f) r l = record l { handle = current (f r) }
  place drop_reader r l = record { handle = gone; sent = some r }

  -- An operation on the first of the readers; a waiting reader receives from the channel in front of
  -- it. `none` is an operation that blocks, or that no owner of the reader is left to do.
  unfoldable pub act :
      Op R
      → Handle R
      → Option R
      → QueuedReader R
      → List (QueuedReader R)
      → Option (Option R × List (QueuedReader R))
  unfolding place
  act op (current r) inbox l ls = some (inbox, place op r l ∷ ls)
  act op waiting (some r) l ls = some (none, place op r l ∷ ls)
  act op waiting none l ls = none
  act op gone inbox l ls = none

  -- An operation on the reader at a place, with the message in the channel in front of the readers.
  unfoldable pub turn :
      Op R → ℕ → Option R → List (QueuedReader R) → Option (Option R × List (QueuedReader R))
  unfolding act
  turn op i inbox [] = none
  turn op zero inbox (l ∷ ls) = act op l.handle inbox l ls
  turn op (suc i) inbox (l ∷ ls) = elim (turn op i l.sent ls) [
    | none ↦ none
    | some (sent, ls') ↦ some (inbox, record l { sent = sent } ∷ ls')
  ]

  unfoldable pub step : Op R → ℕ → ReadQueue R → Option (ReadQueue R)
  unfolding turn
  step op i q = elim (turn op i none q.readers) [
    | none ↦ none
    | some (inbox, ls) ↦ some (record q { readers = ls })
  ]
