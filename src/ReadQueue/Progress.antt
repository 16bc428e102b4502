-- ===== src/ReadQueue/Progress.antt =====
-- The queued reader whose turn it is is never blocked.
use touche.Base.{ℕ, zero, suc, ◌≡◌, ◌≢◌, refl, Option, none, some, List, [], ◌∷◌, arith}
use touche.ReadQueue.{Handle, current, waiting, gone, QueuedReader, ReadQueue, Op, turn, act, step}
use touche.ReadQueue.Turns.{Turn, HeldBy, Reachable, Reachable-Held}

module _ {R : Type 0} where
  -- The reader at a place was not dropped, and all in front of it were.
  abbrev pub IsFirst : ℕ → List (QueuedReader R) → Type 0
  IsFirst i [] = ⊥
  IsFirst zero (l ∷ ls) = l.handle ≢ gone
  IsFirst (suc i) (l ∷ ls) = (l.handle ≡ gone) × IsFirst i ls

  act-goes :
      (op : Op R) (hd : Handle R) (st inbox : Option R) (l : QueuedReader R)
      (ls : List (QueuedReader R))
      → l.handle ≡ hd
      → l.sent ≡ st
      → Turn inbox (l ∷ ls)
      → l.handle ≢ gone
      → (x : Option R × List (QueuedReader R)) × (act op hd inbox l ls ≡ some x)
  unfolding act
  act-goes op (current r) st inbox l ls p q h alive = (_, refl)
  act-goes op waiting st (some r) l ls p q h alive = (_, refl)
  act-goes op waiting st none l ls p q h alive = absurd (rw p at h)
  act-goes op gone st inbox l ls p q h alive = absurd (alive p)

  behind-goes :
      (op : Op R) (i : ℕ) (inbox : Option R) (l : QueuedReader R) (ls : List (QueuedReader R))
      → l.handle ≡ gone
      → (Turn l.sent ls → (x : Option R × List (QueuedReader R)) × (turn op i l.sent ls ≡ some x))
      → Turn inbox (l ∷ ls)
      → (x : Option R × List (QueuedReader R)) × (turn op (suc i) inbox (l ∷ ls) ≡ some x)
  unfolding turn
  behind-goes op i (some r) l ls p ih h = absurd (ground arith)
  behind-goes op i none l ls p ih h =
      let ((sent, ls'), e) = ih (rw p at h) in ((none, record l { sent = sent } ∷ ls'), rw e)

  turn-goes :
      (op : Op R) (i : ℕ) (inbox : Option R) (ls : List (QueuedReader R))
      → Turn inbox ls
      → IsFirst i ls
      → (x : Option R × List (QueuedReader R)) × (turn op i inbox ls ≡ some x)
  unfolding turn
  turn-goes op i inbox [] h first = absurd first
  turn-goes op zero inbox (l ∷ ls) h first =
      act-goes op l.handle l.sent inbox l ls refl refl h first
  turn-goes op (suc i) inbox (l ∷ ls) h first =
      behind-goes op i inbox l ls first.0 (λ g. turn-goes op i l.sent ls g first.1) h

  step_by-goes :
      (op : Op R) (i : ℕ) (head : Option R) (ls : List (QueuedReader R))
      → HeldBy head ls
      → IsFirst i ls
      → (q : ReadQueue R) × (step op i (record { head = head; readers = ls }) ≡ some q)
  unfolding step
  step_by-goes op i (some r) ls h first = absurd (rw h at first)
  step_by-goes op i none ls h first =
      let ((x, ls'), e) = turn-goes op i none ls h first in
      (record { head = none; readers = ls' }, rw (e, step))

  -- Whatever was done with a queue before, the first queued reader that was not dropped can read, and be
  -- dropped, without waiting for another.
  pub step-goes :
      (r : R) (op : Op R) (i : ℕ) (q : ReadQueue R)
      → Reachable r q
      → IsFirst i q.readers
      → (q' : ReadQueue R) × (step op i q ≡ some q')
  step-goes r op i q reach first =
      step_by-goes op i q.head q.readers (Reachable-Held r q reach) first
