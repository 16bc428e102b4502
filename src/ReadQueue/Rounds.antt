-- ===== src/ReadQueue/Rounds.antt =====
-- The queue as the loop of `serve` uses it: one reader after the other.
use touche.Base.{
  ℕ, zero, suc, ◌+◌, ◌≡◌, refl, ap, ◌∙◌, Option, none, some, List, [], ◌∷◌, ◌++◌, Bool, arith,
  length, if◌then◌else◌, Bool-cases, inl, inr,
}
use touche.ReadQueue.{
  current, waiting, gone, QueuedReader, ReadQueue, Op, use_reader, drop_reader, new, enqueue, turn,
  step,
}

-- A round of the loop: what parsing a request makes of the reader, whether the request's body takes the
-- queued reader with it, and what the body makes of the reader then.
pub record Round (R : Type 0) : Type 0 where
  pub parse : R → R
  pub owns : Bool
  pub consume : R → R

module _ {R : Type 0} where
  abbrev pub after_round : Round R → R → R
  after_round k r = if k.owns then k.consume (k.parse r) else k.parse r

  abbrev pub after_rounds : List (Round R) → R → R
  after_rounds [] r = r
  after_rounds (k ∷ ks) r = after_rounds ks (after_round k r)

  abbrev pub then_step :
      Option (ReadQueue R) → (ReadQueue R → Option (ReadQueue R)) → Option (ReadQueue R)
  then_step none f = none
  then_step (some q) f = f q

  -- The n-th reader parses. A body that takes it is used behind the enqueueing of the next reader, and drops
  -- it then; else it is dropped at once.
  unfoldable pub round : Round R → ℕ → ReadQueue R → Option (ReadQueue R)
  round k n q = then_step (step (use_reader k.parse) n q) λ q₁.
      if k.owns
      then then_step (step (use_reader k.consume) n (enqueue q₁)) (λ q₂. step drop_reader n q₂)
      else then_step (step drop_reader n q₁) (λ q₂. some (enqueue q₂))

  unfoldable pub rounds : List (Round R) → ℕ → ReadQueue R → Option (ReadQueue R)
  unfolding round
  rounds [] n q = some q
  rounds (k ∷ ks) n q = then_step (round k n q) (rounds ks (suc n))

  -- Readers that were dropped and whose reader was taken on.
  abbrev pub spent : ℕ → List (QueuedReader R) → List (QueuedReader R)
  spent zero ls = ls
  spent (suc n) ls = record { handle = gone; sent = none } ∷ spent n ls

  abbrev waits : QueuedReader R
  waits = record { handle = waiting; sent = none }

  abbrev pub holds : R → QueuedReader R
  holds r = record { handle = current r; sent = none }

  abbrev pub of_list : List (QueuedReader R) → ReadQueue R
  of_list ls = record { head = none; readers = ls }

  -- The readers whose n-th is about to get r: the first one has it, and a later one is sent it.
  abbrev pub handed : ℕ → R → List (QueuedReader R)
  handed zero r = holds r ∷ []
  handed (suc n) r = spent n (record { handle = gone; sent = some r } ∷ waits ∷ [])

  spent-append : (n : ℕ) (ls ms : List (QueuedReader R)) → spent n ls ++ ms ≡ spent n (ls ++ ms)
  spent-append zero ls ms = refl
  spent-append (suc n) ls ms =
      ap (λ l. record { handle = gone; sent = none } ∷ l) (spent-append n ls ms)

  turn-handed :
      (f : R → R) (n : ℕ) (r : R)
      → turn (use_reader f) n none (handed n r) ≡ some (none, spent n (holds (f r) ∷ []))
  unfolding turn
  turn-handed f zero r = refl
  turn-handed f (suc zero) r = refl
  turn-handed f (suc (suc n)) r = rw (turn-handed f (suc n) r)

  turn-held :
      (f : R → R) (n : ℕ) (r : R) (ls : List (QueuedReader R))
      → turn (use_reader f) n none (spent n (holds r ∷ ls))
        ≡ some (none, spent n (holds (f r) ∷ ls))
  unfolding turn
  turn-held f zero r ls = refl
  turn-held f (suc n) r ls = rw (turn-held f n r ls)

  turn-dropped :
      (n : ℕ) (r : R) (ls : List (QueuedReader R))
      → turn drop_reader n none (spent n (holds r ∷ ls))
        ≡ some (none, spent n (record { handle = gone; sent = some r } ∷ ls))
  unfolding turn
  turn-dropped zero r ls = refl
  turn-dropped (suc n) r ls = rw (turn-dropped n r ls)

  enqueue-of_list : (ls : List (QueuedReader R)) → enqueue (of_list ls) ≡ of_list (ls ++ waits ∷ [])
  unfolding enqueue
  enqueue-of_list ls = refl

  step-of_list :
      (op : Op R) (i : ℕ) (ls ls' : List (QueuedReader R))
      → turn op i none ls ≡ some (none, ls')
      → step op i (of_list ls) ≡ some (of_list ls')
  unfolding step
  step-of_list op i ls ls' e = rw e

  step-handed :
      (f : R → R) (n : ℕ) (r : R)
      → step (use_reader f) n (of_list (handed n r)) ≡ some (of_list (spent n (holds (f r) ∷ [])))
  step-handed f n r = step-of_list (use_reader f) n _ _ (turn-handed f n r)

  enqueue-spent :
      (n : ℕ) (l : QueuedReader R)
      → enqueue (of_list (spent n (l ∷ []))) ≡ of_list (spent n (l ∷ waits ∷ []))
  enqueue-spent n l =
      enqueue-of_list (spent n (l ∷ [])) ∙ ap of_list (spent-append n (l ∷ []) (waits ∷ []))

  round-handed :
      (k : Round R) (n : ℕ) (r : R)
      → round k n (of_list (handed n r)) ≡ some (of_list (handed (suc n) (after_round k r)))
  unfolding round
  round-handed k n r =
      let held = k.parse r in
      elim (Bool-cases k.owns) [
        | inl owns ↦
            rw (step-handed k.parse n r, round)
              (rw (owns, enqueue-spent n (holds held))
                (rw
                  (step-of_list (use_reader k.consume) n _ _
                    (turn-held k.consume n held (waits ∷ [])))
                  (step-of_list drop_reader n _ _ (turn-dropped n (k.consume held) (waits ∷ [])))))
        | inr lets ↦
            rw (step-handed k.parse n r, round)
              (rw (lets, step-of_list drop_reader n _ _ (turn-dropped n held []))
                (ap some (enqueue-spent n (record { handle = gone; sent = some held }))))
      ]

  rounds-from :
      (ks : List (Round R)) (n : ℕ) (r : R)
      → rounds ks n (of_list (handed n r))
        ≡ some (of_list (handed (length ks + n) (after_rounds ks r)))
  unfolding rounds
  rounds-from [] n r = ap (λ m. some (of_list (handed m r))) (omega arith)
  rounds-from (k ∷ ks) n r = rw (round-handed k n r) (
      rounds-from ks (suc n) (after_round k r)
      ∙ ap (λ m. some (of_list (handed m (after_rounds ks (after_round k r))))) (omega arith))

  rounds-handed :
      (ks : List (Round R)) (r : R)
      → rounds ks 0 (enqueue (new r)) ≡ some (of_list (handed (length ks) (after_rounds ks r)))
  unfolding enqueue
  rounds-handed ks r =
      rounds-from ks 0 r ∙ ap (λ m. some (of_list (handed m (after_rounds ks r)))) (omega arith)

  -- Behind any rounds of the loop, none of which blocks, the next queued reader gets the reader as these
  -- rounds left it, one after the other, whether their bodies took the queued reader or not; the queued
  -- readers in front of it are dropped, and none of them has a reader left to send.
  pub rounds-hand_on :
      (ks : List (Round R)) (r : R) (f : R → R)
      → then_step (rounds ks 0 (enqueue (new r))) (step (use_reader f) (length ks))
        ≡ some (of_list (spent (length ks) (holds (f (after_rounds ks r)) ∷ [])))
  rounds-hand_on ks r f = rw (rounds-handed ks r) (step-handed f (length ks) (after_rounds ks r))
