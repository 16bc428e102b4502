-- ===== src/ReadQueue/Order.antt =====
-- The order in which the queued readers get to the one reader.
use touche.Base.{
  ℕ, zero, suc, ◌≡◌, refl, Option, none, some, List, [], ◌∷◌, arith, Option-cases, inl, inr,
}
use touche.ReadQueue.{Handle, current, waiting, gone, QueuedReader, ReadQueue, Op, turn, step}
use touche.ReadQueue.Turns.{Turn, HeldBy, Reachable, Reachable-Held, blocked}

not_some : {A Goal : Type 0} (x : A) → none ≡ some x → Goal
not_some x e = absurd (ground arith)

module _ {R : Type 0} where
  -- All readers in front of a place were dropped.
  abbrev pub GoneBefore : ℕ → List (QueuedReader R) → Type 0
  GoneBefore zero ls = Unit
  GoneBefore (suc i) [] = ⊥
  GoneBefore (suc i) (l ∷ ls) = (l.handle ≡ gone) × GoneBefore i ls

  first_at :
      (op : Op R) (i : ℕ) (hd : Handle R) (st inbox : Option R) (l : QueuedReader R)
      (ls : List (QueuedReader R)) (x : Option R × List (QueuedReader R))
      → l.handle ≡ hd
      → l.sent ≡ st
      → (Turn l.sent ls
          → (y : Option R × List (QueuedReader R)) → turn op i l.sent ls ≡ some y
          → GoneBefore i ls)
      → Turn inbox (l ∷ ls)
      → turn op (suc i) inbox (l ∷ ls) ≡ some x
      → GoneBefore (suc i) (l ∷ ls)
  unfolding turn
  first_at op i hd st (some r) l ls x p q ih h e = not_some x (rw (h.0.1, blocked op i ls h.1) at e)
  first_at op i (current r) none none l ls x p q ih h e =
      not_some x (rw (q, blocked op i ls (rw (p, q) at h)) at e)
  first_at op i (current r) (some y) none l ls x p q ih h e = absurd (rw (p, q) at h)
  first_at op i waiting st none l ls x p q ih h e = absurd (rw p at h)
  first_at op i gone st none l ls x p q ih h e = elim (Option-cases (turn op i l.sent ls)) [
    | inl f ↦ not_some x (rw f at e)
    | inr (y, f) ↦ (p, ih (rw p at h) y f)
  ]

  turn-first :
      (op : Op R) (i : ℕ) (inbox : Option R) (ls : List (QueuedReader R))
      (x : Option R × List (QueuedReader R))
      → Turn inbox ls
      → turn op i inbox ls ≡ some x
      → GoneBefore i ls
  unfolding turn
  turn-first op zero inbox ls x h e = tt
  turn-first op (suc i) inbox [] x h e = not_some x e
  turn-first op (suc i) inbox (l ∷ ls) x h e =
      first_at op i l.handle l.sent inbox l ls x refl refl
        (λ g y f. turn-first op i l.sent ls y g f) h e

  step_by-first :
      (op : Op R) (i : ℕ) (head : Option R) (ls : List (QueuedReader R)) (q : ReadQueue R)
      → HeldBy head ls
      → step op i (record { head = head; readers = ls }) ≡ some q
      → GoneBefore i ls
  unfolding step turn
  step_by-first op i (some r) ls q h e = not_some q (rw h at e)
  step_by-first op i none ls q h e = elim (Option-cases (turn op i none ls)) [
    | inl f ↦ not_some q (rw (f, step) at e)
    | inr (x, f) ↦ turn-first op i none ls x h f
  ]

  -- A queued reader gets to read, or is dropped with the reader in its hands, only after all readers in
  -- front of it were dropped.
  pub step-first :
      (r : R) (op : Op R) (i : ℕ) (q q' : ReadQueue R)
      → Reachable r q
      → step op i q ≡ some q'
      → GoneBefore i q.readers
  step-first r op i q q' reach e =
      step_by-first op i q.head q.readers q' (Reachable-Held r q reach) e
