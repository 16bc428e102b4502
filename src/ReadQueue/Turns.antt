-- ===== src/ReadQueue/Turns.antt =====
-- The one reader is never lost nor doubled, and the queued readers get it in their order.
use touche.Base.{
  ℕ, zero, suc, ◌≡◌, refl, Option, none, some, List, [], ◌∷◌, ◌++◌, arith, All, Option-cases, inl,
  inr,
}
use touche.ReadQueue.{
  Handle, current, waiting, gone, QueuedReader, ReadQueue, Op, use_reader, drop_reader, new,
  enqueue, place, act, turn, step,
}

module _ {R : Type 0} where
  abbrev pub Waits : QueuedReader R → Type 0
  Waits l = (l.handle ≡ waiting) × (l.sent ≡ none)

  -- By the first reader: it has the reader and all others wait, or it is gone.
  abbrev pub TurnAt : Handle R → Option R → Type 0 → Type 0 → Type 0
  TurnAt (current r) none others_wait behind = others_wait
  TurnAt gone sent others_wait behind = behind
  TurnAt _ _ others_wait behind = ⊥

  -- The reader is in the channel in front, or with the first of the queued readers that is not gone, or
  -- in the channel of the last one that is gone; all behind it wait.
  abbrev pub Turn : Option R → List (QueuedReader R) → Type 0
  Turn (some r) ls = All Waits ls
  Turn none [] = ⊥
  Turn none (l ∷ ls) = TurnAt l.handle l.sent (All Waits ls) (Turn l.sent ls)

  abbrev After : Option (Option R × List (QueuedReader R)) → Type 0
  After none = Unit
  After (some (inbox, ls)) = Turn inbox ls

  placed :
      (op : Op R) (r : R) (l : QueuedReader R) (ls : List (QueuedReader R))
      → l.sent ≡ none
      → All Waits ls
      → Turn none (place op r l ∷ ls)
  unfolding place
  placed (use_reader f) r l ls e h = rw e h
  placed drop_reader r l ls e h = h

  -- Nobody behind the reader can do anything.
  pub blocked :
      (op : Op R) (i : ℕ) (ls : List (QueuedReader R)) → All Waits ls → turn op i none ls ≡ none
  unfolding turn act
  blocked op i [] h = refl
  blocked op zero (l ∷ ls) h = rw h.0.0
  blocked op (suc i) (l ∷ ls) h = rw (h.0.1, blocked op i ls h.1)

  act-Turn :
      (op : Op R) (hd : Handle R) (st inbox : Option R) (l : QueuedReader R)
      (ls : List (QueuedReader R))
      → l.handle ≡ hd
      → l.sent ≡ st
      → Turn inbox (l ∷ ls)
      → After (act op hd inbox l ls)
  unfolding act
  act-Turn op (current r) none none l ls p q h = placed op r l ls q (rw (p, q) at h)
  act-Turn op (current r) (some x) none l ls p q h = absurd (rw (p, q) at h)
  act-Turn op (current r) st (some x) l ls p q h = absurd (ground arith)
  act-Turn op waiting st (some r) l ls p q h = placed op r l ls h.0.1 h.1
  act-Turn op waiting st none l ls p q h = tt
  act-Turn op gone st inbox l ls p q h = tt

  behind-Turn :
      (op : Op R) (i : ℕ) (hd : Handle R) (st inbox : Option R) (l : QueuedReader R)
      (ls : List (QueuedReader R))
      → l.handle ≡ hd
      → l.sent ≡ st
      → (Turn l.sent ls → After (turn op i l.sent ls))
      → Turn inbox (l ∷ ls)
      → After (turn op (suc i) inbox (l ∷ ls))
  unfolding turn
  behind-Turn op i hd st (some x) l ls p q ih h = rw (h.0.1, blocked op i ls h.1) tt
  behind-Turn op i (current r) none none l ls p q ih h = rw (q, blocked op i ls (rw (p, q) at h)) tt
  behind-Turn op i (current r) (some x) none l ls p q ih h = absurd (rw (p, q) at h)
  behind-Turn op i waiting st none l ls p q ih h = absurd (rw p at h)
  behind-Turn op i gone st none l ls p q ih h =
      let later = ih (rw p at h) in
      elim (Option-cases (turn op i l.sent ls)) [
        | inl e ↦ rw e tt
        | inr ((sent, ls'), e) ↦ rw (e, p) (rw e at later)
      ]

  pub turn-Turn :
      (op : Op R) (i : ℕ) (inbox : Option R) (ls : List (QueuedReader R))
      → Turn inbox ls
      → After (turn op i inbox ls)
  unfolding turn
  turn-Turn op i inbox [] h = tt
  turn-Turn op zero inbox (l ∷ ls) h = act-Turn op l.handle l.sent inbox l ls refl refl h
  turn-Turn op (suc i) inbox (l ∷ ls) h =
      behind-Turn op i l.handle l.sent inbox l ls refl refl (turn-Turn op i l.sent ls) h

  -- Nothing is sent to the front of the readers.
  front :
      (op : Op R) (i : ℕ) (ls ls' : List (QueuedReader R)) (x : Option R)
      → turn op i none ls ≡ some (x, ls')
      → x ≡ none
  unfolding turn act
  front op i [] ls' x e = absurd (ground arith)
  front op zero (l ∷ ls) ls' x e = front_act l.handle e
    where
      front_act : (hd : Handle R) → act op hd none l ls ≡ some (x, ls') → x ≡ none
      front_act (current r) e = ground arith
      front_act waiting e = absurd (ground arith)
      front_act gone e = absurd (ground arith)
  front op (suc i) (l ∷ ls) ls' x e = elim (Option-cases (turn op i l.sent ls)) [
    | inl f ↦ absurd (ground arith)
    | inr ((sent, ms), f) ↦ ground arith
  ]

  append-Waits :
      (ls : List (QueuedReader R)) (l : QueuedReader R)
      → All Waits ls
      → Waits l
      → All Waits (ls ++ l ∷ [])
  append-Waits [] l h w = (w, tt)
  append-Waits (m ∷ ls) l h w = (h.0, append-Waits ls l h.1 w)

  append-Turn :
      (inbox : Option R) (ls : List (QueuedReader R)) (l : QueuedReader R)
      → Turn inbox ls
      → Waits l
      → Turn inbox (ls ++ l ∷ [])
  append-Turn (some x) ls l h w = append-Waits ls l h w
  append-Turn none [] l h w = absurd h
  append-Turn none (m ∷ ls) l h w =
      append_at m.handle m.sent refl refl (λ g. append-Turn m.sent ls l g w)
    where
      append_at :
          (hd : Handle R) (st : Option R)
          → m.handle ≡ hd
          → m.sent ≡ st
          → (Turn m.sent ls → Turn m.sent (ls ++ l ∷ []))
          → Turn none (m ∷ (ls ++ l ∷ []))
      append_at (current r) none p q later = rw (p, q) (append-Waits ls l (rw (p, q) at h) w)
      append_at (current r) (some x) p q later = absurd (rw (p, q) at h)
      append_at waiting st p q later = absurd (rw p at h)
      append_at gone st p q later = rw p (later (rw p at h))

  -- The reader is with the queue itself, in front of which nobody stands, or with the queued readers.
  abbrev pub HeldBy : Option R → List (QueuedReader R) → Type 0
  HeldBy (some r) ls = ls ≡ []
  HeldBy none ls = Turn none ls

  abbrev pub Held : ReadQueue R → Type 0
  Held q = HeldBy q.head q.readers

  enqueue-Held : (q : ReadQueue R) → Held q → Held (enqueue q)
  unfolding enqueue
  enqueue-Held q h = go q.head q.readers h
    where
      go :
          (head : Option R) (ls : List (QueuedReader R))
          → HeldBy head ls
          → Held (enqueue (record { head = head; readers = ls }))
      go (some r) ls h = rw h tt
      go none ls h = append-Turn none ls _ h (refl, refl)

  abbrev HeldAfter : Option (ReadQueue R) → Type 0
  HeldAfter none = Unit
  HeldAfter (some q) = Held q

  step-HeldBy :
      (op : Op R) (i : ℕ) (head : Option R) (ls : List (QueuedReader R))
      → HeldBy head ls
      → HeldAfter (step op i (record { head = head; readers = ls }))
  unfolding step turn
  step-HeldBy op i (some r) ls h = rw h tt
  step-HeldBy op i none ls h =
      let later = turn-Turn op i none ls h in
      elim (Option-cases (turn op i none ls)) [
        | inl e ↦ rw (e, step) tt
        | inr ((x, ls'), e) ↦
            let kept : Turn x ls' = rw e at later in
            rw (e, step) (rw (front op i ls ls' x e) at kept)
      ]

  -- What becomes of a queue: readers are queued and operated on, in any order.
  pub data Reachable (r : R) : ReadQueue R → Type 0 where
    start : Reachable r (new r)
    queued : (q : ReadQueue R) → Reachable r q → Reachable r (enqueue q)
    acted :
        (op : Op R) (i : ℕ) (q q' : ReadQueue R)
        → Reachable r q
        → step op i q ≡ some q'
        → Reachable r q'

  -- Whatever is done with a queue, its reader is in one place: with the queue before the first reader is
  -- queued, and after that with the first queued reader that was not dropped, or on its way there; the
  -- readers behind it wait.
  pub Reachable-Held : (r : R) (q : ReadQueue R) → Reachable r q → Held q
  Reachable-Held r q start = refl
  Reachable-Held r q (queued p reach) = enqueue-Held p (Reachable-Held r p reach)
  Reachable-Held r q (acted op i p q' reach e) =
      let after = step-HeldBy op i p.head p.readers (Reachable-Held r p reach) in rw e at after
