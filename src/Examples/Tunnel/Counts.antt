-- ===== src/Examples/Tunnel/Counts.antt =====
-- What the tunnel has passed when it returns.
use mathlib.Core.Path.{subst}
use touche.Base.{
  ℕ, ◌+◌, ◌≡◌, ◌≢◌, ◌⊎◌, inl, inr, Option, none, refl, ap, sym, ◌∙◌, some, [], ◌++◌, append_assoc,
  append-nil, arith, Bytes, length, length-append,
}
use touche.Base.Result.{ok, err}
use touche.Body.{IoResult}
use touche.Examples.Tunnel.{
  Thread, copying, returned, Direction, Closed, Step, passes, ends, fails, Reachable, started, up,
  down, joined, tunnel,
}

-- The bytes that a thread knows of are those that were passed.
abbrev Counted : Thread → Bytes → Type 0
Counted (copying n) passed = n ≡ length passed
Counted (returned (ok n)) passed = n ≡ length passed
Counted (returned (err e)) passed = Unit

-- A source that sends `a` in all.
record Passes (a : Bytes) (d : Direction) : Type 0 where
  whole : a ≡ d.passed ++ d.pending
  counted : Counted d.thread d.passed

Step-Passes : (a : Bytes) (other d d' : Direction) → Step other d d' → Passes a d → Passes a d'
Step-Passes a other d d' (passes bs more passed n) h = record {
  whole = h.whole ∙ sym (append_assoc passed bs more);
  counted = omega (arith, h.counted, length-append passed bs);
}
Step-Passes a other d d' (ends pending passed n over) h = record {
  whole = h.whole;
  counted = h.counted;
}
Step-Passes a other d d' (fails pending passed n e) h = record { whole = h.whole; counted = tt }

-- The direction has ended with nothing left of its source.
abbrev Done : Direction → Type 0
Done d = (d.pending ≡ []) × Closed d

-- If a direction has ended, one of the two has passed everything.
abbrev FirstDone : Direction → Direction → Type 0
FirstDone to back = Closed to ⊎ Closed back → Done to ⊎ Done back

other_first :
    (d other : Direction) (n : ℕ)
    → d.thread ≡ copying n
    → FirstDone d other
    → Closed other
    → Done other
other_first d other n runs first over = elim (first (inr over)) [
  | inl (empty, (m, f)) ↦ absurd (cc (runs, f))
  | inr done ↦ done
]

still_running :
    (d d' other : Direction) (n : ℕ) (t : Thread)
    → d.thread ≡ copying n
    → d'.thread ≡ t
    → ((m : ℕ) → t ≢ returned (ok m))
    → FirstDone d other
    → FirstDone d' other
still_running d d' other n t runs same runs_on first (inl (m, f)) =
    absurd (runs_on m (sym same ∙ f))
still_running d d' other n t runs same runs_on first (inr over) =
    inr (other_first d other n runs first over)

Step-FirstDone : (other d d' : Direction) → Step other d d' → FirstDone d other → FirstDone d' other
Step-FirstDone other d d' (passes bs more passed n) first over =
    still_running d d' other n (copying (n + length bs)) refl refl (λ m f. absurd (cc f)) first over
Step-FirstDone other d d' (ends pending passed n (inl empty)) first over = inl (empty, (n, refl))
Step-FirstDone other d d' (ends pending passed n (inr closed)) first over =
    inr (other_first d other n refl first closed)
Step-FirstDone other d d' (fails pending passed n e) first over =
    still_running d d' other n (returned (err e)) refl refl (λ m f. absurd (cc f)) first over

swap : {A B : Type 0} → A ⊎ B → B ⊎ A
swap (inl a) = inr a
swap (inr b) = inl b

FirstDone-swap : (to back : Direction) → FirstDone to back → FirstDone back to
FirstDone-swap to back first over = swap (first (swap over))

record IsTunnel (a b : Bytes) (to back : Direction) : Type 0 where
  there : Passes a to
  back_again : Passes b back
  first : FirstDone to back

Reachable-IsTunnel :
    (a b : Bytes) (to back : Direction) → Reachable a b to back → IsTunnel a b to back
Reachable-IsTunnel a b to back started = record {
  there = record { whole = refl; counted = refl };
  back_again = record { whole = refl; counted = refl };
  first = λ over. elim over [ inl (n, f) ↦ absurd (cc f) | inr (n, f) ↦ absurd (cc f) ];
}
Reachable-IsTunnel a b to back (up before _ _ step run) =
    let h = Reachable-IsTunnel a b before back run in
    record {
      there = Step-Passes a back before to step h.there;
      back_again = h.back_again;
      first = Step-FirstDone back before to step h.first;
    }
Reachable-IsTunnel a b to back (down _ before _ step run) =
    let h = Reachable-IsTunnel a b to before run in
    record {
      there = h.there;
      back_again = Step-Passes b to before back step h.back_again;
      first =
          FirstDone-swap back to
            (Step-FirstDone to before back step (FirstDone-swap to before h.first));
    }

joined-returned :
    (t u : Thread) (n m : ℕ)
    → joined t u ≡ some (ok (n, m))
    → (t ≡ returned (ok n)) × (u ≡ returned (ok m))
unfolding joined
joined-returned (copying k) u n m e = absurd (cc e)
joined-returned (returned (err x)) u n m e = absurd (cc e)
joined-returned (returned (ok k)) (copying l) n m e = absurd (cc e)
joined-returned (returned (ok k)) (returned (err x)) n m e = absurd (cc e)
joined-returned (returned (ok k)) (returned (ok l)) n m e =
    let counts : Option (IoResult (ℕ × ℕ)) → ℕ × ℕ = elim [
      | none ↦ (0, 0)
      | some r ↦ elim r [ ok p ↦ p | err x ↦ (0, 0) ]
    ] in
    let same = ap counts e in (ap (λ p. returned (ok p.0)) same, ap (λ p. returned (ok p.1)) same)

-- However the two threads take turns: when the tunnel returns its two counts they are the numbers of bytes
-- that were passed each way. What was passed are the first of the bytes that the client and the server
-- sent, and those of one of the two were all passed.
pub tunnel-passed :
    (a b : Bytes) (to back : Direction) (n m : ℕ)
    → Reachable a b to back
    → tunnel to back ≡ some (ok (n, m))
    → ((n ≡ length to.passed) × (m ≡ length back.passed))
      × ((a ≡ to.passed ++ to.pending) × (b ≡ back.passed ++ back.pending))
      × ((a ≡ to.passed) ⊎ (b ≡ back.passed))
tunnel-passed a b to back n m run e =
    let h = Reachable-IsTunnel a b to back run in
    let (f, g) = joined-returned to.thread back.thread n m e in
    (
      (
        subst (λ t. Counted t to.passed) f h.there.counted,
        subst (λ t. Counted t back.passed) g h.back_again.counted,
      ),
      (h.there.whole, h.back_again.whole),
      elim (h.first (inl (n, f))) [
        | inl (empty, closed) ↦
            inl (h.there.whole ∙ ap (λ l. to.passed ++ l) empty ∙ append-nil to.passed)
        | inr (empty, closed) ↦
            inr (h.back_again.whole ∙ ap (λ l. back.passed ++ l) empty ∙ append-nil back.passed)
      ],
    )
