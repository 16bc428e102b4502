-- ===== src/Body/Reader/Laws.antt =====
-- Reading a body piece by piece gives its contents, whatever the sizes of the reads.
use touche.Base.{
  ℕ, zero, suc, ◌<◌, ◌≡◌, refl, ap, inl, inr, Option, none, some, List, [], ◌∷◌, ◌++◌, arith, Bytes,
  take, drop, length, length-append, take-append-drop, append_assoc, Bool-cases, ltb, true, false,
}
use touche.Base.Result.{ok, err, and_then}
use touche.Io.{IoError, Stream, of_bytes, read_parts, burst}
use touche.Body.{IoResult}
use touche.Body.Reader.{
  BodyReader, buffered, iter, reader, read_iter, read_body, until_error, contents,
}

take_nil : (n : ℕ) (bs : Bytes) → ltb 0 (length (take (suc n) bs)) ≡ false → bs ≡ []
take_nil n [] h = refl
take_nil n (b ∷ bs) h = ground arith

take-drop_append : (n : ℕ) (xs ys : Bytes) → take n xs ++ (drop n xs ++ ys) ≡ xs ++ ys
take-drop_append n xs ys = rw (← append_assoc (take n xs) (drop n xs) ys, take-append-drop n xs)

-- What one call of `read` may do, by its result: it gives the next bytes, or it gives none, at the end
-- of the contents, or it reports the error that ends them.
abbrev pub Delivers : IoResult Bytes × BodyReader → Stream → Type 0
Delivers (ok [], r) s = (s.rest ≡ []) × (s.fault ≡ none) × ((contents r).rest ≡ [])
Delivers (ok (b ∷ bs), r) s =
    ((b ∷ bs) ++ (contents r).rest ≡ s.rest) × ((contents r).fault ≡ s.fault)
Delivers (err e, r) s = (s.rest ≡ []) × (s.fault ≡ some e)

-- A cursor that is not exhausted gives the head of what it holds, in front of `more`.
cursor-Delivers :
    (n : ℕ) (cur more : Bytes) (r : BodyReader)
    → contents r ≡ of_bytes (drop (suc n) cur ++ more)
    → ltb 0 (length (take (suc n) cur)) ≡ true
    → Delivers (ok (take (suc n) cur), r) (of_bytes (cur ++ more))
cursor-Delivers n [] more r e h = ground arith
cursor-Delivers n (b ∷ cur) more r e h = rw e (ap (λ l. b ∷ l) (take-drop_append n cur more), refl)

read_iter-Delivers :
    (n : ℕ) (items : List (IoResult Bytes)) (cur : Bytes)
    → let (k, r) = read_iter (suc n) items cur in
      Delivers (ok k, r) (of_bytes (cur ++ until_error items))
unfolding read_iter contents
read_iter-Delivers n [] cur = elim (Bool-cases (ltb 0 (length (take (suc n) cur)))) [
  | inl h ↦ rw h (cursor-Delivers n cur [] _ refl h)
  | inr h ↦ rw (h, take_nil n cur h) (refl, refl, refl)
]
read_iter-Delivers n (ok next ∷ items) cur = elim (Bool-cases (ltb 0 (length (take (suc n) cur)))) [
  | inl h ↦ rw h (cursor-Delivers n cur (next ++ until_error items) _ refl h)
  | inr h ↦ rw (h, take_nil n cur h) (read_iter-Delivers n items next)
]
read_iter-Delivers n (err e ∷ items) cur = elim (Bool-cases (ltb 0 (length (take (suc n) cur)))) [
  | inl h ↦ rw h (cursor-Delivers n cur [] _ refl h)
  | inr h ↦ rw (h, take_nil n cur h) (refl, refl, refl)
]

pub read_parts-Delivers :
    (n : ℕ) (rest : Bytes) (fault : Option IoError) (bursts : List ℕ)
    → let (k, s) = read_parts n rest fault bursts in
      Delivers (k, reader s) (record { rest = rest; fault = fault; bursts = bursts })
unfolding contents read_parts
read_parts-Delivers n [] none bursts = (refl, refl, refl)
read_parts-Delivers n [] (some e) bursts = (refl, refl)
read_parts-Delivers n (b ∷ bs) fault bursts =
    (ap (λ l. b ∷ l) (take-append-drop (burst n bursts) bs), refl)

-- Every read of a body with room for a byte gives the next bytes of its contents, or stands at their
-- end, or reports the error that ends them.
pub read_body-Delivers : (n : ℕ) (r : BodyReader) → Delivers (read_body (suc n) r) (contents r)
unfolding read_body contents
read_body-Delivers n (buffered []) = (refl, refl, refl)
read_body-Delivers n (buffered (b ∷ bs)) = (ap (λ l. b ∷ l) (take-append-drop n bs), refl)
read_body-Delivers n (iter items none) = (refl, refl, refl)
read_body-Delivers n (iter items (some cur)) = read_iter-Delivers n items cur
read_body-Delivers n (reader s) = read_parts-Delivers n s.rest s.fault s.bursts

-- What the calls give together: all bytes, or the error that follows them.
abbrev pub whole : Bytes → Option IoError → IoResult Bytes
whole bs none = ok bs
whole bs (some e) = err e

-- One call's result in front of what the later calls give.
unfoldable pub round : IoResult Bytes → IoResult Bytes → IoResult Bytes
round (err e) rest = err e
round (ok []) rest = ok []
round (ok (b ∷ bs)) rest = and_then rest λ more. ok ((b ∷ bs) ++ more)

-- Calls of `read` until one gives no byte or an error, the buffer of each call of a size of its own.
unfoldable pub read_all : ℕ → (ℕ → ℕ) → BodyReader → IoResult Bytes
unfolding round
read_all zero size r = ok []
read_all (suc fuel) size r =
    let (k, r') = read_body (suc (size fuel)) r in
    let rest : IoResult Bytes = read_all fuel size r' in round k rest

whole-append :
    (xs ys : Bytes) (f : Option IoError)
    → and_then (whole ys f) (λ more. ok (xs ++ more)) ≡ whole (xs ++ ys) f
whole-append xs ys none = refl
whole-append xs ys (some e) = refl

pub round-whole :
    (k : IoResult Bytes) (r : BodyReader) (s : Stream) (rest : IoResult Bytes)
    → Delivers (k, r) s
    → (length (contents r).rest < length s.rest → rest ≡ whole (contents r).rest (contents r).fault)
    → round k rest ≡ whole s.rest s.fault
unfolding round
round-whole (err e) r s rest d h = rw d.1
round-whole (ok []) r s rest d h = rw (d.0, d.1)
round-whole (ok (b ∷ bs)) r s rest d h =
    rw (h (omega (arith, ap length d.0, length-append bs (contents r).rest)))
      (rw (whole-append (b ∷ bs) (contents r).rest (contents r).fault, d.0, d.1))

-- With more reads than there are bytes, reading a body to its end in pieces of any sizes gives its
-- contents, or the error behind them.
pub read_all-contents :
    (fuel : ℕ) (size : ℕ → ℕ) (r : BodyReader)
    → length (contents r).rest < fuel
    → read_all fuel size r ≡ whole (contents r).rest (contents r).fault
unfolding read_all
read_all-contents zero size r h = absurd (omega arith)
read_all-contents (suc fuel) size r h =
    let (k, r') = read_body (suc (size fuel)) r in
    round-whole k r' (contents r) _ (read_body-Delivers (size fuel) r)
      λ shorter. read_all-contents fuel size r' (omega arith)
