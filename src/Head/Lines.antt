-- ===== src/Head/Lines.antt =====
-- A head that is written as lines and a blank line is read back as a whole, and nothing behind it.
use mathlib.Core.List.{reverse, reverse-append, reverse-cons}
use touche.Base.{
  ℕ, zero, suc, ◌≤◌, ◌<◌, ◌≡◌, ◌≢◌, refl, ap, sym, ◌∙◌, List, [], ◌∷◌, ◌++◌, append_assoc, arith,
  Bytes, length, length-append, All, true, false, cr, lf, crlf,
}
use touche.Base.Result.{ok}
use touche.Io.{Stream, with_rest, read_line}
use touche.Wire.Laws.{NoLf, NoLf-append, read_line-append}
use touche.Head.{starts_lf_cr, ends_head, read_lines, read_head}

-- A line that does not end a head: it holds something, and no line feed.
abbrev pub IsLine : Bytes → Type 0
IsLine l = (0 < length l) × NoLf l

-- Lines, each with its line end.
abbrev pub lines : List Bytes → Bytes
lines [] = []
lines (l ∷ ls) = l ++ (crlf ++ lines ls)

NoLf-reverse : (l : Bytes) → NoLf l → NoLf (reverse l)
NoLf-reverse [] h = tt
NoLf-reverse (b ∷ l) h =
    rw (reverse-cons b l) (NoLf-append (reverse l) (b ∷ []) (NoLf-reverse l h.1) (h.0, tt))

starts_lf_cr-NoLf :
    (xs : Bytes) (x : ℕ) (ys : Bytes) → NoLf xs → x ≢ lf → starts_lf_cr (xs ++ x ∷ ys) ≡ false
unfolding starts_lf_cr
starts_lf_cr-NoLf [] x [] h k = refl
starts_lf_cr-NoLf [] x (y ∷ ys) h k = ground arith
starts_lf_cr-NoLf (b ∷ []) x ys h k = ground (arith, h.0)
starts_lf_cr-NoLf (b ∷ a ∷ xs) x ys h k = ground (arith, h.0)

ends_head-crlf : (xs : Bytes) → ends_head (xs ++ crlf) ≡ starts_lf_cr (reverse xs)
unfolding ends_head
ends_head-crlf xs = rw (reverse-append xs crlf)

ends_head-line : (buf l : Bytes) → IsLine l → ends_head (buf ++ (l ++ crlf)) ≡ false
ends_head-line buf [] h = absurd (omega arith)
ends_head-line buf (b ∷ l) h =
    ap ends_head (sym (append_assoc buf (b ∷ l) crlf))
    ∙ ends_head-crlf (buf ++ b ∷ l)
    ∙ simp (reverse-append, reverse-cons, append_assoc)
        (starts_lf_cr-NoLf (reverse l) b (reverse buf) (NoLf-reverse l h.1.1) h.1.0)

ends_head-blank : (pre : Bytes) → ends_head (pre ++ (crlf ++ crlf)) ≡ true
unfolding starts_lf_cr
ends_head-blank pre =
    ap ends_head (sym (append_assoc pre crlf crlf))
    ∙ ends_head-crlf (pre ++ crlf)
    ∙ rw (reverse-append pre crlf)

read_line-line :
    (s : Stream) (l r : Bytes)
    → NoLf l
    → read_line (with_rest s (l ++ (crlf ++ r))) ≡ (ok (l ++ crlf), with_rest s r)
read_line-line s l r h =
    let e = read_line-append s (l ++ cr ∷ []) r (NoLf-append l (cr ∷ []) h (omega arith)) in
    simp append_assoc at e

read_lines-line :
    (fuel : ℕ) (buf l r : Bytes) (s : Stream)
    → IsLine l
    → read_lines (suc fuel) buf (with_rest s (l ++ (crlf ++ r)))
      ≡ read_lines fuel (buf ++ (l ++ crlf)) (with_rest s r)
unfolding read_lines
read_lines-line fuel buf l r s h =
    ground (arith, read_line-line s l r h.1, ends_head-line buf l h, length-append l crlf)

read_lines-blank :
    (fuel : ℕ) (pre r : Bytes) (s : Stream)
    → read_lines (suc fuel) (pre ++ crlf) (with_rest s (crlf ++ r))
      ≡ (ok (pre ++ (crlf ++ crlf)), with_rest s r)
unfolding read_lines
read_lines-blank fuel pre r s =
    ground (arith, read_line-line s [] r tt, append_assoc pre crlf crlf, ends_head-blank pre)

read_lines-lines :
    (fuel : ℕ) (pre : Bytes) (ls : List Bytes) (r : Bytes) (s : Stream)
    → All IsLine ls
    → length ls < fuel
    → read_lines fuel (pre ++ crlf) (with_rest s (lines ls ++ (crlf ++ r)))
      ≡ (ok (pre ++ (crlf ++ (lines ls ++ crlf))), with_rest s r)
read_lines-lines zero pre ls r s h k = absurd (omega arith)
read_lines-lines (suc fuel) pre [] r s h k = read_lines-blank fuel pre r s
read_lines-lines (suc fuel) pre (l ∷ ls) r s h k =
    let step = read_lines-line fuel (pre ++ crlf) l (lines ls ++ (crlf ++ r)) s h.0 in
    let rest = read_lines-lines fuel ((pre ++ crlf) ++ l) ls r s h.1 (omega arith) in
    simp append_assoc ((simp append_assoc at step) ∙ (simp append_assoc at rest))

length-lines : (ls : List Bytes) → length ls ≤ length (lines ls)
length-lines [] = omega arith
length-lines (l ∷ ls) = omega (arith, length-append l (crlf ++ lines ls), length-lines ls)

-- A head of a start line, header lines and a blank line is read whole, whatever follows it, and the
-- stream is left right behind it.
pub read_head-lines :
    (s : Stream) (l : Bytes) (ls : List Bytes) (r : Bytes)
    → All IsLine (l ∷ ls)
    → read_head (with_rest s (lines (l ∷ ls) ++ (crlf ++ r)))
      ≡ (ok (lines (l ∷ ls) ++ crlf), with_rest s r)
unfolding read_head
read_head-lines s l ls r h =
    let more = lines ls ++ (crlf ++ r) in
    let step = read_lines-line (length (lines (l ∷ ls) ++ (crlf ++ r))) [] l more s h.0 in
    let rest = read_lines-lines (length (lines (l ∷ ls) ++ (crlf ++ r))) l ls r s h.1 (
      omega (
        arith,
        length-lines ls,
        length-append (lines (l ∷ ls)) (crlf ++ r),
        length-append l (crlf ++ lines ls),
      )) in
    simp append_assoc ((simp append_assoc at step) ∙ (simp append_assoc at rest))

read_lines-first_blank :
    (fuel : ℕ) (r : Bytes) (s : Stream)
    → read_lines (suc fuel) [] (with_rest s (crlf ++ r)) ≡ read_lines fuel crlf (with_rest s r)
unfolding read_lines starts_lf_cr
read_lines-first_blank fuel r s = ground (arith, read_line-line s [] r tt, ends_head-crlf [])

-- A blank line in front of the start line is read with the head.
pub read_head-blank_lines :
    (s : Stream) (ls : List Bytes) (r : Bytes)
    → All IsLine ls
    → read_head (with_rest s (crlf ++ (lines ls ++ (crlf ++ r))))
      ≡ (ok (crlf ++ (lines ls ++ crlf)), with_rest s r)
unfolding read_head
read_head-blank_lines s ls r h =
    let more = lines ls ++ (crlf ++ r) in
    read_lines-first_blank (length (crlf ++ more)) more s
    ∙ read_lines-lines (length (crlf ++ more)) [] ls r s h
        (omega (arith, length-lines ls, length-append (lines ls) (crlf ++ r)))
