-- ===== src/Wire/Laws.antt =====
-- How a line of this text is read back by `BufRead::read_until`.
use touche.Base.{◌≡◌, ◌≢◌, refl, some, [], ◌∷◌, ◌++◌, Bytes, arith, lf, All}
use touche.Base.Result.{ok}
use touche.Io.{Stream, read_line, split_line, with_rest}

-- No byte is a line feed.
abbrev pub NoLf : Bytes → Type 0
NoLf = All (λ b. b ≢ lf)

pub NoLf-append : (xs ys : Bytes) → NoLf xs → NoLf ys → NoLf (xs ++ ys)
NoLf-append [] ys hx hy = hy
NoLf-append (x ∷ xs) ys hx hy = (hx.0, NoLf-append xs ys hx.1 hy)

-- A line is what stands before the first line feed.
pub split_line-append : (l r : Bytes) → NoLf l → split_line (l ++ lf ∷ r) ≡ some (l ++ lf ∷ [], r)
unfolding split_line
split_line-append [] r h = refl
split_line-append (b ∷ l) r h = ground (arith, split_line-append l r h.1, h.0)

pub read_line-append :
    (s : Stream) (l r : Bytes)
    → NoLf l
    → read_line (with_rest s (l ++ lf ∷ r)) ≡ (ok (l ++ lf ∷ []), with_rest s r)
unfolding read_line
read_line-append s l r h = rw (split_line-append l r h, read_line)
