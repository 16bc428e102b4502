-- ===== src/Io/Laws.antt =====
-- What a read takes off a stream.
use touche.Base.{
  ℕ, ◌+◌, ◌≤◌, ◌<◌, ◌≡◌, some, [], ◌∷◌, ◌++◌, append-nil, arith, Bytes, ◌==◌, length, length-drop,
  Option-cases, inl, inr, true,
}
use touche.Base.Result.{ok}
use touche.Io.{Stream, split_line, read_line, read_exact}

length-split_line : (bs l r : Bytes) → split_line bs ≡ some (l, r) → length l + length r ≡ length bs
unfolding split_line
length-split_line [] l r h = ground arith
length-split_line (b ∷ bs) l r h = elim (Option-cases (split_line bs)) [
  | inl e ↦ ground arith
  | inr ((l', r'), e) ↦ ground (arith, length-split_line bs l' r' e)
]

-- A line that was read is off the stream.
pub length-read_line :
    (s : Stream) (l : Bytes)
    → (read_line s).0 ≡ ok l
    → length l + length (read_line s).1.rest ≡ length s.rest
unfolding read_line
length-read_line s l h = elim (Option-cases (split_line s.rest)) [
  | inl e ↦ ground arith
  | inr ((l', r'), e) ↦ ground (arith, length-split_line s.rest l' r' e)
]

pub read_line-le : (s : Stream) → length (read_line s).1.rest ≤ length s.rest
unfolding read_line
read_line-le s = elim (Option-cases (split_line s.rest)) [
  | inl e ↦ ground arith
  | inr ((l', r'), e) ↦ ground (arith, length-split_line s.rest l' r' e)
]

pub read_exact-le : (n : ℕ) (s : Stream) → length (read_exact n s).1.rest ≤ length s.rest
unfolding read_exact
read_exact-le n s = ground (arith, length-drop n s.rest)

append-split_line : (bs l r : Bytes) → split_line bs ≡ some (l, r) → l ++ r ≡ bs
unfolding split_line
append-split_line [] l r h = ground arith
append-split_line (b ∷ bs) l r h = elim (Option-cases (split_line bs)) [
  | inl e ↦ ground arith
  | inr ((l', r'), e) ↦ ground (arith, append-split_line bs l' r' e)
]

-- A line that was read and what is left are the bytes that there were.
pub append-read_line :
    (s : Stream) (l : Bytes) → (read_line s).0 ≡ ok l → l ++ (read_line s).1.rest ≡ s.rest
unfolding read_line
append-read_line s l h = elim (Option-cases (split_line s.rest)) [
  | inl e ↦ ground (arith, append-nil s.rest)
  | inr ((l', r'), e) ↦ ground (arith, append-split_line s.rest l' r' e)
]

split_line-nonempty : (bs l r : Bytes) → split_line bs ≡ some (l, r) → 0 < length l
unfolding split_line
split_line-nonempty [] l r h = ground arith
split_line-nonempty (b ∷ bs) l r h = elim (Option-cases (split_line bs)) [
  | inl e ↦ ground arith
  | inr ((l', r'), e) ↦ ground arith
]

-- An empty line is read at the end only.
pub read_line-empty :
    (s : Stream) (l : Bytes)
    → (read_line s).0 ≡ ok l
    → (length l == 0) ≡ true
    → (read_line s).1.rest ≡ []
unfolding read_line
read_line-empty s l e h = elim (Option-cases (split_line s.rest)) [
  | inl f ↦ ground arith
  | inr ((l', r'), f) ↦ ground (arith, split_line-nonempty s.rest l' r' f)
]
