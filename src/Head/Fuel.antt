-- ===== src/Head/Fuel.antt =====
-- The loop that reads a head ends, and takes the head and nothing else off the stream.
use touche.Base.{
  ℕ, zero, suc, ◌<◌, ◌≡◌, refl, [], ◌∷◌, ◌++◌, append_assoc, arith, Bytes, length, ◌==◌, true, ◌⊎◌,
  inl, inr,
}
use touche.Base.Result.{ok, Result-cases}
use touche.Io.{Stream, read_line}
use touche.Io.Laws.{append-read_line, read_line-empty, length-read_line}
use touche.Head.{ends_head, read_lines, read_head}

empty_line : (l r : Bytes) → (length l == 0) ≡ true → l ++ r ≡ r
empty_line [] r h = refl
empty_line (b ∷ l) r h = ground arith

-- With more fuel than bytes, the loop splits the bytes into what it returns and what it leaves. What
-- it returns ends like a head unless nothing is left.
read_lines-cut :
    (fuel : ℕ) (buf out : Bytes) (s : Stream)
    → length s.rest < fuel
    → (read_lines fuel buf s).0 ≡ ok out
    → (out ++ (read_lines fuel buf s).1.rest ≡ buf ++ s.rest)
      × ((ends_head out ≡ true) ⊎ ((read_lines fuel buf s).1.rest ≡ []))
unfolding read_lines
read_lines-cut zero buf out s h e = absurd (omega arith)
read_lines-cut (suc fuel) buf out s h e = elim (Result-cases (read_line s).0) [
  | inl (line, f) ↦
      let r = (read_line s).1.rest in
      ground (
        arith,
        append-read_line s line f,
        length-read_line s line f,
        empty_line line r,
        read_line-empty s line f,
        append_assoc buf line r,
        read_lines-cut fuel (buf ++ line) out (read_line s).1,
      )
  | inr (x, f) ↦ ground arith
]

-- A head that is read takes its own bytes off the stream. It ends with a blank line unless the stream
-- ended first.
pub read_head-cut :
    (s : Stream) (out : Bytes)
    → (read_head s).0 ≡ ok out
    → (out ++ (read_head s).1.rest ≡ s.rest)
      × ((ends_head out ≡ true) ⊎ ((read_head s).1.rest ≡ []))
unfolding read_head
read_head-cut s out e = read_lines-cut (suc (length s.rest)) [] out s (omega arith) e
