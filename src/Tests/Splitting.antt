-- ===== src/Tests/Splitting.antt =====
-- How the concrete instance splits heads: at the first separator, and into header lines.
use touche.Base.{
  ℕ, zero, suc, ◌-◌, ◌≤◌, ◌<◌, ◌≡◌, ◌≢◌, refl, ap, ◌∙◌, [], ◌∷◌, ◌++◌, append_assoc, arith, Bytes,
  codes, cr, lf, crlf, length, length-append, Bool, true, false, All, replicate,
}
use touche.Wire.{header_line, header_lines}
use touche.Wire.Header.{IsHeader, is_token, is_value_byte}
use touche.Tests.Sample.{Pairs, split, drop_blank, header_pairs, slots}

-- No byte is the separator.
abbrev pub Lacks : ℕ → Bytes → Type 0
Lacks sep = All (λ b. b ≢ sep)

pub Lacks-append : (sep : ℕ) (xs ys : Bytes) → Lacks sep xs → Lacks sep ys → Lacks sep (xs ++ ys)
Lacks-append sep [] ys h k = k
Lacks-append sep (x ∷ xs) ys h k = (h.0, Lacks-append sep xs ys h.1 k)

pub split-append : (sep : ℕ) (xs ys : Bytes) → Lacks sep xs → split sep (xs ++ sep ∷ ys) ≡ (xs, ys)
unfolding split
split-append sep [] ys h = ground arith
split-append sep (x ∷ xs) ys h = ground (arith, h.0, split-append sep xs ys h.1)

-- What holds of every byte of a class, for a separator that is not of it.
pub class-Lacks :
    (p : ℕ → Bool) (sep : ℕ) (xs : Bytes) → p sep ≡ false → All (λ b. p b ≡ true) xs → Lacks sep xs
class-Lacks p sep [] off h = tt
class-Lacks p sep (x ∷ xs) off h = ((λ e. cc (ap p e, h.0, off)), class-Lacks p sep xs off h.1)

drop_blank-value : (v : Bytes) → drop_blank (32 ∷ v) ≡ v
unfolding drop_blank
drop_blank-value v = refl

header_pairs-line :
    (fuel : ℕ) (h : Bytes × Bytes) (rest : Bytes)
    → IsHeader h
    → header_pairs (suc fuel) (header_line h ++ rest) ≡ h ∷ header_pairs fuel rest
unfolding header_pairs header_line is_token is_value_byte
header_pairs-line fuel (name, val) rest v =
    let token_lf = class-Lacks is_token lf name refl v.token in
    let token_colon = class-Lacks is_token 58 name refl v.token in
    let value_lf = class-Lacks is_value_byte lf val refl v.printable in
    let value_cr = class-Lacks is_value_byte cr val refl v.printable in
    let line = name ++ (58 ∷ 32 ∷ (val ++ cr ∷ [])) in
    let whole : header_line (name, val) ++ rest ≡ line ++ lf ∷ rest = simp append_assoc in
    let line_lf : Lacks lf line =
      Lacks-append lf name _ token_lf
        (omega arith, (omega arith, Lacks-append lf val (cr ∷ []) value_lf (omega arith, tt))) in
    rw (whole, header_pairs)
      (rw (split-append lf line rest line_lf) (
        rw (split-append 58 name (32 ∷ (val ++ cr ∷ [])) token_colon)
          (rw (split-append cr (32 ∷ val) [] (omega arith, value_cr)) (rw (drop_blank-value val)))))

header_pairs-lines :
    (hs : Pairs) (fuel : ℕ)
    → All IsHeader hs
    → length hs < fuel
    → header_pairs fuel (header_lines hs ++ crlf) ≡ hs
unfolding header_lines
header_pairs-lines hs zero v h = absurd (omega arith)
header_pairs-lines [] (suc fuel) v h = unfold header_pairs split in refl
header_pairs-lines (g ∷ hs) (suc fuel) v h =
    rw (append_assoc (header_line g) (header_lines hs) crlf) (
      header_pairs-line fuel g (header_lines hs ++ crlf) v.0
      ∙ ap (λ l. g ∷ l) (header_pairs-lines hs fuel v.1 (omega arith)))

length-header_lines : (hs : Pairs) → length hs ≤ length (header_lines hs)
unfolding header_lines header_line
length-header_lines [] = omega arith
length-header_lines (h ∷ hs) = omega (
  arith,
  length-append (header_line h) (header_lines hs),
  length-append h.0 (codes ": " ++ (h.1 ++ crlf)),
  length-header_lines hs,
)

pub slots-lines :
    (hs : Pairs)
    → All IsHeader hs
    → slots (header_pairs (length (header_lines hs ++ crlf)) (header_lines hs ++ crlf))
      ≡ hs ++ replicate (64 - length hs) ([], [])
slots-lines hs v = ap slots (
    header_pairs-lines hs (length (header_lines hs ++ crlf)) v
      (omega (arith, length-append (header_lines hs) crlf, length-header_lines hs)))
