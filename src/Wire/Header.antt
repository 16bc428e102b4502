-- ===== src/Wire/Header.antt =====
-- The headers that can go over the wire and come back: RFC 7230 names and values, as http::HeaderName
-- and http::HeaderValue hold them.
use mathlib.Core.List.{reverse}
use touche.Base.{
  ℕ, ◌<◌, ◌≡◌, ◌≢◌, refl, ap, List, [], ◌∷◌, ◌++◌, map, append_assoc, arith, Bool, true, false, not,
  ◌&&◌, ◌||◌, Bytes, length, length-append, All, codes, lf, ltb, leb, ◌==◌, replicate, zero, suc,
}
use touche.Wire.{header_line, header_lines}
use touche.Wire.Laws.{NoLf, NoLf-append}
use touche.Head.{take_filled}
use touche.Head.Lines.{IsLine, lines}

is_alphanumeric : ℕ → Bool
is_alphanumeric b = (leb 48 b && leb b 57) || ((leb 65 b && leb b 90) || (leb 97 b && leb b 122))

-- The marks of a token: ! # $ % & ' * + - . ^ _ ` | ~
is_mark : ℕ → Bool
is_mark b =
    b == 33
    || ((leb 35 b && leb b 39)
        || (b == 42
            || (b == 43
                || (b == 45 || (b == 46 || ((leb 94 b && leb b 96) || (b == 124 || b == 126)))))))

unfoldable pub is_token : ℕ → Bool
unfolding is_alphanumeric is_mark
is_token b = is_alphanumeric b || is_mark b

unfoldable pub is_value_byte : ℕ → Bool
is_value_byte b = b == 9 || (leb 32 b && (ltb b 256 && not (b == 127)))

unfoldable pub starts_blank : Bytes → Bool
starts_blank [] = false
starts_blank (b ∷ bs) = b == 32 || b == 9

pub record IsHeader (h : Bytes × Bytes) : Type 0 where
  pub named : 0 < length h.0
  pub token : All (λ b. is_token b ≡ true) h.0
  pub printable : All (λ b. is_value_byte b ≡ true) h.1
  pub trimmed : starts_blank h.1 ≡ false
  pub trimmed_end : starts_blank (reverse h.1) ≡ false

-- The line of a header without its line end.
abbrev pub header_text : Bytes × Bytes → Bytes
header_text h = h.0 ++ (codes ": " ++ h.1)

token_ne_lf : (b : ℕ) → is_token b ≡ true → b ≢ lf
unfolding is_token
token_ne_lf b h e = let no : is_token lf ≡ false = refl in cc (h, ap is_token e, no)

value_ne_lf : (b : ℕ) → is_value_byte b ≡ true → b ≢ lf
unfolding is_value_byte
value_ne_lf b h e = let no : is_value_byte lf ≡ false = refl in cc (h, ap is_value_byte e, no)

pub token-NoLf : (bs : Bytes) → All (λ b. is_token b ≡ true) bs → NoLf bs
token-NoLf [] h = tt
token-NoLf (b ∷ bs) h = (token_ne_lf b h.0, token-NoLf bs h.1)

value-NoLf : (bs : Bytes) → All (λ b. is_value_byte b ≡ true) bs → NoLf bs
value-NoLf [] h = tt
value-NoLf (b ∷ bs) h = (value_ne_lf b h.0, value-NoLf bs h.1)

IsHeader-IsLine : (h : Bytes × Bytes) → IsHeader h → IsLine (header_text h)
IsHeader-IsLine h v = (
  omega (arith, length-append h.0 (codes ": " ++ h.1), v.named),
  NoLf-append h.0 (codes ": " ++ h.1) (token-NoLf h.0 v.token)
      (NoLf-append (codes ": ") h.1 (omega arith) (value-NoLf h.1 v.printable)),
)

pub header_lines-IsLine :
    (hs : List (Bytes × Bytes)) → All IsHeader hs → All IsLine (map header_text hs)
header_lines-IsLine [] v = tt
header_lines-IsLine (h ∷ hs) v = (IsHeader-IsLine h v.0, header_lines-IsLine hs v.1)

pub header_lines-lines : (hs : List (Bytes × Bytes)) → header_lines hs ≡ lines (map header_text hs)
unfolding header_lines header_line
header_lines-lines [] = refl
header_lines-lines (h ∷ hs) = rw (header_lines-lines hs) (simp append_assoc)

-- Of the header slots those that a head filled are taken.
pub take_filled-slots :
    (hs : List (Bytes × Bytes)) (n : ℕ)
    → All IsHeader hs
    → take_filled (hs ++ replicate n ([], [])) ≡ hs
unfolding take_filled
take_filled-slots [] zero v = refl
take_filled-slots [] (suc n) v = refl
take_filled-slots (([], value) ∷ hs) n v = absurd (omega (arith, v.0.named))
take_filled-slots ((b ∷ name, value) ∷ hs) n v =
    ap (λ l. (b ∷ name, value) ∷ l) (take_filled-slots hs n v.1)
