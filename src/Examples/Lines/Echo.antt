-- ===== src/Examples/Lines/Echo.antt =====
-- What comes back over a connection of lines.
use mathlib.Core.List.{reverse, reverse-append, reverse-reverse}
use touche.Base.{
  ℕ, zero, suc, ◌<◌, ◌≡◌, refl, ap, ◌∙◌, Option, none, some, List, [], ◌∷◌, ◌++◌, map, append_assoc,
  append-nil, arith, Bool, true, false, Bytes, codes, is_nil, length, concat, cr, lf, crlf, All,
  Bool-cases, inl, inr,
}
use touche.Base.Result.{ok}
use touche.Io.{IoError, Stream, Sink, with_rest, open_sink, read_line, split_line, write_all, flush}
use touche.Wire.Laws.{NoLf, NoLf-append, read_line-append}
use touche.Examples.Chat.{same_text}
use touche.Examples.Lines.{drop_cr, drop_end, strip_line, echo_lines}

-- How a line ends: "\r\n" or "\n".
abbrev pub line_end : Bool → Bytes
line_end true = crlf
line_end false = lf ∷ []

abbrev pub line : Bytes × Bool → Bytes
line (text, end) = text ++ line_end end

strip_line-line :
    (text : Bytes) (end : Bool)
    → drop_cr (reverse text) ≡ reverse text
    → strip_line (text ++ line_end end) ≡ text
unfolding strip_line drop_end drop_cr
strip_line-line text true kept = rw (reverse-append text crlf) (reverse-reverse text)
strip_line-line text false kept =
    rw (reverse-append text (lf ∷ [])) (ap reverse kept ∙ reverse-reverse text)

read_line-line :
    (s : Stream) (text : Bytes) (end : Bool) (r : Bytes)
    → NoLf text
    → read_line (with_rest s (text ++ (line_end end ++ r)))
      ≡ (ok (text ++ line_end end), with_rest s r)
read_line-line s text true r h =
    let e = read_line-append s (text ++ cr ∷ []) r (NoLf-append text (cr ∷ []) h (omega arith)) in
    simp append_assoc at e
read_line-line s text false r h = read_line-append s text r h

line-filled : (text : Bytes) (end : Bool) → is_nil (text ++ line_end end) ≡ false
line-filled [] true = refl
line-filled [] false = refl
line-filled (b ∷ text) end = refl

module _ (is_utf8 : Bytes → Bool) where
  -- A line that is echoed: it is text, it is not the word "quit", and it does not itself end in a
  -- carriage return.
  pub record IsEchoed (l : Bytes × Bool) : Type 0 where
    pub unbroken : NoLf l.0
    pub kept : drop_cr (reverse l.0) ≡ reverse l.0
    pub decoded : is_utf8 (line l) ≡ true
    pub unquit : same_text l.0 (codes "quit") ≡ false

  -- What ends the handler: the end of the connection or an error, a line that is no text, or the word
  -- "quit" on a line of its own.
  pub data Stops : Bytes → Type 0 where
    hung_up : Stops []
    garbled :
        (text : Bytes) (end : Bool) (r : Bytes)
        → NoLf text
        → is_utf8 (line (text, end)) ≡ false
        → Stops (text ++ (line_end end ++ r))
    quit : (end : Bool) (r : Bytes) → Stops (codes "quit" ++ (line_end end ++ r))

  echo_lines-over :
      (fuel : ℕ) (fault : Option IoError) (bursts : List ℕ) (w : Sink)
      → echo_lines is_utf8 (suc fuel) (record { rest = []; fault = fault; bursts = bursts }) w
        ≡ some (ok tt, w)
  unfolding echo_lines read_line split_line
  echo_lines-over fuel none bursts w = refl
  echo_lines-over fuel (some e) bursts w = refl

  echo_lines-Stops :
      (fuel : ℕ) (s : Stream) (w : Sink) (rest : Bytes)
      → Stops rest
      → echo_lines is_utf8 (suc fuel) (with_rest s rest) w ≡ some (ok tt, w)
  unfolding echo_lines same_text
  echo_lines-Stops fuel s w rest hung_up = echo_lines-over fuel s.fault s.bursts w
  echo_lines-Stops fuel s w rest (garbled text end r unbroken undecoded) =
      rw (read_line-line s text end r unbroken, echo_lines)
        (rw (line-filled text end) (rw undecoded refl))
  echo_lines-Stops fuel s w rest (quit end r) =
      let text = codes "quit" in
      let stripped : same_text (strip_line (text ++ line_end end)) text ≡ true =
        rw (strip_line-line text end refl) refl in
      rw (read_line-line s text end r (omega arith), echo_lines)
        (rw stripped (elim (Bool-cases (is_utf8 (text ++ line_end end))) [
          | inl decoded ↦ rw decoded refl
          | inr undecoded ↦ rw undecoded refl
        ]))

  echo_lines-line :
      (fuel : ℕ) (s : Stream) (o : Bytes) (l : Bytes × Bool) (r : Bytes)
      → IsEchoed l
      → echo_lines is_utf8 (suc fuel) (with_rest s (line l ++ r)) (open_sink o)
        ≡ echo_lines is_utf8 fuel (with_rest s r) (open_sink (o ++ (l.0 ++ lf ∷ [])))
  unfolding echo_lines write_all flush
  echo_lines-line fuel s o (text, end) r h = rw (append_assoc text (line_end end) r) (
      rw (read_line-line s text end r h.unbroken, echo_lines)
        (rw (line-filled text end, h.decoded, strip_line-line text end h.kept)
          (rw h.unquit (
            ap (λ p. echo_lines is_utf8 fuel p.1 (open_sink (o ++ (text ++ lf ∷ []))))
              (read_line-line s text end r h.unbroken)))))

  -- Each line comes back with a line feed as its end, in the order of the lines, up to what ends the
  -- handler, and nothing behind that. The lines are text without a carriage return at their end, none of
  -- them is the word "quit", the connection takes everything, and more rounds are allowed than there are
  -- lines.
  pub echo_lines-lines :
      (fuel : ℕ) (s : Stream) (o : Bytes) (ls : List (Bytes × Bool)) (rest : Bytes)
      → All IsEchoed ls
      → Stops rest
      → length ls < fuel
      → echo_lines is_utf8 fuel (with_rest s (concat (map line ls) ++ rest)) (open_sink o)
        ≡ some (ok tt, open_sink (o ++ concat (map (λ l. l.0 ++ lf ∷ []) ls)))
  echo_lines-lines zero s o ls rest h stops k = absurd (omega arith)
  echo_lines-lines (suc fuel) s o [] rest h stops k =
      rw (append-nil o) (echo_lines-Stops fuel s (open_sink o) rest stops)
  echo_lines-lines (suc fuel) s o (l ∷ ls) rest h stops k =
      let more = echo_lines-lines fuel s (o ++ (l.0 ++ lf ∷ [])) ls rest h.1 stops (omega arith) in
      rw (append_assoc (line l) (concat (map line ls)) rest)
        (echo_lines-line fuel s o l (concat (map line ls) ++ rest) h.0 ∙ more ∙ simp append_assoc)
