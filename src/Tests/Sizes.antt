-- ===== src/Tests/Sizes.antt =====
-- A concrete reader of chunk sizes: hexadecimal digits and a line end.
use touche.Base.{
  ℕ, suc, ◌+◌, ◌*◌, ◌≡◌, ap, ◌∙◌, [], ◌∷◌, ◌++◌, arith, Bytes, crlf, cr, lf, length, ◌==◌,
  if◌then◌else◌,
}
use touche.Crates.{ChunkSize, complete, partial, invalid}
use touche.Crates.Laws.{ReadsSizes}
use touche.Wire.Hex.{hex, hex_value, digit_value, is_hex, IsHex, hex-IsHex, hex_value-hex}

-- What follows the carriage return of a size line.
unfoldable pub line_end : ℕ → ℕ → Bytes → ChunkSize
line_end pos v [] = partial
line_end pos v (b ∷ bs) = if b == lf then complete (pos + 2) v else invalid

unfoldable pub size_at : ℕ → ℕ → Bytes → ChunkSize
unfolding line_end is_hex digit_value
size_at pos v [] = partial
size_at pos v (b ∷ bs) =
    let longer = size_at (suc pos) (v * 16 + digit_value b) bs in
    if is_hex b then longer else if b == cr then line_end pos v bs else invalid

unfoldable pub sample_chunk_size : Bytes → ChunkSize
unfolding size_at
sample_chunk_size = size_at 0 0

size_at-digits :
    (pos v : ℕ) (ds : Bytes)
    → IsHex ds
    → size_at pos v (ds ++ crlf) ≡ complete (length ds + (pos + 2)) (hex_value v ds)
unfolding size_at hex_value line_end
size_at-digits pos v [] h = unfold is_hex in ap (λ n. complete n v) (omega arith)
size_at-digits pos v (d ∷ ds) h =
    rw (h.0, size_at)
      (size_at-digits (suc pos) (v * 16 + digit_value d) ds h.1
        ∙ ap (λ n. complete n (hex_value (v * 16 + digit_value d) ds)) (omega arith))

pub sample-ReadsSizes : ReadsSizes sample_chunk_size
unfolding sample_chunk_size
sample-ReadsSizes = record {
  reads = λ n h.
      size_at-digits 0 0 (hex n) (hex-IsHex n)
      ∙ ap (complete (length (hex n) + 2)) (hex_value-hex n);
}
