-- ===== src/Wire.antt =====
-- The text that request.rs and response.rs write: header lines, and a chunk of a chunked body with
-- its size in the hexadecimal of `{:x}`.
pub mod Hex
pub mod Laws
pub mod Body
pub mod Header
use touche.Base.{ℕ, suc, List, [], ◌∷◌, ◌++◌, Bytes, codes, crlf, length}
use Hex.{hex}

-- format!("{name}: "), the value, "\r\n"
unfoldable pub header_line : Bytes × Bytes → Bytes
header_line (name, val) = name ++ (codes ": " ++ (val ++ crlf))

unfoldable pub header_lines : List (Bytes × Bytes) → Bytes
unfolding header_line
header_lines [] = []
header_lines (h ∷ hs) = header_line h ++ header_lines hs

-- format!("{:x}\r\n", chunk.len()), the chunk, "\r\n"
unfoldable pub chunk_frame : Bytes → Bytes
chunk_frame chunk = hex (length chunk) ++ (crlf ++ (chunk ++ crlf))

unfoldable pub chunk_frames : List Bytes → Bytes
unfolding chunk_frame
chunk_frames [] = []
chunk_frames (c ∷ cs) = chunk_frame c ++ chunk_frames cs

-- b"0\r\n"
abbrev pub last_chunk : Bytes
last_chunk = codes "0" ++ crlf
