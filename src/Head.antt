-- ===== src/Head.antt =====
-- The part that request.rs and response.rs share: the head of a message is read up to the blank line,
-- and its headers are collected.
pub mod Fuel
pub mod Lines
pub mod Sent
use mathlib.Core.List.{reverse}
use touche.Base.{
  ℕ, zero, suc, Option, none, some, List, [], ◌∷◌, ◌++◌, Bool, true, false, ◌&&◌, ◌||◌, Bytes,
  length, is_nil, ◌==◌, cr, lf, if◌then◌else◌,
}
use touche.Base.Result.{Result, ok, err, Act}
use touche.Io.{IoError, Stream, read_line}
use touche.Crates.{Crates, Version, http_10, http_11}

-- request.rs: ParseError
pub data ParseError : Type 0 where
  connection_closed : ParseError
  io : IoError → ParseError
  invalid incomplete_request : ParseError
  unsupported_http_version : ℕ → ParseError
  invalid_transfer_encoding invalid_header unknown : ParseError

-- The slice patterns, on the buffer read backwards: `[.., b'\n', b'\n']`, `[.., b'\r', b'\n', b'\r', b'\n']`.
starts_lf_cr : Bytes → Bool
starts_lf_cr (a ∷ b ∷ rest) = a == lf && b == cr
starts_lf_cr _ = false

unfoldable pub blank_backwards : Bytes → Bool
unfolding starts_lf_cr
blank_backwards (a ∷ b ∷ rest) = a == lf && (b == lf || (b == cr && starts_lf_cr rest))
blank_backwards _ = false

unfoldable pub ends_head : Bytes → Bool
unfolding blank_backwards
ends_head buf = blank_backwards (reverse buf)

-- The loop that reads lines into the buffer.
unfoldable pub read_lines : ℕ → Bytes → Act Stream IoError Bytes
read_lines zero buf s = (ok buf, s)
read_lines (suc fuel) buf s =
    let (l, s') = read_line s in
    elim l [
      | err e ↦ (err e, s')
      | ok line ↦
          let more : Result IoError Bytes × Stream = read_lines fuel (buf ++ line) s' in
          let read : Result IoError Bytes × Stream =
            if ends_head (buf ++ line) then (ok (buf ++ line), s') else more in
          if length line == 0 then (ok buf, s') else read
    ]

unfoldable pub read_head : Act Stream IoError Bytes
read_head s = read_lines (suc (length s.rest)) [] s

-- take_while(|header| *header != httparse::EMPTY_HEADER)
unfoldable pub take_filled : List (Bytes × Bytes) → List (Bytes × Bytes)
take_filled [] = []
take_filled ((name, value) ∷ slots) =
    let filled : List (Bytes × Bytes) = (name, value) ∷ take_filled slots in
    if is_nil name && is_nil value then [] else filled

-- The match on the version number.
unfoldable pub http_version : ℕ → Result ParseError Version
http_version v =
    if v == 0 then ok http_10 else if v == 1 then ok http_11 else err (unsupported_http_version v)

module _ (c : Crates) where
  open c use {HeaderMap, append}

  -- fold(builder, |builder, (name, value)| builder.header(name, value)), `none` for a builder in error.
  unfoldable pub add_headers : HeaderMap → List (Bytes × Bytes) → Option HeaderMap
  add_headers h [] = some h
  add_headers h ((name, value) ∷ more) = elim (append h name value) [
    | none ↦ none
    | some h' ↦ add_headers h' more
  ]
