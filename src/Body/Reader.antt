-- ===== src/Body/Reader.antt =====
-- body.rs, BodyReader: a body as a `Read`.
pub mod Laws
use touche.Base.{
  ℕ, zero, suc, Option, none, some, List, [], ◌∷◌, ◌++◌, Bytes, take, drop, length, ltb,
  if◌then◌else◌,
}
use touche.Base.Result.{Result, ok, err, Act}
use touche.Io.{IoError, Stream, of_bytes, read}
use touche.Body.{IoResult}

-- BodyReaderInner. A cursor is the bytes that it has still to give.
pub data BodyReader : Type 0 where
  buffered : Bytes → BodyReader
  iter : List (IoResult Bytes) → Option Bytes → BodyReader
  reader : Stream → BodyReader

-- BodyReader::from_iter, over an iterator of the given buffers.
unfoldable pub from_iter : List Bytes → BodyReader
from_iter [] = iter [] none
from_iter (b ∷ bs) = iter (oks bs) (some b)
  where
    oks : List Bytes → List (IoResult Bytes)
    oks = elim [ [] ↦ [] | x ∷ (xs → ih) ↦ ok x ∷ ih ]

-- BodyReader::from_reader
abbrev pub from_read : Stream → BodyReader
from_read s = reader s

-- From<Vec<u8>> for BodyReader
abbrev pub from_vec : Bytes → BodyReader
from_vec bs = buffered bs

-- The loop over the leftover cursor: an exhausted cursor is replaced by the next item, and an error of
-- the iterator ends the reading like its end.
unfoldable pub read_iter : ℕ → List (IoResult Bytes) → Bytes → Bytes × BodyReader
read_iter n [] cur =
    if ltb 0 (length (take n cur))
    then (take n cur, iter [] (some (drop n cur)))
    else ([], iter [] none)
read_iter n (ok next ∷ items) cur =
    let later = read_iter n items next in
    if ltb 0 (length (take n cur))
    then (take n cur, iter (ok next ∷ items) (some (drop n cur)))
    else later
read_iter n (err e ∷ items) cur =
    if ltb 0 (length (take n cur))
    then (take n cur, iter (err e ∷ items) (some (drop n cur)))
    else ([], iter items none)

-- Read for BodyReader, with a buffer of n bytes.
unfoldable pub read_body : ℕ → Act BodyReader IoError Bytes
unfolding read_iter read
read_body n (buffered bs) = (ok (take n bs), buffered (drop n bs))
read_body n (reader s) = let (r, s') = read n s in (r, reader s')
read_body n (iter items none) = (ok [], iter items none)
read_body n (iter items (some cur)) = let (k, r) = read_iter n items cur in (ok k, r)

-- What an iterator of buffers holds before its first error.
unfoldable pub until_error : List (IoResult Bytes) → Bytes
until_error [] = []
until_error (ok b ∷ items) = b ++ until_error items
until_error (err e ∷ items) = []

-- What reading the body to its end gives.
unfoldable pub contents : BodyReader → Stream
unfolding until_error
contents (buffered bs) = of_bytes bs
contents (iter items none) = of_bytes []
contents (iter items (some cur)) = of_bytes (cur ++ until_error items)
contents (reader s) = s
