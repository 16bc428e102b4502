-- ===== src/Chunked/RoundTrip.antt =====
-- A chunked body that the writers of this crate frame is what `ChunkedReader` decodes.
use touche.Base.{
  ℕ, zero, suc, ◌^◌, ◌≤◌, ◌<◌, ◌≡◌, refl, none, some, List, [], ◌∷◌, ◌++◌, append_assoc, arith,
  Bytes, crlf, cr, length, length-append, take-length_append, drop-length_append, All, true, ◌==◌,
  le→leb, if◌then◌else◌,
}
use touche.Base.Result.{ok}
use touche.Io.{Stream, with_rest, read_line, read_exact}
use touche.Crates.{ChunkSize}
use touche.Crates.Laws.{ReadsSizes}
use touche.Wire.{chunk_frame, chunk_frames, last_chunk}
use touche.Wire.Hex.{hex, hex-IsHex, hex_ne_lf, is_hex}
use touche.Wire.Laws.{NoLf, NoLf-append, read_line-append}
use touche.Chunked.{take_chunk, next, collect_chunks, read_chunks}

-- A chunk whose size line does not end the body, and whose size fits in 64 bits.
abbrev pub IsSendable : Bytes → Type 0
IsSendable c = (0 < length c) × (length c < 2 ^ 64)

hex-NoLf : (ds : Bytes) → All (λ b. is_hex b ≡ true) ds → NoLf ds
hex-NoLf [] h = tt
hex-NoLf (d ∷ ds) h = (hex_ne_lf d h.0, hex-NoLf ds h.1)

pub read_exact-append :
    (s : Stream) (xs ys : Bytes)
    → read_exact (length xs) (with_rest s (xs ++ ys)) ≡ (ok xs, with_rest s ys)
unfolding read_exact
read_exact-append s xs ys =
    rw (le→leb (length xs) (length (xs ++ ys)) (omega (arith, length-append xs ys)), read_exact)
      (rw (take-length_append xs ys, drop-length_append xs ys))

size_line-NoLf : (n : ℕ) → NoLf (hex n ++ cr ∷ [])
size_line-NoLf n = NoLf-append (hex n) (cr ∷ []) (hex-NoLf (hex n) (hex-IsHex n)) (omega arith)

read_line-size :
    (s : Stream) (n : ℕ) (r : Bytes)
    → read_line (with_rest s (hex n ++ (crlf ++ r))) ≡ (ok (hex n ++ crlf), with_rest s r)
read_line-size s n r =
    let e = read_line-append s (hex n ++ cr ∷ []) r (size_line-NoLf n) in simp append_assoc at e

read_line-crlf :
    (s : Stream) (r : Bytes) → read_line (with_rest s (crlf ++ r)) ≡ (ok crlf, with_rest s r)
read_line-crlf s r = read_line-append s (cr ∷ []) r (omega arith)

module _ (parse_chunk_size : Bytes → ChunkSize) (sizes : ReadsSizes parse_chunk_size) where
  take_chunk-append :
      (s : Stream) (c r : Bytes)
      → take_chunk parse_chunk_size (length c) (with_rest s (c ++ (crlf ++ r)))
        ≡ (some c, with_rest s r)
  unfolding take_chunk
  take_chunk-append s c r = ground (arith, read_exact-append s c (crlf ++ r), read_line-crlf s r)

  -- A size line is read off the stream, and decides what follows.
  next-size_line :
      (s : Stream) (n : ℕ) (r : Bytes)
      → n < 2 ^ 64
      → next parse_chunk_size (with_rest s (hex n ++ (crlf ++ r)))
        ≡ (if n == 0 then (none, with_rest s r) else take_chunk parse_chunk_size n (with_rest s r))
  unfolding next
  next-size_line s n r k =
      ground (arith, read_line-size s n r, sizes.reads n k, length-append (hex n) crlf)

  -- A framed chunk is decoded, and nothing behind it is read.
  next-chunk_frame :
      (s : Stream) (c r : Bytes)
      → 0 < length c
      → length c < 2 ^ 64
      → next parse_chunk_size (with_rest s (chunk_frame c ++ r)) ≡ (some c, with_rest s r)
  unfolding chunk_frame
  next-chunk_frame s c r h k =
      simp append_assoc
        (ground (arith, next-size_line s (length c) (c ++ (crlf ++ r)), take_chunk-append s c r))

  next-last_chunk :
      (s : Stream) (r : Bytes)
      → next parse_chunk_size (with_rest s (last_chunk ++ r)) ≡ (none, with_rest s r)
  next-last_chunk s r = unfold hex in next-size_line s 0 r (omega arith)

  collect_chunks-chunk_frames :
      (s : Stream) (cs : List Bytes) (r : Bytes) (fuel : ℕ)
      → All IsSendable cs
      → length cs < fuel
      → collect_chunks parse_chunk_size fuel (with_rest s (chunk_frames cs ++ (last_chunk ++ r)))
        ≡ (cs, with_rest s r)
  unfolding collect_chunks chunk_frames
  collect_chunks-chunk_frames s cs r zero h k = absurd (omega arith)
  collect_chunks-chunk_frames s [] r (suc fuel) h k = ground (arith, next-last_chunk s r)
  collect_chunks-chunk_frames s (c ∷ cs) r (suc fuel) h k =
      rw (append_assoc (chunk_frame c) (chunk_frames cs) (last_chunk ++ r)) (
        ground (
          arith,
          next-chunk_frame s c (chunk_frames cs ++ (last_chunk ++ r)) h.0.0 h.0.1,
          collect_chunks-chunk_frames s cs r fuel h.1,
        ))

length-chunk_frame_pos : (c : Bytes) → 0 < length (chunk_frame c)
unfolding chunk_frame
length-chunk_frame_pos c = omega (arith, length-append (hex (length c)) (crlf ++ (c ++ crlf)))

length-chunk_frames : (cs : List Bytes) → length cs ≤ length (chunk_frames cs)
unfolding chunk_frames
length-chunk_frames [] = omega arith
length-chunk_frames (c ∷ cs) = omega (
  arith,
  length-append (chunk_frame c) (chunk_frames cs),
  length-chunk_frame_pos c,
  length-chunk_frames cs,
)

chunk_frames-append :
    (cs ds : List Bytes) → chunk_frames (cs ++ ds) ≡ chunk_frames cs ++ chunk_frames ds
unfolding chunk_frames
chunk_frames-append [] ds = refl
chunk_frames-append (c ∷ cs) ds =
    rw (chunk_frames-append cs ds, append_assoc (chunk_frame c) (chunk_frames cs) (chunk_frames ds))

module _ (parse_chunk_size : Bytes → ChunkSize) (sizes : ReadsSizes parse_chunk_size) where
  -- Whatever the stream holds behind it, a framed body of non-empty chunks of less than 2 ^ 64 bytes each decodes to its chunks, and
  -- the stream is left right behind the size line of the last chunk.
  pub read_chunks-chunk_frames :
      (s : Stream) (cs : List Bytes) (r : Bytes)
      → All IsSendable cs
      → read_chunks parse_chunk_size (with_rest s (chunk_frames cs ++ (last_chunk ++ r)))
        ≡ (cs, with_rest s r)
  unfolding read_chunks
  read_chunks-chunk_frames s cs r h =
      collect_chunks-chunk_frames parse_chunk_size sizes s cs r _ h
        (omega (arith, length-chunk_frames cs, length-append (chunk_frames cs) (last_chunk ++ r)))

  -- A framed empty chunk behind non-empty ones ends the body for the reader, which is left behind the
  -- size line of that chunk.
  pub read_chunks-empty_chunk :
      (s : Stream) (cs ds : List Bytes) (r : Bytes)
      → All IsSendable cs
      → read_chunks parse_chunk_size (with_rest s (chunk_frames (cs ++ [] ∷ ds) ++ r))
        ≡ (cs, with_rest s (crlf ++ (chunk_frames ds ++ r)))
  unfolding chunk_frame hex chunk_frames
  read_chunks-empty_chunk s cs ds r h =
      rw
        (
          chunk_frames-append cs ([] ∷ ds),
          append_assoc (chunk_frames cs) (chunk_frames ([] ∷ ds)) r,
        )
        (read_chunks-chunk_frames s cs (crlf ++ (chunk_frames ds ++ r)) h)
