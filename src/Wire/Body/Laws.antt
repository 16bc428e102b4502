-- ===== src/Wire/Body/Laws.antt =====
-- What the writers of headers and bodies leave on a connection that takes everything.
use touche.Base.{
  ◌≡◌, refl, ap, ◌∙◌, none, some, List, [], ◌∷◌, ◌++◌, append-nil, append_assoc, arith, Bytes, crlf,
  length, ltb, if◌then◌else◌, Bool-cases, inl, inr,
}
use touche.Base.Result.{ok, err, continue, ◌>>◌}
use touche.Io.{Stream, open_sink, write_all, flush, copy}
use touche.Crates.{Crates}
use touche.Wire.{header_line, header_lines, chunk_frame, last_chunk}
use touche.Wire.Hex.{hex}
use touche.Body.{Chunk, HttpBody, IoResult, bytes, trailers}
use touche.Wire.Body.{
  Encoding, fixed_length, chunked, close_delimited, write_headers, write_chunks, write_chunked,
  write_body,
}

pub write_all-open : (bs o : Bytes) → write_all bs (open_sink o) ≡ (ok tt, open_sink (o ++ bs))
unfolding write_all
write_all-open bs o = refl

pub write_headers-open :
    (hs : List (Bytes × Bytes)) (o : Bytes)
    → write_headers hs (open_sink o) ≡ (ok tt, open_sink (o ++ header_lines hs))
unfolding write_headers write_all header_lines
write_headers-open [] o = rw append-nil
write_headers-open (h ∷ hs) o =
    write_headers-open hs (o ++ header_line h)
    ∙ ap (λ l. (ok tt, open_sink l)) (append_assoc o (header_line h) (header_lines hs))

-- What reading a stream to its end gives before its error, and whether there is one.
unfoldable pub stream_text : Stream → Bytes × IoResult (Unit {0})
stream_text r = (r.rest, elim r.fault [ none ↦ ok tt | some e ↦ err e ])

copy-open :
    (r : Stream) (o : Bytes)
    → copy r (open_sink o) ≡ ((stream_text r).1, open_sink (o ++ (stream_text r).0))
unfolding copy stream_text
copy-open r o = ground arith

module _ (c : Crates) where
  open c use {HeaderMap, no_headers, extend, iter}

  -- The text of the data among the items, up to the first error; the trailers among them, or the error.
  unfoldable pub chunks_text :
      List (IoResult (Chunk HeaderMap)) → HeaderMap → Bytes × IoResult HeaderMap
  chunks_text [] tr = ([], ok tr)
  chunks_text (ok (bytes chunk) ∷ items) tr =
      let (text, tr') = chunks_text items tr in (chunk_frame chunk ++ text, tr')
  chunks_text (ok (trailers te) ∷ items) tr = chunks_text items (extend tr te)
  chunks_text (err e ∷ items) tr = ([], err e)

  -- What ends a chunked body whose items hold no error.
  unfoldable pub last_text : Bytes × IoResult HeaderMap → Bytes × IoResult (Unit {0})
  last_text (text, ok tr) = (text ++ (last_chunk ++ (header_lines (iter tr) ++ crlf)), ok tt)
  last_text (text, err e) = (text, err e)

  unfoldable pub bytes_text : IoResult Bytes → Bytes × IoResult (Unit {0})
  bytes_text (ok bs) = (bs, ok tt)
  bytes_text (err e) = ([], err e)

  -- The text of a body in its framing, up to an error of the body.
  unfoldable pub body_text :
      {B : Type 0} → HttpBody HeaderMap B → Encoding → B → Bytes × IoResult (Unit {0})
  unfolding bytes_text last_text chunks_text stream_text
  body_text ops (fixed_length len) body =
      if ltb len 1024 then bytes_text (ops.into_bytes body) else stream_text (ops.into_reader body)
  body_text ops close_delimited body = stream_text (ops.into_reader body)
  body_text ops chunked body = last_text (chunks_text (ops.into_chunks body) no_headers)

  write_chunks-open :
      (items : List (IoResult (Chunk HeaderMap))) (tr : HeaderMap) (o : Bytes)
      → write_chunks c items tr (open_sink o)
        ≡ ((chunks_text items tr).1, open_sink (o ++ (chunks_text items tr).0))
  unfolding chunks_text write_chunks write_all flush chunk_frame
  write_chunks-open [] tr o = rw append-nil
  write_chunks-open (ok (bytes chunk) ∷ items) tr o =
      write_chunks-open items tr (o ++ (hex (length chunk) ++ crlf) ++ chunk ++ crlf)
      ∙ simp append_assoc
  write_chunks-open (ok (trailers te) ∷ items) tr o = write_chunks-open items (extend tr te) o
  write_chunks-open (err e ∷ items) tr o = rw append-nil

  finish-open :
      (tr : IoResult HeaderMap) (text o : Bytes)
      → continue tr
          (λ tr'. write_all last_chunk >> (write_headers (iter tr') >> write_all crlf))
          (open_sink (o ++ text))
        ≡ ((last_text (text, tr)).1, open_sink (o ++ (last_text (text, tr)).0))
  unfolding last_text write_all
  finish-open (ok tr') text o =
      rw (write_headers-open (iter tr') ((o ++ text) ++ last_chunk)) (simp append_assoc)
  finish-open (err e) text o = refl

  write_chunked-open :
      (items : List (IoResult (Chunk HeaderMap))) (o : Bytes)
      → let text = last_text (chunks_text items no_headers) in
        write_chunked c items (open_sink o) ≡ (text.1, open_sink (o ++ text.0))
  unfolding write_chunked
  write_chunked-open items o =
      rw (write_chunks-open items no_headers o, write_chunked)
        (finish-open (chunks_text items no_headers).1 (chunks_text items no_headers).0 o)

  write_bytes-open :
      (bs : IoResult Bytes) (o : Bytes)
      → continue bs write_all (open_sink o)
        ≡ ((bytes_text bs).1, open_sink (o ++ (bytes_text bs).0))
  unfolding bytes_text write_all
  write_bytes-open (ok bs) o = refl
  write_bytes-open (err e) o = rw append-nil

  -- A body writes its text, and reports its error, on a connection that takes everything.
  pub write_body-open :
      {B : Type 0} (ops : HttpBody HeaderMap B) (encoding : Encoding) (body : B) (o : Bytes)
      → let text = body_text ops encoding body in
        write_body c ops encoding body (open_sink o) ≡ (text.1, open_sink (o ++ text.0))
  unfolding write_body body_text
  write_body-open ops (fixed_length len) body o = elim (Bool-cases (ltb len 1024)) [
    | inl small ↦ rw small (write_bytes-open (ops.into_bytes body) o)
    | inr large ↦ rw large (copy-open (ops.into_reader body) o)
  ]
  write_body-open ops close_delimited body o = copy-open (ops.into_reader body) o
  write_body-open ops chunked body o = write_chunked-open (ops.into_chunks body) o
