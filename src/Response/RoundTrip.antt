-- ===== src/Response/RoundTrip.antt =====
-- A response that `write_response` wrote is what `parse_response` reads, with the same bytes of body.
pub mod Fixed
pub mod Chunked
pub mod Delimited
use touche.Base.{
  ℕ, zero, suc, ◌+◌, ◌-◌, ◌^◌, ◌≤◌, ◌<◌, ◌≡◌, refl, ap, sym, ◌∙◌, Option, none, some, List, [], ◌∷◌,
  ◌++◌, map, append-nil, append_assoc, arith, Bool, true, false, Bytes, length, length-append,
  concat, codes, crlf, All, ltb, leb, take, take-length_append, drop-length_append, tests,
  if◌then◌else◌, Bool-cases, inl, inr,
}
use touche.Base.Result.{Result, ok, err, and_then}
use touche.Io.{IoError, Stream, with_rest, limit, read_to_end}
use touche.Crates.{Crates, Version, http_10, http_11}
use touche.Crates.Laws.{HeaderLaws, ReadsResponses, ReadsSizes}
use touche.Http.{Response, asks_for, is_true}
use touche.Chunked.RoundTrip.{read_exact-append, read_chunks-chunk_frames, IsSendable}
use touche.Wire.{header_lines, chunk_frames, last_chunk}
use touche.Wire.Body.{Encoding, fixed_length, chunked, close_delimited}
use touche.Wire.Body.Laws.{body_text, stream_text, bytes_text, chunks_text, last_text}
use touche.Body.{
  BodyInner, HttpBody, IoResult, trailers, buffered, reader, iter, decoded, empty, after_drop,
}
use touche.Body.Channel.Laws.{data_of, collect_bytes-data_of}
use touche.Body.Consume.{into_bytes, source_items}
use touche.Chunked.{read_chunks}
use touche.Response.{sized_body, response_body, with_body, parse_response}
use touche.Response.Encode.{
  choose_encoding, sized_encoding, unsized_encoding, sent_headers, is_http_11,
}
use touche.Response.Written.{head_text, response_text, encoded_text, sent_body}
use touche.Response.Parsed.{CanSend, parse_response-head_text}

-- The contract of HttpBody, where a body holds the bytes `bs`: both ways to read it give them, and a
-- length that it states is theirs.
pub record Holds {HeaderMap B : Type 0} (ops : HttpBody HeaderMap B) (b : B) (bs : Bytes)
    : Type 0 where
  pub bytes : ops.into_bytes b ≡ ok bs
  pub rest : (ops.into_reader b).rest ≡ bs
  pub fault : (ops.into_reader b).fault ≡ none
  pub size : (n : ℕ) → ops.len b ≡ some n → length bs ≡ n

module _ (c : Crates) where
  open c use {HeaderMap}

  limit-append :
      (s : Stream) (bs r : Bytes)
      → (read_to_end (limit (length bs) (with_rest s (bs ++ r)))).0 ≡ ok bs
  unfolding limit read_to_end
  limit-append s bs r = ground (arith, length-append bs r, take-length_append bs r)

  -- A sized body takes its bytes from the stream, at once or by a reader that owns it.
  pub sized_body-Holds :
      (s : Stream) (bs r : Bytes)
      → (b : BodyInner HeaderMap) × (s' : Stream) × (sized_body (length bs) (with_rest s (bs ++ r))
          ≡ (ok b, s'))
        × (into_bytes c b ≡ ok bs)
        × (after_drop b s' ≡ with_rest s r)
  unfolding sized_body into_bytes after_drop
  sized_body-Holds s bs r = elim (Bool-cases (ltb (length bs) 1024)) [
    | inl small ↦ (buffered bs, with_rest s r, rw small (rw (read_exact-append s bs r)), refl, refl)
    | inr large ↦ (
      reader (with_rest s (bs ++ r)) (some (length bs)),
      with_rest s (bs ++ r),
      rw large,
      limit-append s bs r,
      rw (drop-length_append bs r),
    )
  ]

-- The trailers of a body, collected in the order of their chunks.
unfoldable pub extend_all : (c : Crates) → c.HeaderMap → List c.HeaderMap → c.HeaderMap
extend_all c tr [] = tr
extend_all c tr (t ∷ ts) = extend_all c (c.extend tr t) ts

module _ (c : Crates) {B : Type 0} (ops : HttpBody c.HeaderMap B) where
  open c use {HeaderMap}

  pub body_text-fixed :
      (body : B) (bs : Bytes) (len : ℕ)
      → Holds ops body bs
      → (body_text c ops (fixed_length len) body).0 ≡ bs
  unfolding body_text bytes_text stream_text
  body_text-fixed body bs len holds = ground (arith, holds.bytes, holds.rest)

  chunks_text-items :
      (cs : List Bytes) (ts : List HeaderMap) (tr : HeaderMap)
      → chunks_text c (data_of HeaderMap cs ++ map (λ t. ok (trailers t)) ts) tr
        ≡ (chunk_frames cs, ok (extend_all c tr ts))
  unfolding chunks_text chunk_frames extend_all
  chunks_text-items [] [] tr = refl
  chunks_text-items [] (t ∷ ts) tr = chunks_text-items [] ts (c.extend tr t)
  chunks_text-items (chunk ∷ cs) ts tr = rw (chunks_text-items cs ts tr)

  pub body_text-chunked :
      (body : B) (cs : List Bytes) (ts : List HeaderMap)
      → ops.into_chunks body ≡ data_of HeaderMap cs ++ map (λ t. ok (trailers t)) ts
      → (body_text c ops chunked body).0
        ≡ chunk_frames cs
          ++ (last_chunk ++ (header_lines (c.iter (extend_all c c.no_headers ts)) ++ crlf))
  unfolding body_text last_text
  body_text-chunked body cs ts e = rw (e, body_text) (rw (chunks_text-items cs ts c.no_headers))

  pub response_text-encoded :
      {Handler : Type 0} (res : Response c Handler B) (encoding : Encoding)
      (chosen sent : HeaderMap) (text : Bytes)
      → choose_encoding c res.version res.headers (ops.len res.body) ≡ ok (encoding, chosen)
      → sent_headers c res.version res.headers chosen ≡ sent
      → (body_text c ops encoding res.body).0 ≡ text
      → (response_text c ops res true).0 ≡ head_text c res.version res.status sent ++ text
  unfolding response_text encoded_text sent_body
  response_text-encoded res encoding chosen sent text e f g = rw (e, response_text) (rw (f, g))
