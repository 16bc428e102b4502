-- ===== src/Response/RoundTrip/Chunked.antt =====
-- write_response and parse_response over a chunked body.
use touche.Base.{
  ℕ, ◌≡◌, ap, ◌∙◌, Option, none, some, List, ◌++◌, map, append_assoc, arith, Bool, true, Bytes,
  concat, crlf, All,
}
use touche.Base.Result.{ok}
use touche.Io.{Stream, with_rest}
use touche.Crates.{Crates, Version, http_11}
use touche.Crates.Laws.{HeaderLaws, ReadsResponses, ReadsSizes}
use touche.Http.{Response}
use touche.Chunked.RoundTrip.{read_chunks-chunk_frames, IsSendable}
use touche.Wire.{header_lines, chunk_frames, last_chunk}
use touche.Wire.Body.{chunked}
use touche.Body.{HttpBody, trailers, iter, decoded}
use touche.Body.Channel.Laws.{data_of, collect_bytes-data_of}
use touche.Body.Consume.{into_bytes, source_items}
use touche.Chunked.{read_chunks}
use touche.Response.{response_body, with_body, parse_response}
use touche.Response.Encode.{choose_encoding, sized_encoding, unsized_encoding, sent_headers}
use touche.Response.Written.{head_text, response_text}
use touche.Response.Parsed.{CanSend, parse_response-head_text}
use touche.Response.RoundTrip.{body_text-chunked, extend_all, response_text-encoded}

module _ (c : Crates) where
  open c use {HeaderMap}

  -- Chunks that were decoded make a body with their bytes.
  pub into_bytes-decodes :
      (s : Stream) (cs : List Bytes) {s' : Stream}
      → read_chunks c.parse_chunk_size s ≡ (cs, s')
      → into_bytes c (iter (decoded s)) ≡ ok (concat cs)
  unfolding into_bytes source_items
  into_bytes-decodes s cs e = rw (e, into_bytes) (collect_bytes-data_of HeaderMap cs)

module _ (c : Crates) (laws : HeaderLaws c) where
  open c use {
    HeaderMap, try_transfer_encoding, try_content_length, transfer_encoding, content_length,
  }

  -- The headers that go out with a chunked body announce it.
  chunked_headers :
      (version : Version) (h chosen : HeaderMap) (te : Option Bool) (body_len : Option ℕ)
      → try_transfer_encoding h ≡ ok te
      → choose_encoding c version h body_len ≡ ok (chunked, chosen)
      → (try_transfer_encoding chosen ≡ ok (some true)) × (sent_headers c version h chosen ≡ chosen)
  unfolding choose_encoding sized_encoding unsized_encoding sent_headers
  chunked_headers http_11 h chosen te body_len e k =
      ground (arith, laws.get_transfer_encoding h te, laws.insert_chunked h)
  chunked_headers version h chosen te body_len e k =
      ground (arith, laws.get_transfer_encoding h te, laws.insert_chunked h)

  -- A response that goes out with a body of chunks and then trailers is read back with its status,
  -- version, sent headers and data. Once its chunks are consumed the stream is left in front of the
  -- trailers, which nobody reads. Its head can be sent, no chunk is empty or has 2 ^ 64 bytes, and its own
  -- headers have a readable Transfer-Encoding, if any.
  pub chunked_round_trip :
      {Handler Handler' B : Type 0} (ops : HttpBody HeaderMap B) (res : Response c Handler B)
      (chosen : HeaderMap) (te : Option Bool) (cs : List Bytes) (ts : List HeaderMap) (s : Stream)
      (r : Bytes)
      → ReadsResponses c
      → ReadsSizes c.parse_chunk_size
      → All IsSendable cs
      → ops.into_chunks res.body ≡ data_of HeaderMap cs ++ map (λ t. ok (trailers t)) ts
      → try_transfer_encoding res.headers ≡ ok te
      → choose_encoding c res.version res.headers (ops.len res.body) ≡ ok (chunked, chosen)
      → CanSend c res.version res.status chosen
      → (s' : Stream) × (parse_response c {Handler = Handler'}
            (with_rest s ((response_text c ops res true).0 ++ r))
          ≡ (
            ok (record {
              status = res.status;
              version = res.version;
              headers = chosen;
              upgrade = none;
              body = iter (decoded s');
            }),
            s',
          ))
        × (into_bytes c (iter (decoded s')) ≡ ok (concat cs))
        × ((read_chunks c.parse_chunk_size s').1
            ≡ with_rest s (header_lines (c.iter (extend_all c c.no_headers ts)) ++ (crlf ++ r)))
  unfolding with_body response_body
  chunked_round_trip ops res chosen te cs ts s r heads sizes sendable items te_is e v =
      let tail = header_lines (c.iter (extend_all c c.no_headers ts)) in
      let body = chunk_frames cs ++ (last_chunk ++ (tail ++ crlf)) in
      let (te', same) = chunked_headers res.version res.headers chosen te _ te_is e in
      let text =
        response_text-encoded c ops res chunked chosen chosen body e same
          (body_text-chunked c ops res.body cs ts items) in
      let decodes =
        read_chunks-chunk_frames c.parse_chunk_size sizes s cs (tail ++ (crlf ++ r)) sendable in
      (
        with_rest s (chunk_frames cs ++ (last_chunk ++ (tail ++ (crlf ++ r)))),
        rw (text, append_assoc (head_text c res.version res.status chosen) body r)
            (parse_response-head_text c laws heads res.version res.status chosen s (body ++ r) v
              ∙ rw (te', with_body, response_body) (simp append_assoc)),
        into_bytes-decodes c _ cs decodes,
        ap (λ p. p.1) decodes,
      )
