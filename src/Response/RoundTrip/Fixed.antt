-- ===== src/Response/RoundTrip/Fixed.antt =====
-- write_response and parse_response over a body of a fixed length.
use touche.Base.{
  ℕ, ◌^◌, ◌<◌, ◌≡◌, ◌∙◌, Option, none, some, ◌++◌, append_assoc, arith, true, Bytes, length,
}
use touche.Base.Result.{ok}
use touche.Io.{Stream, with_rest}
use touche.Crates.{Crates, Version}
use touche.Crates.Laws.{HeaderLaws, ReadsResponses}
use touche.Http.{Response}
use touche.Wire.Body.{fixed_length}
use touche.Body.{BodyInner, HttpBody, after_drop}
use touche.Body.Consume.{into_bytes}
use touche.Response.{response_body, with_body, parse_response}
use touche.Response.Encode.{choose_encoding, sized_encoding, unsized_encoding, sent_headers}
use touche.Response.Written.{head_text, response_text}
use touche.Response.Parsed.{CanSend, parse_response-head_text}
use touche.Response.RoundTrip.{Holds, sized_body-Holds, body_text-fixed, response_text-encoded}

module _ (c : Crates) (laws : HeaderLaws c) where
  open c use {
    HeaderMap, try_transfer_encoding, try_content_length, transfer_encoding, content_length,
  }

  -- The headers that go out with a fixed length announce it, and no other framing.
  pub fixed_headers :
      (version : Version) (h chosen : HeaderMap) (stated body_len : Option ℕ) (len : ℕ)
      → len < 2 ^ 64
      → try_transfer_encoding h ≡ ok none
      → try_content_length h ≡ ok stated
      → choose_encoding c version h body_len ≡ ok (fixed_length len, chosen)
      → (try_transfer_encoding chosen ≡ ok none)
        × (try_content_length chosen ≡ ok (some len))
        × (sent_headers c version h chosen ≡ chosen)
  unfolding choose_encoding sized_encoding unsized_encoding sent_headers
  fixed_headers version h chosen stated body_len len fits te cl e = ground (
    arith,
    laws.get_transfer_encoding h none,
    laws.get_content_length h stated,
    laws.insert_content_length h len,
    laws.insert_content_length-transfer_encoding h len,
  )

  -- The body of a fixed length that is behind the head. Consumed or dropped, it leaves the stream right
  -- behind it.
  pub response_body-fixed :
      (h : HeaderMap) (s : Stream) (bs r : Bytes)
      → try_transfer_encoding h ≡ ok none
      → try_content_length h ≡ ok (some (length bs))
      → (b : BodyInner HeaderMap) × (s' : Stream) × (response_body c h (with_rest s (bs ++ r))
          ≡ (ok b, s'))
        × (into_bytes c b ≡ ok bs)
        × (after_drop b s' ≡ with_rest s r)
  unfolding response_body
  response_body-fixed h s bs r te cl =
      let (b, s', e, i, d) = sized_body-Holds c s bs r in
      (b, s', rw (te, response_body) (rw (cl, response_body) e), i, d)

  -- A response that goes out with a fixed length below 2 ^ 64 is read back with its status, version, sent
  -- headers and bytes, and its body, consumed or dropped, leaves the stream right behind it. Its head can be
  -- sent, its body holds its bytes, and its own headers have no Transfer-Encoding and a readable
  -- Content-Length, if any.
  pub fixed_round_trip :
      {Handler Handler' B : Type 0} (ops : HttpBody HeaderMap B) (res : Response c Handler B)
      (chosen : HeaderMap) (stated : Option ℕ) (bs : Bytes) (s : Stream) (r : Bytes)
      → ReadsResponses c
      → length bs < 2 ^ 64
      → Holds ops res.body bs
      → try_transfer_encoding res.headers ≡ ok none
      → try_content_length res.headers ≡ ok stated
      → choose_encoding c res.version res.headers (ops.len res.body)
        ≡ ok (fixed_length (length bs), chosen)
      → CanSend c res.version res.status chosen
      → (b : BodyInner HeaderMap) × (s' : Stream) × (parse_response c {Handler = Handler'}
            (with_rest s ((response_text c ops res true).0 ++ r))
          ≡ (
            ok (record {
              status = res.status;
              version = res.version;
              headers = chosen;
              upgrade = none;
              body = b;
            }),
            s',
          ))
        × (into_bytes c b ≡ ok bs)
        × (after_drop b s' ≡ with_rest s r)
  unfolding with_body
  fixed_round_trip ops res chosen stated bs s r heads fits holds te cl e v =
      let (te', cl', same) =
        fixed_headers res.version res.headers chosen stated _ (length bs) fits te cl e in
      let (b, s', read, i, d) = response_body-fixed chosen s bs r te' cl' in
      let text =
        response_text-encoded c ops res _ chosen chosen bs e same
          (body_text-fixed c ops res.body bs (length bs) holds) in
      (
        b,
        s',
        rw (text, append_assoc (head_text c res.version res.status chosen) bs r)
            (parse_response-head_text c laws heads res.version res.status chosen s (bs ++ r) v
              ∙ rw (read, with_body)),
        i,
        d,
      )
