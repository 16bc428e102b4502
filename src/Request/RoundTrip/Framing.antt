-- ===== src/Request/RoundTrip/Framing.antt =====
-- The headers that go out with a request announce the framing of its body.
use touche.Base.{ℕ, ◌^◌, ◌<◌, ◌≡◌, Option, none, some, Bool, true, arith, ◌++◌, Bytes, length}
use touche.Base.Result.{ok}
use touche.Io.{Stream, with_rest}
use touche.Crates.{Crates, Version}
use touche.Crates.Laws.{HeaderLaws}
use touche.Wire.Body.{fixed_length, chunked}
use touche.Body.{BodyInner, after_drop}
use touche.Body.Consume.{into_bytes}
use touche.Response.RoundTrip.{sized_body-Holds}
use touche.Request.{request_body}
use touche.Request.Write.{sized_request, request_encoding}

module _ (c : Crates) where
  open c use {
    Method, HeaderMap, try_transfer_encoding, try_content_length, transfer_encoding, content_length,
  }

  module _ (laws : HeaderLaws c) where
    pub fixed_request_headers :
        (method : Method) (version : Version) (h chosen : HeaderMap) (stated body_len : Option ℕ)
        (len : ℕ)
        → len < 2 ^ 64
        → try_transfer_encoding h ≡ ok none
        → try_content_length h ≡ ok stated
        → request_encoding c method version h body_len ≡ ok (fixed_length len, chosen)
        → (try_transfer_encoding chosen ≡ ok none) × (try_content_length chosen ≡ ok (some len))
    unfolding request_encoding sized_request
    fixed_request_headers method version h chosen stated body_len len fits te cl e = ground (
      arith,
      laws.get_transfer_encoding h none,
      laws.get_content_length h stated,
      laws.insert_content_length h len,
      laws.insert_content_length-transfer_encoding h len,
    )

    pub chunked_request_headers :
        (method : Method) (version : Version) (h chosen : HeaderMap) (te : Option Bool)
        (body_len : Option ℕ)
        → try_transfer_encoding h ≡ ok te
        → request_encoding c method version h body_len ≡ ok (chunked, chosen)
        → try_transfer_encoding chosen ≡ ok (some true)
    unfolding request_encoding sized_request
    chunked_request_headers method version h chosen te body_len e k =
        ground (arith, laws.get_transfer_encoding h te, laws.insert_chunked h)

  -- The body of a fixed length that is behind the head. Consumed or dropped, it leaves the stream right
  -- behind it.
  pub request_body-fixed :
      (h : HeaderMap) (s : Stream) (bs r : Bytes)
      → try_transfer_encoding h ≡ ok none
      → try_content_length h ≡ ok (some (length bs))
      → (b : BodyInner HeaderMap) × (s' : Stream) × (request_body c h (with_rest s (bs ++ r))
          ≡ (ok b, s'))
        × (into_bytes c b ≡ ok bs)
        × (after_drop b s' ≡ with_rest s r)
  unfolding request_body
  request_body-fixed h s bs r te cl =
      let (b, s', e, i, d) = sized_body-Holds c s bs r in
      (b, s', rw (te, request_body) (rw (cl, request_body) e), i, d)
