-- ===== src/Response/Outcomes.antt =====
-- The choice of the encoding, and what the outcome says of the response that was written.
use touche.Base.{
  ℕ, ◌≡◌, refl, Option, none, some, [], arith, Bool, false, Bool-cases, inl, inr, ◌==◌,
}
use touche.Base.Result.{Result, ok, err, and_then, Result-cases}
use touche.Io.{IoError, length_mismatch}
use touche.Crates.{Crates, Version, http_11}
use touche.Http.{Response}
use touche.Body.{HttpBody}
use touche.Wire.Body.{Encoding, fixed_length, chunked, close_delimited}
use touche.Response.Encode.{
  choose_encoding, sized_encoding, unsized_encoding, sent_headers, has_chunked_encoding,
  has_connection_close,
}
use touche.Response.Write.{keep_alive, is_close_delimited, outcome}
use touche.Response.Written.{response_text, encoded_text}

and_then-ok :
    {A B : Type 0} (r : Result IoError A) (b b' : B) → and_then r (λ _. ok b) ≡ ok b' → b ≡ b'
and_then-ok (ok a) b b' e = ground arith
and_then-ok (err x) b b' e = absurd (ground arith)

not_kept : {A : Type 0} (x : IoError) {a : A} → err x ≡ ok a → ⊥
not_kept x e = ground arith

module _ (c : Crates) where
  open c use {HeaderMap, content_length}

  -- A body that is framed by its length is framed by the length that it states, if it states one.
  pub fixed-sized :
      (version : Version) (h chosen : HeaderMap) (n m : ℕ)
      → choose_encoding c version h (some m) ≡ ok (fixed_length n, chosen)
      → n ≡ m
  unfolding choose_encoding sized_encoding
  fixed-sized version h chosen n m e = elim (Bool-cases (has_chunked_encoding c h)) [
    | inl f ↦ ground arith
    | inr f ↦ ground arith
  ]

  -- A chunked encoding is chosen only for HTTP/1.1.
  pub chunked-http_11 :
      (version : Version) (h chosen : HeaderMap) (l : Option ℕ)
      → choose_encoding c version h l ≡ ok (chunked, chosen)
      → version ≡ http_11
  unfolding choose_encoding sized_encoding unsized_encoding
  chunked-http_11 http_11 h chosen l e = refl
  chunked-http_11 version h chosen l e = ground arith

  -- Without a chunked encoding, a Content-Length that differs from the length of the body is an error, and
  -- nothing is written.
  pub mismatch :
      {Handler B : Type 0} (ops : HttpBody HeaderMap B) (res : Response c Handler B)
      (with_body : Bool) (n m : ℕ)
      → has_chunked_encoding c res.headers ≡ false
      → content_length res.headers ≡ some n
      → ops.len res.body ≡ some m
      → (n == m) ≡ false
      → response_text c ops res with_body ≡ ([], err length_mismatch)
  unfolding response_text choose_encoding sized_encoding
  mismatch ops res with_body n m f g h k = rw (h, f, g, k, response_text)

  outcome-keep_alive :
      {Handler : Type 0} (up : Option Handler) (encoding : Encoding) (h : HeaderMap)
      → outcome c up encoding h ≡ keep_alive
      → (is_close_delimited encoding ≡ false) × (has_connection_close c h ≡ false)
  unfolding outcome
  outcome-keep_alive (some handler) encoding h e = ground arith
  outcome-keep_alive none close_delimited h e = ground arith
  outcome-keep_alive none encoding h e = ground arith

  -- A connection is kept only behind a response that ends by its framing, and that does not ask for
  -- the end of the connection.
  pub keep_alive-delimited :
      {Handler B : Type 0} (ops : HttpBody HeaderMap B) (res : Response c Handler B)
      (with_body : Bool)
      → (response_text c ops res with_body).1 ≡ ok keep_alive
      → (encoding : Encoding) × (chosen : HeaderMap) × (choose_encoding c res.version res.headers
            (ops.len res.body)
          ≡ ok (encoding, chosen))
        × (is_close_delimited encoding ≡ false)
        × (has_connection_close c (sent_headers c res.version res.headers chosen) ≡ false)
  unfolding response_text encoded_text outcome
  keep_alive-delimited ops res with_body e =
      elim (Result-cases (choose_encoding c res.version res.headers (ops.len res.body))) [
        | inl ((encoding, chosen), f) ↦
            let kept =
              outcome-keep_alive res.upgrade encoding _
                (and_then-ok _ _ keep_alive (rw (f, response_text) at e)) in
            (encoding, chosen, f, kept.0, kept.1)
        | inr (x, f) ↦ absurd (not_kept x (rw (f, response_text) at e))
      ]
