-- ===== src/Request/Taken.antt =====
-- What parse_request leaves of the stream that it reads from.
use touche.Base.{
  ℕ, ◌≤◌, ◌<◌, ◌≡◌, none, some, [], ◌∷◌, arith, Bytes, length, length-append, length-drop, ltb,
  Bool-cases, inl, inr,
}
use touche.Base.Result.{Result, ok, err, Result-cases}
use touche.Io.{IoError, Stream, read_exact}
use touche.Io.Laws.{read_exact-le}
use touche.Crates.{Crates, Version}
use touche.Http.{Request}
use touche.Head.{ParseError, read_head}
use touche.Head.Fuel.{read_head-cut}
use touche.Body.{BodyInner, after_drop}
use touche.Response.{sized_body}
use touche.Request.{request_body, over_head, request_head, parse_request_buffer, parse_request}

-- What a body leaves of the connection is at most n bytes, both as it is parsed and once it is dropped.
abbrev pub Leaves : {HeaderMap : Type 0} → ℕ → BodyInner HeaderMap → Stream → Type 0
Leaves n b s = (length s.rest ≤ n) × (length (after_drop b s).rest ≤ n)

module _ {HeaderMap : Type 0} where
  sized_body-Leaves :
      (len : ℕ) (s : Stream) (b : BodyInner HeaderMap)
      → (sized_body {H = HeaderMap} len s).0 ≡ ok b
      → Leaves (length s.rest) b (sized_body {H = HeaderMap} len s).1
  unfolding sized_body after_drop
  sized_body-Leaves len s b e = elim (Bool-cases (ltb len 1024)) [
    | inl small ↦ elim (Result-cases (read_exact len s).0) [
      | inl (bs, f) ↦ ground (arith, read_exact-le len s)
      | inr (x, f) ↦ ground arith
    ]
    | inr large ↦ ground (arith, length-drop len s.rest)
  ]

module _ (c : Crates) where
  open c use {HeaderMap, try_transfer_encoding, try_content_length}

  request_body-Leaves :
      (h : HeaderMap) (s : Stream) (b : BodyInner HeaderMap)
      → (request_body c h s).0 ≡ ok b
      → Leaves (length s.rest) b (request_body c h s).1
  unfolding request_body after_drop
  request_body-Leaves h s b e = elim (Result-cases (try_transfer_encoding h)) [
    | inl (none, f) ↦ elim (Result-cases (try_content_length h)) [
      | inl (none, g) ↦ ground arith
      | inl (some len, g) ↦ ground (arith, sized_body-Leaves len s b)
      | inr (x, g) ↦ ground arith
    ]
    | inl (some b, f) ↦ ground arith
    | inr (x, f) ↦ ground arith
  ]

  over_head-Leaves :
      (head : Result ParseError (c.Method × c.Uri × Version × HeaderMap)) (s : Stream)
      (req : Request c (BodyInner HeaderMap))
      → (over_head c head s).0 ≡ ok req
      → Leaves (length s.rest) req.body (over_head c head s).1
  unfolding over_head
  over_head-Leaves (err x) s req e = ground arith
  over_head-Leaves (ok (method, uri, version, h)) s req e =
      elim (Result-cases (request_body c h s).0) [
        | inl (b, f) ↦ ground (arith, request_body-Leaves h s b f)
        | inr (x, f) ↦ ground arith
      ]

  parse_buffer-Leaves :
      (buf : Bytes) (s : Stream) (req : Request c (BodyInner HeaderMap))
      → (parse_request_buffer c (ok buf) s).0 ≡ ok req
      → (0 < length buf) × Leaves (length s.rest) req.body (parse_request_buffer c (ok buf) s).1
  unfolding parse_request_buffer over_head
  parse_buffer-Leaves [] s req e = ground arith
  parse_buffer-Leaves (b ∷ buf) s req e =
      (omega arith, over_head-Leaves (request_head c (b ∷ buf)) s req e)

  not_parsed :
      {Goal : Type 0} (x : IoError) (s : Stream) (req : Request c (BodyInner HeaderMap))
      → (parse_request_buffer c (err x) s).0 ≡ ok req
      → Goal
  unfolding parse_request_buffer
  not_parsed x s req e = absurd (ground arith)

  -- A request that was parsed has taken bytes off the connection.
  pub parse_request-Leaves :
      (s : Stream) (req : Request c (BodyInner HeaderMap))
      → (parse_request c s).0 ≡ ok req
      → (n : ℕ) × (n < length s.rest) × Leaves n req.body (parse_request c s).1
  unfolding parse_request
  parse_request-Leaves s req e = elim (Result-cases (read_head s).0) [
    | inl (buf, f) ↦
        let s' = (read_head s).1 in
        let e' : (parse_request_buffer c (ok buf) s').0 ≡ ok req = rw f at e in
        let (filled, leaves) = parse_buffer-Leaves buf s' req e' in
        (
          length s'.rest,
          ground (arith, read_head-cut s buf f, length-append buf s'.rest),
          rw f leaves,
        )
    | inr (x, f) ↦ not_parsed x (read_head s).1 req (rw f at e)
  ]
