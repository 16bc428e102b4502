-- ===== src/Request/Closed.antt =====
-- When parse_request reports the end of the connection.
use mathlib.Core.Logic.{◌↔◌}
use touche.Base.{
  ℕ, ◌≡◌, ◌≢◌, refl, ap, Option, none, some, List, [], ◌∷◌, arith, Bytes, Option-cases, ◌∙◌, inl,
  inr,
}
use touche.Base.Result.{Result, ok, err, Result-cases}
use touche.Io.{IoError, Stream, read_exact, read_line, split_line}
use touche.Crates.{Crates, Version}
use touche.Head.{
  ParseError, connection_closed, read_head, read_lines, http_version, ends_head, blank_backwards,
}
use touche.Head.Fuel.{read_head-cut}
use touche.Response.{sized_body}
use touche.Request.{request_head, request_body, over_head, parse_request_buffer, parse_request}

-- Errors other than the end of the connection.
abbrev IsOther : {A : Type 0} → Result ParseError A → Type 0
IsOther r = r ≢ err connection_closed

-- A stream with nothing to come.
abbrev over : Option IoError → List ℕ → Stream
over fault bursts = record { rest = []; fault = fault; bursts = bursts }

over-eq :
    (s : Stream) (fault : Option IoError) → s.rest ≡ [] → s.fault ≡ fault → s ≡ over fault s.bursts
over-eq s fault e f = ap (λ r. record s { rest = r }) e ∙ ap (λ x. over x s.bursts) f

read_head-faulty : (e : IoError) (bursts : List ℕ) → (read_head (over (some e) bursts)).0 ≡ err e
unfolding read_head read_lines read_line split_line
read_head-faulty e bursts = refl

read_head-ended : (bursts : List ℕ) → (read_head (over none bursts)).0 ≡ ok []
unfolding read_head read_lines read_line split_line
read_head-ended bursts = refl

head_read-empty : (s : Stream) → (read_head s).0 ≡ ok [] → (s.rest ≡ []) × (s.fault ≡ none)
unfolding ends_head blank_backwards
head_read-empty s f =
    let (cut, ends) = read_head-cut s [] f in
    let rest : s.rest ≡ [] = ground arith in
    elim (Option-cases s.fault) [
      | inl g ↦ (rest, g)
      | inr (e, g) ↦
          let failed =
            ap (λ t. (read_head t).0) (over-eq s (some e) rest g) ∙ read_head-faulty e s.bursts in
          absurd (ground arith)
    ]

module _ (c : Crates) where
  open c use {
    Method, Uri, HeaderMap, parse_request_head, method_from_bytes, uri_from_bytes, no_headers,
    try_transfer_encoding, try_content_length,
  }

  request_head-IsOther : (buf : Bytes) → IsOther (request_head c buf)
  unfolding request_head http_version
  request_head-IsOther buf e = ground arith

  request_body-IsOther : (h : HeaderMap) (s : Stream) → IsOther (request_body c h s).0
  unfolding request_body sized_body read_exact
  request_body-IsOther h s e = ground arith

  over_head-IsOther :
      (head : Result ParseError (Method × Uri × Version × HeaderMap)) (s : Stream)
      → IsOther head
      → IsOther (over_head c head s).0
  unfolding over_head
  over_head-IsOther (err x) s other e = ground (arith, other)
  over_head-IsOther (ok (method, uri, version, headers)) s other e =
      ground (arith, request_body-IsOther headers s)

  head_read-closed :
      (s : Stream) (buf : Bytes)
      → (read_head s).0 ≡ ok buf
      → (parse_request_buffer c (ok buf) (read_head s).1).0 ≡ err connection_closed
      → (s.rest ≡ []) × (s.fault ≡ none)
  unfolding parse_request_buffer
  head_read-closed s [] f e = head_read-empty s f
  head_read-closed s (b ∷ bs) f e = absurd (
      over_head-IsOther (request_head c (b ∷ bs)) (read_head s).1 (request_head-IsOther (b ∷ bs)) e)

  -- The end of the connection is reported where a request ought to begin and nothing comes before the
  -- stream ends without an error, and nowhere else.
  pub parse_request-closed :
      (s : Stream)
      → ((parse_request c s).0 ≡ err connection_closed) ↔ ((s.rest ≡ []) × (s.fault ≡ none))
  unfolding parse_request parse_request_buffer over_head
  parse_request-closed s = (
    (λ e. elim (Result-cases (read_head s).0) [
      | inl (buf, f) ↦ head_read-closed s buf f (rw f at e)
      | inr (x, f) ↦ absurd (ground arith)
    ]),
    (λ (rest, fault).
        rw (over-eq s none rest fault) (rw (read_head-ended s.bursts, parse_request))),
  )
