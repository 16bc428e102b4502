-- ===== src/Request/Errors.antt =====
-- Which requests with a readable head are refused for how they announce their body.
use mathlib.Core.Path.{subst}
use touche.Base.{
  ℕ, ◌<◌, ◌≡◌, ◌↔◌, refl, sym, Option, none, some, ◌++◌, arith, true, false, Bytes, length,
  Option-cases, inl, inr,
}
use touche.Base.Result.{Result, ok, err, and_then, Result-cases}
use touche.Io.{IoError, Stream, unexpected_eof, with_rest, read_exact}
use touche.Crates.{Crates, Version, HeaderError}
use touche.Crates.Laws.{HeaderLaws, ReadsRequests}
use touche.Head.{ParseError, io, invalid_transfer_encoding, invalid_header}
use touche.Response.{sized_body}
use touche.Request.{request_body, over_head, parse_request}
use touche.Request.Parsed.{CanAsk, asked_text, parse_request-asked_text}

-- The error of a stream that ends too early.
abbrev pub cut_by : Option IoError → IoError
cut_by none = unexpected_eof
cut_by (some e) = e

read_exact-short :
    (n : ℕ) (s : Stream) → length s.rest < n → (read_exact n s).0 ≡ err (cut_by s.fault)
unfolding read_exact
read_exact-short n s short = elim (Option-cases s.fault) [
  | inl ends ↦ ground arith
  | inr (e, fails) ↦ ground arith
]

read_exact-failed :
    (n : ℕ) (s : Stream) (e : IoError)
    → (read_exact n s).0 ≡ err e
    → (length s.rest < n) × (e ≡ cut_by s.fault)
unfolding read_exact
read_exact-failed n s e failed = elim (Option-cases s.fault) [
  | inl ends ↦ ground arith
  | inr (x, fails) ↦ ground arith
]

pub and_then-failed :
    {E A B : Type 0} (r : Result E A) (f : A → B) (e : E)
    → and_then r (λ a. ok (f a)) ≡ err e
    → r ≡ err e
and_then-failed (ok a) f e failed = absurd (cc failed)
and_then-failed (err x) f e failed = cc failed

module _ (c : Crates) where
  open c use {Method, Uri, HeaderMap, try_transfer_encoding, try_content_length}

  -- Headers, and what comes behind them, that are refused with an error: a Transfer-Encoding that cannot be
  -- read, or that is not chunked; without one, a Content-Length that cannot be read, or one below 1024 of
  -- which less comes.
  pub data Unreadable (h : HeaderMap) (s : Stream) : ParseError → Type 0 where
    bad_encoding :
        (e : HeaderError) → try_transfer_encoding h ≡ err e → Unreadable h s invalid_header
    not_chunked :
        try_transfer_encoding h ≡ ok (some false) → Unreadable h s invalid_transfer_encoding
    bad_length :
        (e : HeaderError)
        → try_transfer_encoding h ≡ ok none
        → try_content_length h ≡ err e
        → Unreadable h s invalid_header
    cut_short :
        (len : ℕ)
        → try_transfer_encoding h ≡ ok none
        → try_content_length h ≡ ok (some len)
        → len < 1024
        → length s.rest < len
        → Unreadable h s (io (cut_by s.fault))

  sized_body-short :
      (len : ℕ) (s : Stream)
      → len < 1024
      → length s.rest < len
      → (sized_body {H = HeaderMap} len s).0 ≡ err (io (cut_by s.fault))
  unfolding sized_body
  sized_body-short len s small short = ground (arith, read_exact-short len s)

  sized_body-failed :
      (len : ℕ) (s : Stream) (e : ParseError)
      → (sized_body {H = HeaderMap} len s).0 ≡ err e
      → (len < 1024) × (length s.rest < len) × (e ≡ io (cut_by s.fault))
  unfolding sized_body
  sized_body-failed len s e failed = elim (Result-cases (read_exact len s).0) [
    | inl (bs, read) ↦ absurd (ground arith)
    | inr (x, f) ↦ ground (arith, read_exact-failed len s x)
  ]

  pub request_body-failed :
      (h : HeaderMap) (s : Stream) (e : ParseError)
      → (request_body c h s).0 ≡ err e
      → Unreadable h s e
  unfolding request_body
  request_body-failed h s e failed = elim (Result-cases (try_transfer_encoding h)) [
    | inl (none, te) ↦ elim (Result-cases (try_content_length h)) [
      | inl (none, cl) ↦ absurd (cc (rw (cl, request_body) at (rw (te, request_body) at failed)))
      | inl (some len, cl) ↦
          let (small, short, same) =
            sized_body-failed len s e
              (rw (cl, request_body) at (rw (te, request_body) at failed)) in
          subst (λ x. Unreadable h s x) (sym same) (cut_short len te cl small short)
      | inr (x, cl) ↦
          subst (λ y. Unreadable h s y)
            (cc (rw (cl, request_body) at (rw (te, request_body) at failed))) (bad_length x te cl)
    ]
    | inl (some true, te) ↦ absurd (cc (rw (te, request_body) at failed))
    | inl (some false, te) ↦
        subst (λ x. Unreadable h s x) (cc (rw (te, request_body) at failed)) (not_chunked te)
    | inr (x, te) ↦
        subst (λ y. Unreadable h s y) (cc (rw (te, request_body) at failed)) (bad_encoding x te)
  ]

  pub request_body-Unreadable :
      (h : HeaderMap) (s : Stream) (e : ParseError)
      → Unreadable h s e
      → (request_body c h s).0 ≡ err e
  unfolding request_body
  request_body-Unreadable h s e (bad_encoding x te) = rw (te, request_body) refl
  request_body-Unreadable h s e (not_chunked te) = rw (te, request_body) refl
  request_body-Unreadable h s e (bad_length x te cl) =
      rw (te, request_body) (rw (cl, request_body) refl)
  request_body-Unreadable h s e (cut_short len te cl small short) =
      rw (te, request_body) (rw (cl, request_body) (sized_body-short len s small short))

  module _ (laws : HeaderLaws c) (heads : ReadsRequests c) where
    -- A request whose head can be sent is refused by the parser with an error exactly if its headers, and
    -- what comes behind them, are unreadable with that error.
    pub parse_request-Unreadable :
        (method : Method) (uri : Uri) (version : Version) (h : HeaderMap) (s : Stream) (r : Bytes)
        (e : ParseError)
        → (v : CanAsk c method uri version h)
        → ((parse_request c (with_rest s (asked_text c method uri h v.version_text ++ r))).0
            ≡ err e)
          ↔ Unreadable h (with_rest s r) e
    unfolding over_head
    parse_request-Unreadable method uri version h s r e v =
        let parsed = parse_request-asked_text c laws heads method uri version h s r v in
        rw parsed (
          (λ failed.
              request_body-failed h (with_rest s r) e
                (and_then-failed (request_body c h (with_rest s r)).0 _ e failed)),
          (λ unreadable. rw (request_body-Unreadable h (with_rest s r) e unreadable) refl),
        )
