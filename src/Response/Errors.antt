-- ===== src/Response/Errors.antt =====
-- Which responses with a readable head are refused for how they announce their body.
use touche.Base.{
  ◌≡◌, ◌↔◌, refl, none, some, ◌++◌, true, false, Bytes, codes, inl, inr, ℕ, Bool-cases,
}
use touche.Base.Result.{err, Result-cases}
use touche.Io.{Stream, with_rest}
use touche.Crates.{Crates, Version}
use touche.Crates.Laws.{HeaderLaws, ReadsResponses}
use touche.Http.{asks_for}
use touche.Head.{ParseError}
use touche.Request.{request_body}
use touche.Request.Errors.{
  Unreadable, and_then-failed, request_body-failed, request_body-Unreadable,
}
use touche.Response.{response_body, with_body, parse_response}
use touche.Response.Parsed.{CanSend, parse_response-head_text}
use touche.Response.Written.{head_text}

module _ (c : Crates) where
  open c use {HeaderMap, try_transfer_encoding, try_content_length, connection}

  -- The bodies of requests and of responses are refused alike.
  response_body-request_body :
      (h : HeaderMap) (s : Stream) (e : ParseError)
      → ((response_body c h s).0 ≡ err e) ↔ ((request_body c h s).0 ≡ err e)
  unfolding response_body request_body
  response_body-request_body h s e = elim (Result-cases (try_transfer_encoding h)) [
    | inl (none, te) ↦ elim (Result-cases (try_content_length h)) [
      | inl (none, cl) ↦ elim (Bool-cases (asks_for (codes "close") (connection h))) [
        | inl b ↦
            rw (te, response_body, request_body)
              (rw (cl, response_body, request_body)
                (rw b ((λ p. absurd (cc p)), (λ p. absurd (cc p)))))
        | inr b ↦
            rw (te, response_body, request_body)
              (rw (cl, response_body, request_body)
                (rw b ((λ p. absurd (cc p)), (λ p. absurd (cc p)))))
      ]
      | inl (some len, cl) ↦
          rw (te, response_body, request_body)
            (rw (cl, response_body, request_body) ((λ p. p), (λ p. p)))
      | inr (x, cl) ↦
          rw (te, response_body, request_body)
            (rw (cl, response_body, request_body) ((λ p. p), (λ p. p)))
    ]
    | inl (some true, te) ↦ rw (te, response_body, request_body) ((λ p. p), (λ p. p))
    | inl (some false, te) ↦ rw (te, response_body, request_body) ((λ p. p), (λ p. p))
    | inr (x, te) ↦ rw (te, response_body, request_body) ((λ p. p), (λ p. p))
  ]

  module _ (laws : HeaderLaws c) (heads : ReadsResponses c) where
    -- A response whose head can be sent is refused by the parser with an error exactly if its headers, and
    -- what comes behind them, are unreadable with that error, as for a request.
    pub parse_response-Unreadable :
        {Handler : Type 0} (version : Version) (status : ℕ) (h : HeaderMap) (s : Stream) (r : Bytes)
        (e : ParseError)
        → CanSend c version status h
        → ((parse_response c {Handler = Handler}
              (with_rest s (head_text c version status h ++ r))).0
            ≡ err e)
          ↔ Unreadable c h (with_rest s r) e
    unfolding with_body
    parse_response-Unreadable {Handler} version status h s r e v =
        let parsed =
          parse_response-head_text c laws heads {Handler = Handler} version status h s r v in
        let (there, back) = response_body-request_body h (with_rest s r) e in
        rw parsed (
          (λ failed.
              request_body-failed c h (with_rest s r) e
                (there (and_then-failed (response_body c h (with_rest s r)).0 _ e failed))),
          (λ unreadable. rw (back (request_body-Unreadable c h (with_rest s r) e unreadable)) refl),
        )
