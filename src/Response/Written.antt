-- ===== src/Response/Written.antt =====
-- write_response against a description of the bytes that it writes.
use touche.Base.{
  ℕ, ◌≡◌, refl, [], ◌++◌, append-nil, append_assoc, Bool, true, false, Bytes, crlf, if◌then◌else◌,
  inl, inr,
}
use touche.Base.Result.{ok, err, continue, and_then, Result-cases, pure, ◌>>◌}
use touche.Io.{Sink, open_sink, write_all}
use touche.Crates.{Crates, Version}
use touche.Http.{Response}
use touche.Wire.{header_lines}
use touche.Wire.Body.{Encoding, write_body}
use touche.Wire.Body.Laws.{write_headers-open, write_body-open, body_text}
use touche.Body.{HttpBody, IoResult}
use touche.Response.Encode.{choose_encoding, sent_headers}
use touche.Response.Write.{Outcome, status_line, outcome, write_response}

pass :
    {A : Type 0} (r : IoResult (Unit {0})) (a : A) (s : Sink)
    → continue r (λ _. pure a) s ≡ (and_then r (λ _. ok a), s)
pass (ok u) a s = refl
pass (err e) a s = refl

module _ (c : Crates) where
  open c use {HeaderMap, iter}

  -- The head that goes out: the status line, the headers that are sent, and the blank line.
  unfoldable pub head_text : Version → ℕ → HeaderMap → Bytes
  head_text version status headers =
      status_line c version status ++ (header_lines (iter headers) ++ crlf)

  -- The text of the body if it is written at all.
  unfoldable pub sent_body :
      {B : Type 0} → HttpBody HeaderMap B → Encoding → B → Bool → Bytes × IoResult (Unit {0})
  sent_body ops encoding body true = body_text c ops encoding body
  sent_body ops encoding body false = ([], ok tt)

  -- The head and the body for the encoding that was chosen, and the outcome or the body's error.
  unfoldable pub encoded_text :
      {Handler B : Type 0}
      → HttpBody HeaderMap B
      → Response c Handler B
      → Bool
      → Encoding × HeaderMap
      → Bytes × IoResult (Outcome Handler)
  encoded_text ops res with_body (encoding, chosen) =
      let headers = sent_headers c res.version res.headers chosen in
      let body = sent_body ops encoding res.body with_body in
      (
        head_text res.version res.status headers ++ body.0,
        and_then body.1 (λ _. ok (outcome c res.upgrade encoding headers)),
      )

  -- Nothing is written where no encoding fits.
  unfoldable pub response_text :
      {Handler B : Type 0}
      → HttpBody HeaderMap B
      → Response c Handler B
      → Bool
      → Bytes × IoResult (Outcome Handler)
  response_text ops res with_body =
      elim (choose_encoding c res.version res.headers (ops.len res.body)) [
        | err e ↦ ([], err e)
        | ok chosen ↦ encoded_text ops res with_body chosen
      ]

  write_rest-open :
      {B A : Type 0} (ops : HttpBody HeaderMap B) (encoding : Encoding) (body : B) (a : A)
      (with_body : Bool) (o : Bytes)
      → ((if with_body then write_body c ops encoding body else pure tt) >> pure a) (open_sink o)
        ≡ (
          and_then (sent_body ops encoding body with_body).1 (λ _. ok a),
          open_sink (o ++ (sent_body ops encoding body with_body).0),
        )
  unfolding sent_body
  write_rest-open ops encoding body a true o =
      rw (write_body-open c ops encoding body o) (pass (body_text c ops encoding body).1 a _)
  write_rest-open ops encoding body a false o = rw append-nil

  -- On a connection that takes everything `write_response` writes its text, and ends with its result.
  pub write_response-open :
      {Handler B : Type 0} (ops : HttpBody HeaderMap B) (res : Response c Handler B)
      (with_body : Bool) (o : Bytes)
      → let text = response_text ops res with_body in
        write_response c ops res with_body (open_sink o) ≡ (text.1, open_sink (o ++ text.0))
  unfolding write_response response_text encoded_text head_text write_all
  write_response-open ops res with_body o =
      elim (Result-cases (choose_encoding c res.version res.headers (ops.len res.body))) [
        | inl ((encoding, chosen), e) ↦
            rw (e, write_response, response_text)
              (let headers = sent_headers c res.version res.headers chosen in
                let line = status_line c res.version res.status in
                rw
                  (
                    write_headers-open (iter headers) (o ++ line),
                    write_rest-open ops encoding res.body (outcome c res.upgrade encoding headers)
                        with_body (((o ++ line) ++ header_lines (iter headers)) ++ crlf),
                  )
                  (simp append_assoc))
        | inr (x, e) ↦ rw (e, write_response, response_text) (rw append-nil)
      ]
