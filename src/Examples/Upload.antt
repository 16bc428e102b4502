-- ===== src/Examples/Upload.antt =====
-- examples/expect-continue.rs: a service that takes uploads up to a length.
use touche.Base.{
  ℕ, ◌≡◌, Option, none, some, ◌++◌, Bytes, codes, Bool, true, false, leb, if◌then◌else◌, Bool-cases,
  inl, inr,
}
use touche.Base.Result.{ok}
use touche.Io.{Stream}
use touche.Crates.{Crates, http_11}
use touche.Http.{Request, Response}
use touche.Body.{BodyInner, bytes_body, unit_body, after_drop}
use touche.Response.Write.{Outcome}
use touche.Response.Written.{response_text}
use touche.Server.{Service, again, answer, respond, bare_response}
use touche.Server.Rounds.{session}
use touche.Server.Rules.{expects_continue}
use touche.Server.Expect.{bare_text, respond-expecting}

-- The guard of `Some(len) if len.0 <= self.max_length`.
unfoldable pub fits : Option ℕ → ℕ → Bool
fits none max_length = false
fits (some len) max_length = leb len max_length

module _ (c : Crates) {Handler : Type 0} where
  open c use {HeaderMap, no_headers, content_length}

  abbrev pub thanks : Response c Handler Bytes
  thanks = record {
    status = 200;
    version = http_11;
    headers = no_headers;
    upgrade = none;
    body = codes "Thanks for the info!";
  }

  -- UploadService, its state max_length. The request is dropped with its body.
  abbrev pub upload_service : Service c ℕ (Unit {0}) Handler Bytes
  upload_service = record {
    call = λ max_length req s. ((ok thanks, max_length), after_drop req.body s);
    should_continue = λ max_length req.
        ((if fits (content_length req.headers) max_length then 100 else 417), max_length);
  }

  -- An upload that expects a 100 gets it, and is answered, if it states a length within the limit; any other
  -- gets a 417, its body is dropped, and the next request is taken.
  pub upload_service-expecting :
      (now : ℕ → Bytes) (req : Request c (BodyInner HeaderMap)) (reader : Stream) (o : Bytes)
      (max_length ticks : ℕ) (out out' : Outcome Handler)
      → expects_continue c req.headers ≡ true
      → (response_text c {Handler = Handler} unit_body (bare_response c 100) true).1 ≡ ok out
      → (response_text c {Handler = Handler} unit_body (bare_response c 417) true).1 ≡ ok out'
      → let text = bare_text c bytes_body upload_service now in
        respond c bytes_body upload_service now req (session reader o max_length ticks) ≡ (
          if fits (content_length req.headers) max_length
          then answer c bytes_body upload_service now req
              (session reader (o ++ text 100) max_length ticks)
          else (ok again, session (after_drop req.body reader) (o ++ text 417) max_length ticks))
  upload_service-expecting now req reader o max_length ticks out out' expecting accept refuse =
      elim (Bool-cases (fits (content_length req.headers) max_length)) [
        | inl within ↦ rw within (
            respond-expecting c bytes_body upload_service now req reader o max_length max_length
              ticks 100 out expecting (rw within) accept)
        | inr beyond ↦ rw beyond (
            respond-expecting c bytes_body upload_service now req reader o max_length max_length
              ticks 417 out' expecting (rw beyond) refuse)
      ]
