-- ===== src/Client/Served.antt =====
-- A client and a server on the two sides of a connection: each reads what the other one writes.
use touche.Base.{ℕ, ◌^◌, ◌<◌, ◌≡◌, Option, none, some, [], Bool, true, false, Bytes, length}
use touche.Base.Result.{ok, err}
use touche.Io.{parse_failed}
use touche.Crates.{Crates}
use touche.Http.{Request, Response}
use touche.Body.{HttpBody, IoResult}
use touche.Wire.Body.{fixed_length}
use touche.Request.Written.{request_text}
use touche.Response.Encode.{choose_encoding}
use touche.Response.Write.{Outcome, keep_alive}
use touche.Response.Parsed.{CanSend}
use touche.Response.RoundTrip.{Holds}
use touche.Server.{Service, after_outcome}
use touche.Server.Rules.{demands_close, stamp, should_write_body}
use touche.Server.Exchange.{Exchange, blank_line}
use touche.Server.Pipeline.{Pipeline, reply}
use touche.Server.Rounds.{loop_end}

-- What the loop returns at the end of the connection, behind a blank line or not.
abbrev pub end_behind : {Handler : Type 0} → Bool → IoResult (Option Handler)
end_behind true = err parse_failed
end_behind false = ok none

module _ (c : Crates) {App Error Handler Sent B : Type 0} (sent_ops : HttpBody c.HeaderMap Sent)
    (ops : HttpBody c.HeaderMap B) (service : Service c App Error Handler B) (now : ℕ → Bytes) where
  open c use {HeaderMap, try_transfer_encoding, try_content_length}

  -- The response as it goes out: with the request's version and the headers of the server.
  abbrev pub stamped_response :
      ℕ → Request c Sent → HeaderMap → Response c Handler B → Response c Handler B
  stamped_response ticks req chosen res = record res {
    version = req.version;
    headers = (stamp c req.version chosen res.headers (now ticks)).0;
  }

  -- A request that goes out without an error, and a response of the bytes `bs` that goes out for it with the
  -- headers `shown`.
  pub record IsReplied (ticks : ℕ) (req : Request c Sent) (chosen : HeaderMap)
      (res : Response c Handler B) (bs : Bytes) (shown : HeaderMap) : Type 0 where
    pub stated : Option ℕ
    pub sent : (request_text c sent_ops req).1 ≡ ok tt
    pub fits : length bs < 2 ^ 64
    pub holds : Holds ops res.body bs
    pub unchunked : try_transfer_encoding (stamped_response ticks req chosen res).headers ≡ ok none
    pub sized : try_content_length (stamped_response ticks req chosen res).headers ≡ ok stated
    pub encoded :
        choose_encoding c req.version
          (stamped_response ticks req chosen res).headers
          (ops.len res.body)
        ≡ ok (fixed_length (length bs), shown)
    pub can_send : CanSend c req.version res.status shown
    pub with_body : should_write_body c req.method res.status ≡ true

  -- What the loop leaves unread and returns behind the reply to the last request: it goes on to the end of
  -- the connection, or it closes the connection or hands it over at once.
  pub data Ends (ticks : ℕ) (blank : Bool) (req : Request c Sent) (chosen : HeaderMap)
      (res : Response c Handler B) : Bytes → IoResult (Option Handler) → Type 0 where
    goes_on :
        (reply c sent_ops ops service now ticks req chosen res).1 ≡ ok keep_alive
        → demands_close c req.version chosen ≡ false
        → Ends ticks blank req chosen res [] (end_behind blank)
    leaves :
        (outcome : Outcome Handler) (end : IoResult (Option Handler))
        → (reply c sent_ops ops service now ticks req chosen res).1 ≡ ok outcome
        → loop_end (after_outcome (demands_close c req.version chosen) outcome) ≡ some end
        → Ends ticks blank req chosen res (blank_line blank) end
