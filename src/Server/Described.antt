-- ===== src/Server/Described.antt =====
-- What a request asks of the connection and what goes out for it, described case by case.
use touche.Base.{
  ℕ, suc, ◌≡◌, ◌≢◌, refl, none, some, ◌++◌, Bool, true, false, Bytes, codes, if◌then◌else◌,
  Bool-cases, Option-cases, inl, inr,
}
use touche.Base.Result.{ok, err, and_then}
use touche.Io.{IoError, Stream, open_sink}
use touche.Crates.{Crates, Version, http_09, http_10, http_11, http_2, http_3}
use touche.Http.{Request, Response, asks_for}
use touche.Body.{BodyInner, HttpBody, IoResult}
use touche.Response.Write.{Outcome, close, keep_alive, upgrade}
use touche.Response.Written.{response_text}
use touche.Server.{Service, Session, Next, again, closed, upgraded, after_outcome, answer}
use touche.Server.Rules.{
  asks_for_keep_alive, demands_close, with_connection, stamp, should_write_body,
}
use touche.Server.Output.{answer-open}

-- What follows a response, by whether the request demands the end of the connection.
pub data Follows {Handler : Type 0}
    : Bool → IoResult (Outcome Handler) → IoResult (Next Handler) → Type 0 where
  failed : (closes : Bool) (e : IoError) → Follows closes (err e) (err e)
  kept : Follows false (ok keep_alive) (ok again)
  demanded : Follows true (ok keep_alive) (ok closed)
  ended : (closes : Bool) → Follows closes (ok close) (ok closed)
  handed :
      (closes : Bool) (handler : Handler)
      → Follows closes (ok (upgrade handler)) (ok (upgraded handler))

module _ (c : Crates) where
  open c use {
    Method, HeaderMap, connection, date, insert, insert_date, is_head, is_connect, is_success,
  }

  abbrev pub asks : Bytes → HeaderMap → Bool
  asks token headers = asks_for token (connection headers)

  -- Whether a request of a version and with headers demands the end of the connection.
  pub data Closes : Version → HeaderMap → Bool → Type 0 where
    oldest : (h : HeaderMap) → Closes http_09 h true
    unkept : (h : HeaderMap) → asks (codes "keep-alive") h ≡ false → Closes http_10 h true
    kept_alive : (h : HeaderMap) → asks (codes "keep-alive") h ≡ true → Closes http_10 h false
    newer :
        (v : Version) (h : HeaderMap) (b : Bool)
        → v ≢ http_09
        → v ≢ http_10
        → asks (codes "close") h ≡ b
        → Closes v h b

  -- The headers of a response with the connection header that a request calls for.
  pub data Connected : Version → HeaderMap → HeaderMap → HeaderMap → Type 0 where
    added :
        (asked h : HeaderMap)
        → asks (codes "keep-alive") asked ≡ false
        → Connected http_10 asked h (insert h (codes "connection") (codes "close"))
    kept_open :
        (asked h : HeaderMap) → asks (codes "keep-alive") asked ≡ true → Connected http_10 asked h h
    other : (v : Version) (asked h : HeaderMap) → v ≢ http_10 → Connected v asked h h

  -- With a date, and whether it is one that was added.
  pub data Dated (now : Bytes) : HeaderMap → HeaderMap → Bool → Type 0 where
    dated : (h : HeaderMap) (d : Bytes) → date h ≡ some d → Dated now h h false
    undated : (h : HeaderMap) → date h ≡ none → Dated now h (insert_date h now) true

  -- Whether the body goes out.
  pub data Carries : Method → ℕ → Bool → Type 0 where
    head : (m : Method) (status : ℕ) → is_head m ≡ true → Carries m status false
    tunnel :
        (m : Method) (status : ℕ)
        → is_head m ≡ false
        → is_connect m ≡ true
        → Carries m status (is_success status)
    plain :
        (m : Method) (status : ℕ) → is_head m ≡ false → is_connect m ≡ false → Carries m status true

  demands_close-Closes : (v : Version) (h : HeaderMap) → Closes v h (demands_close c v h)
  unfolding demands_close asks_for_keep_alive
  demands_close-Closes http_09 h = oldest h
  demands_close-Closes http_10 h = elim (Bool-cases (asks (codes "keep-alive") h)) [
    | inl hit ↦ rw hit (kept_alive h hit)
    | inr miss ↦ rw miss (unkept h miss)
  ]
  demands_close-Closes http_11 h = newer http_11 h _ (λ e. absurd (cc e)) (λ e. absurd (cc e)) refl
  demands_close-Closes http_2 h = newer http_2 h _ (λ e. absurd (cc e)) (λ e. absurd (cc e)) refl
  demands_close-Closes http_3 h = newer http_3 h _ (λ e. absurd (cc e)) (λ e. absurd (cc e)) refl

  with_connection-Connected :
      (v : Version) (asked h : HeaderMap) → Connected v asked h (with_connection c v asked h)
  unfolding with_connection asks_for_keep_alive
  with_connection-Connected http_10 asked h = elim (Bool-cases (asks (codes "keep-alive") asked)) [
    | inl hit ↦ rw hit (kept_open asked h hit)
    | inr miss ↦ rw miss (added asked h miss)
  ]
  with_connection-Connected http_09 asked h = other http_09 asked h (λ e. absurd (cc e))
  with_connection-Connected http_11 asked h = other http_11 asked h (λ e. absurd (cc e))
  with_connection-Connected http_2 asked h = other http_2 asked h (λ e. absurd (cc e))
  with_connection-Connected http_3 asked h = other http_3 asked h (λ e. absurd (cc e))

  stamp-Dated :
      (v : Version) (asked h : HeaderMap) (now : Bytes)
      → Dated now (with_connection c v asked h) (stamp c v asked h now).0 (stamp c v asked h now).1
  unfolding stamp
  stamp-Dated v asked h now = elim (Option-cases (date (with_connection c v asked h))) [
    | inl miss ↦ rw miss (undated (with_connection c v asked h) miss)
    | inr (d, hit) ↦ rw hit (dated (with_connection c v asked h) d hit)
  ]

  should_write_body-Carries :
      (m : Method) (status : ℕ) → Carries m status (should_write_body c m status)
  unfolding should_write_body
  should_write_body-Carries m status = elim (Bool-cases (is_head m)) [
    | inl hit ↦ rw hit (head m status hit)
    | inr miss ↦ elim (Bool-cases (is_connect m)) [
      | inl to ↦ rw (miss, to) (tunnel m status miss to)
      | inr by ↦ rw (miss, by) (plain m status miss by)
    ]
  ]

  after_outcome-Follows :
      {Handler : Type 0} (closes : Bool) (r : IoResult (Outcome Handler))
      → Follows closes r (and_then r (λ out. ok (after_outcome closes out)))
  unfolding after_outcome
  after_outcome-Follows closes (err e) = failed closes e
  after_outcome-Follows true (ok keep_alive) = demanded
  after_outcome-Follows false (ok keep_alive) = kept
  after_outcome-Follows closes (ok close) = ended closes
  after_outcome-Follows closes (ok (upgrade handler)) = handed closes handler

  module _ {App Error Handler B : Type 0} (ops : HttpBody HeaderMap B)
      (service : Service c App Error Handler B) (now : ℕ → Bytes) where
    -- A request that the service answers makes the server, on a connection that takes everything, write the
    -- text of that response with the request's version, with "connection: close" added for HTTP/1.0 without
    -- keep-alive, and with a date unless it has one; without its body for a HEAD and for a CONNECT that is
    -- refused. The loop goes on exactly if the response's outcome keeps the connection and the request does
    -- not demand its end: one of HTTP/0.9, of HTTP/1.0 without keep-alive, or of a newer version with close.
    pub answer-described :
        (req : Request c (BodyInner HeaderMap)) (res : Response c Handler B) (app : App)
        (s : Session App) (o : Bytes) (behind : Stream)
        → service.call s.app req s.reader ≡ ((ok res, app), behind)
        → (closes with_body reads : Bool) × (connected headers : HeaderMap) × (next : IoResult
            (Next Handler))
          × Closes req.version req.headers closes
          × Connected req.version req.headers res.headers connected
          × Dated (now s.ticks) connected headers reads
          × Carries req.method res.status with_body
          × (let text =
                response_text c ops
                  (record res { version = req.version; headers = headers })
                  with_body in
              Follows closes text.1 next
              × (answer c ops service now req (record s { writer = open_sink o }) ≡ (
                next,
                record {
                  reader = behind;
                  writer = open_sink (o ++ text.0);
                  app = app;
                  ticks = if reads then suc s.ticks else s.ticks;
                },
              )))
    answer-described req res app s o behind e = (
      demands_close c req.version req.headers,
      should_write_body c req.method res.status,
      (stamp c req.version req.headers res.headers (now s.ticks)).1,
      with_connection c req.version req.headers res.headers,
      (stamp c req.version req.headers res.headers (now s.ticks)).0,
      _,
      demands_close-Closes req.version req.headers,
      with_connection-Connected req.version req.headers res.headers,
      stamp-Dated req.version req.headers res.headers (now s.ticks),
      should_write_body-Carries req.method res.status,
      (
        after_outcome-Follows (demands_close c req.version req.headers) _,
        answer-open c ops service now req res app s o behind e,
      ),
    )
