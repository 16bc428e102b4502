-- ===== src/Response/Write.antt =====
-- write_response: the response goes out, and the outcome says what becomes of the connection.
use touche.Base.{
  ℕ, Option, none, some, ◌++◌, Bool, true, false, ◌||◌, Bytes, codes, crlf, if◌then◌else◌,
}
use touche.Base.Result.{pure, lift, ◌>>=◌, ◌>>◌}
use touche.Io.{Write, write_all}
use touche.Crates.{Crates, Version}
use touche.Http.{Response}
use touche.Body.{HttpBody}
use touche.Wire.Body.{Encoding, close_delimited, write_headers, write_body}
use touche.Response.Encode.{choose_encoding, sent_headers, has_connection_close}

-- response.rs: Outcome
pub data Outcome (Handler : Type 0) : Type 0 where
  close keep_alive : Outcome Handler
  upgrade : Handler → Outcome Handler

abbrev pub is_close_delimited : Encoding → Bool
is_close_delimited close_delimited = true
is_close_delimited _ = false

module _ (c : Crates) where
  open c use {HeaderMap, iter, version_debug, status_text}

  -- format!("{version:?} {status}\r\n")
  unfoldable pub status_line : Version → ℕ → Bytes
  status_line version status = version_debug version ++ (codes " " ++ (status_text status ++ crlf))

  unfoldable pub outcome :
      {Handler : Type 0} → Option Handler → Encoding → HeaderMap → Outcome Handler
  outcome (some handler) encoding headers = upgrade handler
  outcome none encoding headers =
      if is_close_delimited encoding || has_connection_close c headers then close else keep_alive

  unfoldable pub write_response :
      {Handler B : Type 0}
      → HttpBody HeaderMap B
      → Response c Handler B
      → Bool
      → Write (Outcome Handler)
  write_response ops res with_body = do
    (encoding, chosen) ← lift (choose_encoding c res.version res.headers (ops.len res.body))
    let headers = sent_headers c res.version res.headers chosen
    write_all (status_line res.version res.status)
    write_headers (iter headers)
    write_all crlf
    if with_body then write_body c ops encoding res.body else pure tt
    pure (outcome res.upgrade encoding headers)
