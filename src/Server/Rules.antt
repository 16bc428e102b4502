-- ===== src/Server/Rules.antt =====
-- server.rs, `serve`: what a request asks of the connection, and what the server adds to a response.
use touche.Base.{ℕ, Bool, true, false, not, ◌&&◌, Bytes, codes, if◌then◌else◌, is_some}
use touche.Crates.{Crates, Version, http_09, http_10}
use touche.Http.{asks_for, is_true}
use touche.Response.Encode.{is_http_10}

module _ (c : Crates) where
  open c use {
    Method, HeaderMap, connection, expect, date, insert, insert_date, is_head, is_connect,
    is_success,
  }

  unfoldable pub asks_for_keep_alive : HeaderMap → Bool
  asks_for_keep_alive headers = asks_for (codes "keep-alive") (connection headers)

  unfoldable pub demands_close : Version → HeaderMap → Bool
  unfolding asks_for_keep_alive
  demands_close http_09 headers = true
  demands_close http_10 headers = not (asks_for_keep_alive headers)
  demands_close version headers = asks_for (codes "close") (connection headers)

  unfoldable pub expects_continue : HeaderMap → Bool
  expects_continue headers = is_true (expect headers)

  -- The connection header for HTTP/1.0 without keep-alive.
  unfoldable pub with_connection : Version → HeaderMap → HeaderMap → HeaderMap
  with_connection version asked headers =
      if is_http_10 version && not (asks_for_keep_alive asked)
      then insert headers (codes "connection") (codes "close")
      else headers

  -- The headers that go out for a request's version and headers, and whether the date is among what was
  -- added.
  unfoldable pub stamp : Version → HeaderMap → HeaderMap → Bytes → HeaderMap × Bool
  unfolding with_connection
  stamp version asked headers now =
      let out = with_connection version asked headers in
      if is_some (date out) then (out, false) else (insert_date out now, true)

  -- The match on the method.
  unfoldable pub should_write_body : Method → ℕ → Bool
  should_write_body method status =
      if is_head method then false else if is_connect method then is_success status else true
