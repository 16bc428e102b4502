-- ===== src/Response/Parsed.antt =====
-- The head of a response that `write_response` wrote is what `parse_response` reads first.
use touche.Base.{
  ℕ, ◌-◌, ◌≤◌, ◌≡◌, some, ◌∷◌, ◌++◌, map, append_assoc, false, Bytes, length, crlf, All, is_nil,
}
use touche.Base.Result.{ok}
use touche.Io.{Stream, with_rest}
use touche.Crates.{Crates, Version}
use touche.Crates.Laws.{HeaderLaws, ReadsResponses, version_number, status_text_line}
use touche.Head.{read_head}
use touche.Head.Sent.{http_version-number, is_nil-append}
use touche.Head.Lines.{lines, read_head-lines, IsLine}
use touche.Wire.{header_lines}
use touche.Wire.Header.{
  IsHeader, header_text, header_lines-IsLine, header_lines-lines, take_filled-slots,
}
use touche.Response.{response_head, parse_buffer, with_body, parse_response}
use touche.Response.Write.{status_line}
use touche.Response.Written.{head_text}

-- A head that goes over the wire: a version with a number, a status of three digits, and headers of
-- the right form, for which httparse has slots.
pub record CanSend (c : Crates) (version : Version) (status : ℕ) (h : c.HeaderMap) : Type 0 where
  pub number : ℕ
  pub versioned : version_number version ≡ some number
  pub low : 100 ≤ status
  pub high : status ≤ 999
  pub headers : All IsHeader (c.iter h)
  pub few : length (c.iter h) ≤ 64

module _ (c : Crates) where
  open c use {HeaderMap, iter}

  head_text-lines :
      (version : Version) (status : ℕ) (h : HeaderMap)
      → head_text c version status h
        ≡ lines (status_text_line c version status ∷ map header_text (iter h)) ++ crlf
  unfolding head_text status_line
  head_text-lines version status h = rw (header_lines-lines (iter h)) (simp append_assoc)

  head_text-status :
      (version : Version) (status : ℕ) (h : HeaderMap)
      → head_text c version status h
        ≡ status_text_line c version status ++ (crlf ++ (header_lines (iter h) ++ crlf))
  unfolding head_text status_line
  head_text-status version status h = simp append_assoc

  module _ (laws : HeaderLaws c) (heads : ReadsResponses c) where
    read_head-head_text :
        (version : Version) (status : ℕ) (h : HeaderMap) (s : Stream) (r : Bytes)
        → CanSend c version status h
        → read_head (with_rest s (head_text c version status h ++ r))
          ≡ (ok (head_text c version status h), with_rest s r)
    read_head-head_text version status h s r v =
        let line = status_text_line c version status in
        let more = map header_text (iter h) in
        let well_formed : All IsLine (line ∷ more) = (
          heads.line version status v.number v.versioned v.low v.high,
          header_lines-IsLine (iter h) v.headers,
        ) in
        let e = read_head-lines s line more r well_formed in
        rw (head_text-lines version status h) (simp append_assoc (simp append_assoc at e))

    response_head-head_text :
        (version : Version) (status : ℕ) (h : HeaderMap)
        → CanSend c version status h
        → response_head c (head_text c version status h) ≡ ok (status, version, h)
    unfolding response_head
    response_head-head_text version status h v = rw (
      head_text-status version status h,
      heads.reads version status v.number (iter h) v.versioned v.low v.high v.headers v.few,
      heads.code status v.low v.high,
      http_version-number version v.number v.versioned,
      take_filled-slots (iter h) (64 - length (iter h)) v.headers,
      laws.rebuilt h v.headers,
    )

    is_nil-head_text :
        (version : Version) (status : ℕ) (h : HeaderMap)
        → CanSend c version status h
        → is_nil (head_text c version status h) ≡ false
    is_nil-head_text version status h v =
        rw (head_text-status version status h)
          (is_nil-append _ _ (heads.line version status v.number v.versioned v.low v.high).0)

    -- The head of a response is read back, whatever follows it, and the body is read behind it.
    pub parse_response-head_text :
        {Handler : Type 0} (version : Version) (status : ℕ) (h : HeaderMap) (s : Stream) (r : Bytes)
        → CanSend c version status h
        → parse_response c {Handler = Handler} (with_rest s (head_text c version status h ++ r))
          ≡ with_body c (ok (status, version, h)) (with_rest s r)
    unfolding parse_response parse_buffer
    parse_response-head_text version status h s r v =
        rw (read_head-head_text version status h s r v, parse_response)
          (rw (is_nil-head_text version status h v, response_head-head_text version status h v))
