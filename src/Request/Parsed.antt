-- ===== src/Request/Parsed.antt =====
-- The head of a request that `write_request` wrote is what `parse_request` reads first.
use touche.Base.{
  ℕ, ◌-◌, ◌≤◌, ◌<◌, ◌≡◌, ap, refl, some, [], ◌∷◌, ◌++◌, map, append_assoc, arith, true, false,
  Bytes, length, length-append, codes, crlf, lf, All, is_nil,
}
use touche.Base.Result.{ok}
use touche.Io.{Stream, with_rest}
use touche.Crates.{Crates, Version, http_10, http_11}
use touche.Crates.Laws.{HeaderLaws, ReadsRequests, version_number, request_text_line, is_visible}
use touche.Head.{read_head}
use touche.Head.Sent.{http_version-number, is_nil-append}
use touche.Head.Lines.{lines, read_head-lines, IsLine}
use touche.Wire.{header_lines}
use touche.Wire.Laws.{NoLf, NoLf-append}
use touche.Wire.Header.{
  IsHeader, is_token, token-NoLf, header_text, header_lines-IsLine, header_lines-lines,
  take_filled-slots,
}
use touche.Request.{request_head, over_head, parse_request_buffer, parse_request}
use touche.Request.Write.{version_name, request_line}

visible-NoLf : (bs : Bytes) → All (λ b. is_visible b ≡ true) bs → NoLf bs
visible-NoLf [] h = tt
visible-NoLf (b ∷ bs) h = (
  (λ e. let off : is_visible lf ≡ false = refl in cc (h.0, ap is_visible e, off)),
  visible-NoLf bs h.1,
)

version_name-NoLf : (version : Version) (name : Bytes) → version_name version ≡ ok name → NoLf name
unfolding version_name
version_name-NoLf http_10 name e =
    let spelled : name ≡ codes "HTTP/1.0" = ground arith in rw spelled (omega arith)
version_name-NoLf http_11 name e =
    let spelled : name ≡ codes "HTTP/1.1" = ground arith in rw spelled (omega arith)
version_name-NoLf _ name e = absurd (cc e)

-- A head that goes over the wire: a method that is a token, a visible target, a version with a number
-- and a name, and headers of the right form, for which httparse has slots.
pub record CanAsk (c : Crates) (method : c.Method) (uri : c.Uri) (version : Version)
    (h : c.HeaderMap) : Type 0 where
  pub number : ℕ
  pub versioned : version_number version ≡ some number
  pub version_text : Bytes
  pub spelled : version_name version ≡ ok version_text
  pub named : 0 < length (c.method_text method)
  pub token : All (λ b. is_token b ≡ true) (c.method_text method)
  pub targeted : 0 < length (c.uri_text uri)
  pub visible : All (λ b. is_visible b ≡ true) (c.uri_text uri)
  pub headers : All IsHeader (c.iter h)
  pub few : length (c.iter h) ≤ 64

module _ (c : Crates) where
  open c use {Method, Uri, HeaderMap, iter, method_text, uri_text}

  -- The head that goes out: the request line, the headers and the blank line.
  unfoldable pub asked_text : Method → Uri → HeaderMap → Bytes → Bytes
  asked_text method uri h name = request_line c method uri name ++ (header_lines (iter h) ++ crlf)

  pub asked_text-lines :
      (method : Method) (uri : Uri) (h : HeaderMap) (name : Bytes)
      → asked_text method uri h name
        ≡ lines (request_text_line c method uri name ∷ map header_text (iter h)) ++ crlf
  unfolding asked_text request_line
  asked_text-lines method uri h name = rw (header_lines-lines (iter h)) (simp append_assoc)

  pub asked_text-request :
      (method : Method) (uri : Uri) (h : HeaderMap) (name : Bytes)
      → asked_text method uri h name
        ≡ request_text_line c method uri name ++ (crlf ++ (header_lines (iter h) ++ crlf))
  unfolding asked_text request_line
  asked_text-request method uri h name = simp append_assoc

  pub request_text_line-IsLine :
      (method : Method) (uri : Uri) (version : Version) (h : HeaderMap)
      → (v : CanAsk c method uri version h) → IsLine (request_text_line c method uri v.version_text)
  request_text_line-IsLine method uri version h v = (
    omega (
      arith,
      length-append (method_text method)
          (codes " " ++ (uri_text uri ++ (codes " " ++ v.version_text))),
      v.named,
    ),
    NoLf-append (method_text method) _ (token-NoLf (method_text method) v.token) (
      omega arith,
      NoLf-append (uri_text uri) _ (visible-NoLf (uri_text uri) v.visible)
          (omega arith, version_name-NoLf version v.version_text v.spelled),
    ),
  )

  pub asked_text-filled :
      (method : Method) (uri : Uri) (version : Version) (h : HeaderMap)
      → (v : CanAsk c method uri version h) → 0 < length (asked_text method uri h v.version_text)
  asked_text-filled method uri version h v = rw (asked_text-request method uri h v.version_text) (
      omega (
        arith,
        length-append (request_text_line c method uri v.version_text)
            (crlf ++ (header_lines (iter h) ++ crlf)),
        (request_text_line-IsLine method uri version h v).0,
      ))

  module _ (laws : HeaderLaws c) (heads : ReadsRequests c) where
    read_head-asked_text :
        (method : Method) (uri : Uri) (version : Version) (h : HeaderMap) (s : Stream) (r : Bytes)
        → (v : CanAsk c method uri version h)
        → read_head (with_rest s (asked_text method uri h v.version_text ++ r))
          ≡ (ok (asked_text method uri h v.version_text), with_rest s r)
    read_head-asked_text method uri version h s r v =
        let line = request_text_line c method uri v.version_text in
        let more = map header_text (iter h) in
        let well_formed : All IsLine (line ∷ more) = (
          request_text_line-IsLine method uri version h v,
          header_lines-IsLine (iter h) v.headers,
        ) in
        let e = read_head-lines s line more r well_formed in
        rw (asked_text-lines method uri h v.version_text)
          (simp append_assoc (simp append_assoc at e))

    pub request_head-asked_text :
        (method : Method) (uri : Uri) (version : Version) (h : HeaderMap)
        → (v : CanAsk c method uri version h)
        → request_head c (asked_text method uri h v.version_text) ≡ ok (method, uri, version, h)
    unfolding request_head
    request_head-asked_text method uri version h v = rw (
      asked_text-request method uri h v.version_text,
      heads.reads method uri version v.number v.version_text (iter h) v.named v.token v.targeted
          v.visible v.versioned v.spelled v.headers v.few,
      http_version-number version v.number v.versioned,
      heads.method method v.named v.token,
      heads.uri uri v.targeted v.visible,
      take_filled-slots (iter h) (64 - length (iter h)) v.headers,
      laws.rebuilt h v.headers,
    )

    pub is_nil-asked_text :
        (method : Method) (uri : Uri) (version : Version) (h : HeaderMap)
        → (v : CanAsk c method uri version h)
        → is_nil (asked_text method uri h v.version_text) ≡ false
    is_nil-asked_text method uri version h v =
        rw (asked_text-request method uri h v.version_text)
          (is_nil-append _ _ (request_text_line-IsLine method uri version h v).0)

    -- The head of a request is read back, whatever follows it, and the body is read behind it.
    pub parse_request-asked_text :
        (method : Method) (uri : Uri) (version : Version) (h : HeaderMap) (s : Stream) (r : Bytes)
        → (v : CanAsk c method uri version h)
        → parse_request c (with_rest s (asked_text method uri h v.version_text ++ r))
          ≡ over_head c (ok (method, uri, version, h)) (with_rest s r)
    unfolding parse_request parse_request_buffer
    parse_request-asked_text method uri version h s r v =
        rw (read_head-asked_text method uri version h s r v, parse_request)
          (rw (
            is_nil-asked_text method uri version h v,
            request_head-asked_text method uri version h v,
          ))
