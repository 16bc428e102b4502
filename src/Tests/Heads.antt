-- ===== src/Tests/Heads.antt =====
-- The laws of httparse for the concrete instance.
use touche.Base.{
  ℕ, ◌-◌, ◌≤◌, ◌<◌, ◌≡◌, refl, ap, sym, ◌∙◌, none, some, [], ◌∷◌, ◌++◌, append_assoc, arith, Bytes,
  codes, cr, lf, crlf, length, length-append, true, is_nil, if◌then◌else◌, All, take, replicate,
}
use touche.Base.Result.{ok}
use touche.Crates.{Version, http_10, http_11}
use touche.Crates.Laws.{
  ReadsResponses, ReadsRequests, SkipsBlank, version_number, status_text_line, request_text_line,
  is_visible,
}
use touche.Request.Write.{version_name}
use touche.Wire.{header_lines}
use touche.Wire.Laws.{NoLf-append}
use touche.Wire.Header.{IsHeader, is_token}
use touche.Tests.Sample.{
  sample, sample_request_head, parsed_request, sample_response_head, Pairs, same, header_pairs,
  slots, status_digits, version_of, version_text, decimal_value,
}
use touche.Tests.Splitting.{Lacks, Lacks-append, split-append, class-Lacks, slots-lines}

sample_response_head-line :
    (text rest more : Bytes)
    → Lacks lf text
    → Lacks 32 text
    → Lacks lf rest
    → sample_response_head (text ++ 32 ∷ rest ++ lf ∷ more)
      ≡ some (record {
        code = some (decimal_value 0 (take 3 rest));
        version = version_of text;
        headers = slots (header_pairs (length more) more);
      })
sample_response_head-line text rest more text_lf text_sp rest_lf =
    let whole : text ++ 32 ∷ rest ++ lf ∷ more ≡ (text ++ 32 ∷ rest) ++ lf ∷ more =
      simp append_assoc in
    let line_lf : Lacks lf (text ++ 32 ∷ rest) =
      Lacks-append lf text _ text_lf (omega arith, rest_lf) in
    rw whole (
      rw (split-append lf (text ++ 32 ∷ rest) more line_lf)
        (rw (split-append 32 text rest text_sp)))

status_value :
    (n : ℕ) (more : Bytes)
    → 100 ≤ n
    → n ≤ 999
    → decimal_value 0 (take 3 (status_digits n ++ more)) ≡ n
unfolding decimal_value
status_value n more low high = omega arith

version_bytes : (sep : ℕ) (version : Version) → sep < 46 → Lacks sep (version_text version)
version_bytes sep http_10 low = omega arith
version_bytes sep http_11 low = omega arith
version_bytes sep _ low = omega arith

status_bytes : (n : ℕ) → 100 ≤ n → n ≤ 999 → Lacks lf (status_digits n ++ codes " Status")
status_bytes n low high = omega arith

version_of-text :
    (version : Version) (number : ℕ)
    → version_number version ≡ some number
    → version_of (version_text version) ≡ some number
unfolding same
version_of-text http_10 number e = e
version_of-text http_11 number e = e
version_of-text _ number e = cc

-- The head of a response as it stands in the law, its status line in one piece.
status_text_line-split :
    (version : Version) (n : ℕ) (more : Bytes)
    → status_text_line sample version n ++ (crlf ++ more)
      ≡ version_text version ++ 32 ∷ ((status_digits n ++ codes " Status") ++ cr ∷ []) ++ lf ∷ more
status_text_line-split version n more = simp append_assoc

status_reads :
    (version : Version) (n number : ℕ) (hs : Pairs)
    → version_number version ≡ some number
    → 100 ≤ n
    → n ≤ 999
    → All IsHeader hs
    → sample_response_head
        (status_text_line sample version n ++ (crlf ++ (header_lines hs ++ crlf)))
      ≡ some (record {
        code = some n;
        version = some number;
        headers = hs ++ replicate (64 - length hs) ([], []);
      })
status_reads version n number hs e low high v =
    rw (status_text_line-split version n (header_lines hs ++ crlf)) (
      sample_response_head-line (version_text version)
        ((status_digits n ++ codes " Status") ++ cr ∷ []) (header_lines hs ++ crlf)
        (version_bytes lf version (omega arith)) (version_bytes 32 version (omega arith))
        (Lacks-append lf (status_digits n ++ codes " Status") (cr ∷ []) (status_bytes n low high)
          (omega arith))
      ∙ rw (slots-lines hs v, version_of-text version number e)
          (rw (status_value n (codes " Status" ++ cr ∷ []) low high)))

pub sample-ReadsResponses : ReadsResponses sample
sample-ReadsResponses = record {
  line = λ version n number e low high. (
    omega (
      arith,
      length-append (version_text version) (codes " " ++ (status_digits n ++ codes " Status")),
    ),
    NoLf-append (version_text version) _ (version_bytes lf version (omega arith))
        (omega arith, status_bytes n low high),
  );
  code = λ n low high. ground arith;
  reads = λ version n number hs e low high v few. status_reads version n number hs e low high v;
}

-- A head that begins with a token has no blank line to skip.
request_head-token :
    (b : ℕ) (bs : Bytes)
    → is_token b ≡ true
    → sample_request_head (b ∷ bs) ≡ parsed_request (b ∷ bs)
unfolding is_token
request_head-token b [] h = refl
request_head-token b (x ∷ xs) h = ground arith

parsed_request-line :
    (name path text more : Bytes)
    → All (λ b. is_token b ≡ true) name
    → All (λ b. is_visible b ≡ true) path
    → Lacks lf text
    → Lacks cr text
    → parsed_request (name ++ 32 ∷ path ++ 32 ∷ text ++ cr ∷ lf ∷ more)
      ≡ some (record {
        method = some name;
        path = some path;
        version = version_of text;
        headers = slots (header_pairs (length more) more);
      })
unfolding is_token
parsed_request-line name path text more token visible text_lf text_cr =
    let line = name ++ 32 ∷ (path ++ 32 ∷ (text ++ cr ∷ [])) in
    let whole : name ++ 32 ∷ path ++ 32 ∷ text ++ cr ∷ lf ∷ more ≡ line ++ lf ∷ more =
      simp append_assoc in
    let end_lf : Lacks lf (text ++ cr ∷ []) =
      Lacks-append lf text (cr ∷ []) text_lf (omega arith) in
    let path_lf =
      Lacks-append lf path (32 ∷ (text ++ cr ∷ [])) (class-Lacks is_visible lf path refl visible)
        (omega arith, end_lf) in
    let line_lf : Lacks lf line =
      Lacks-append lf name (32 ∷ (path ++ 32 ∷ (text ++ cr ∷ [])))
        (class-Lacks is_token lf name refl token) (omega arith, path_lf) in
    rw whole (
      rw (split-append lf line more line_lf) (
        rw
          (split-append 32 name (path ++ 32 ∷ (text ++ cr ∷ []))
            (class-Lacks is_token 32 name refl token))
          (rw (split-append 32 path (text ++ cr ∷ []) (class-Lacks is_visible 32 path refl visible))
            (rw (split-append cr text [] text_cr)))))

version_name-text :
    (version : Version) (number : ℕ) (name : Bytes)
    → version_number version ≡ some number
    → version_name version ≡ ok name
    → name ≡ version_text version
unfolding version_name
version_name-text http_10 number name e f = ground arith
version_name-text http_11 number name e f = ground arith
version_name-text _ number name e f = cc

named_bytes : (bs : Bytes) → 0 < length bs → (if is_nil bs then none else some bs) ≡ some bs
named_bytes [] h = absurd (omega arith)
named_bytes (b ∷ bs) h = refl

request_reads :
    (name path : Bytes) (version : Version) (number : ℕ) (hs : Pairs)
    → 0 < length name
    → All (λ b. is_token b ≡ true) name
    → All (λ b. is_visible b ≡ true) path
    → version_number version ≡ some number
    → All IsHeader hs
    → sample_request_head (
        request_text_line sample name path (version_text version)
        ++ (crlf ++ (header_lines hs ++ crlf)))
      ≡ some (record {
        method = some name;
        path = some path;
        version = some number;
        headers = hs ++ replicate (64 - length hs) ([], []);
      })
request_reads [] path version number hs named token visible e v = absurd (omega arith)
request_reads (b ∷ bs) path version number hs named token visible e v =
    let name = b ∷ bs in
    let whole : request_text_line sample name path (version_text version)
          ++ (crlf ++ (header_lines hs ++ crlf))
        ≡ name ++ 32 ∷ path ++ 32 ∷ version_text version ++ cr ∷ lf ∷ (header_lines hs ++ crlf) =
      simp append_assoc in
    request_head-token b _ token.0
    ∙ ap parsed_request whole
    ∙ parsed_request-line name path (version_text version) (header_lines hs ++ crlf) token visible
        (version_bytes lf version (omega arith)) (version_bytes cr version (omega arith))
    ∙ rw (slots-lines hs v, version_of-text version number e) refl

pub sample-ReadsRequests : ReadsRequests sample
sample-ReadsRequests = record {
  method = λ m named token. named_bytes m named;
  uri = λ u named visible. named_bytes u named;
  reads = λ m u version number name hs m_named token u_named visible e f v few.
      rw (version_name-text version number name e f)
        (request_reads m u version number hs m_named token visible e v);
}

pub sample-SkipsBlank : SkipsBlank sample
sample-SkipsBlank = record {
  skips = λ b bs token. sym (request_head-token b bs token);
  blank = λ head e. absurd (cc e);
}
