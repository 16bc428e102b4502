-- ===== src/Tests/Fixtures.antt =====
-- Headers and messages for the theorems at concrete inputs.
use mathlib.Core.List.{reverse}
use touche.Base.{
  ℕ, ◌<◌, ◌≤◌, ◌≡◌, refl, none, List, [], ◌∷◌, ◌++◌, map, arith, true, Bool, not, Bytes, codes,
  length, ltb, All, ◌&&◌,
}
use touche.Base.Result.{ok}
use touche.Crates.{http_11}
use touche.Crates.Laws.{is_visible}
use touche.Http.{Request, Response}
use touche.Body.{BodyInner, bytes_body, iter, listed, bytes, trailers}
use touche.Body.Consume.{inner_body, into_chunks, source_items}
use touche.Body.Chunks.{chunks, collect, next, measure}
use touche.Response.Parsed.{CanSend}
use touche.Response.RoundTrip.{Holds}
use touche.Request.Write.{version_name}
use touche.Request.Parsed.{CanAsk}
use touche.Wire.Header.{IsHeader, is_token, is_value_byte, starts_blank}
use touche.Tests.Sample.{sample, Pairs}

unfoldable pub passes : (ℕ → Bool) → Bytes → Bool
passes p [] = true
passes p (b ∷ bs) = p b && passes p bs

unfoldable pub is_header : Bytes × Bytes → Bool
unfolding passes
is_header (name, val) =
    ltb 0 (length name)
    && (passes is_token name
        && (passes is_value_byte val
            && (not (starts_blank val) && not (starts_blank (reverse val)))))

unfoldable pub are_headers : Pairs → Bool
unfolding is_header
are_headers [] = true
are_headers (h ∷ hs) = is_header h && are_headers hs

pub All-passes : (p : ℕ → Bool) (bs : Bytes) → passes p bs ≡ true → All (λ b. p b ≡ true) bs
unfolding passes
All-passes p [] e = tt
All-passes p (b ∷ bs) e = (ground arith, All-passes p bs (ground arith))

is_header-IsHeader : (h : Bytes × Bytes) → is_header h ≡ true → IsHeader h
unfolding is_header
is_header-IsHeader (name, val) e = record {
  named = ground arith;
  token = All-passes is_token name (ground arith);
  printable = All-passes is_value_byte val (ground arith);
  trimmed = ground arith;
  trimmed_end = ground arith;
}

pub All-are_headers : (hs : Pairs) → are_headers hs ≡ true → All IsHeader hs
unfolding are_headers
All-are_headers [] e = tt
All-are_headers (h ∷ hs) e =
    (is_header-IsHeader h (ground arith), All-are_headers hs (ground arith))

pub bytes-Holds : (bs : Bytes) → Holds (bytes_body {HeaderMap = Pairs}) bs bs
bytes-Holds bs = record { bytes = refl; rest = refl; fault = refl; size = λ n e. ground arith }

abbrev pub greeting : Response sample (Unit {0}) Bytes
greeting = record {
  status = 200;
  version = http_11;
  headers = (codes "server", codes "touche") ∷ [];
  upgrade = none;
  body = codes "hello";
}

abbrev pub greeting_headers : Pairs
greeting_headers = (codes "server", codes "touche") ∷ (codes "content-length", codes "5") ∷ []

pub sample-CanSend :
    (hs : Pairs) → are_headers hs ≡ true → length hs ≤ 64 → CanSend sample http_11 200 hs
sample-CanSend hs well_formed few = record {
  number = 1;
  versioned = refl;
  low = omega arith;
  high = omega arith;
  headers = All-are_headers hs well_formed;
  few = few;
}

pub greeting-CanSend : CanSend sample http_11 200 greeting_headers
unfolding are_headers is_token is_value_byte starts_blank
greeting-CanSend = sample-CanSend greeting_headers refl (omega arith)

abbrev pub upload : Request sample Bytes
upload = record {
  method = codes "POST";
  uri = codes "/greetings";
  version = http_11;
  headers = (codes "host", codes "localhost") ∷ [];
  body = codes "hello";
}

abbrev pub upload_headers : Pairs
upload_headers = (codes "host", codes "localhost") ∷ (codes "content-length", codes "5") ∷ []

unfoldable pub sample-CanAsk :
    (method uri : Bytes) (hs : Pairs)
    → 0 < length method
    → passes is_token method ≡ true
    → 0 < length uri
    → passes is_visible uri ≡ true
    → are_headers hs ≡ true
    → length hs ≤ 64
    → CanAsk sample method uri http_11 hs
unfolding version_name
sample-CanAsk method uri hs named token targeted visible well_formed few = record {
  number = 1;
  versioned = refl;
  version_text = codes "HTTP/1.1";
  spelled = refl;
  named = named;
  token = All-passes is_token method token;
  targeted = targeted;
  visible = All-passes is_visible uri visible;
  headers = All-are_headers hs well_formed;
  few = few;
}

pub upload-CanAsk : CanAsk sample (codes "POST") (codes "/greetings") http_11 upload_headers
unfolding are_headers is_token is_value_byte starts_blank
upload-CanAsk =
    sample-CanAsk (codes "POST") (codes "/greetings") upload_headers (omega arith) refl
      (omega arith) refl refl (omega arith)

abbrev pub checksum : Pairs
checksum = (codes "checksum", codes "7") ∷ []

abbrev pub two_chunks : List Bytes
two_chunks = codes "ab" ∷ codes "cde" ∷ []

-- A body of two chunks and a trailer.
abbrev pub pieces : BodyInner Pairs
pieces =
    iter (listed (ok (bytes (codes "ab")) ∷ ok (bytes (codes "cde")) ∷ ok (trailers checksum) ∷ []))

pub pieces-chunks :
    (inner_body sample).into_chunks pieces
    ≡ map (λ bs. ok (bytes bs)) two_chunks ++ map (λ t. ok (trailers t)) (checksum ∷ [])
unfolding into_chunks source_items chunks collect next measure
pieces-chunks = refl

abbrev pub streamed_headers : Pairs
streamed_headers =
    (codes "server", codes "touche") ∷ (codes "transfer-encoding", codes "chunked") ∷ []

pub streamed-CanSend : CanSend sample http_11 200 streamed_headers
unfolding are_headers is_token is_value_byte starts_blank
streamed-CanSend = sample-CanSend streamed_headers refl (omega arith)

abbrev pub stream_headers : Pairs
stream_headers =
    (codes "host", codes "localhost") ∷ (codes "transfer-encoding", codes "chunked") ∷ []

pub stream-CanAsk : CanAsk sample (codes "POST") (codes "/greetings") http_11 stream_headers
unfolding are_headers is_token is_value_byte starts_blank
stream-CanAsk =
    sample-CanAsk (codes "POST") (codes "/greetings") stream_headers (omega arith) refl
      (omega arith) refl refl (omega arith)
