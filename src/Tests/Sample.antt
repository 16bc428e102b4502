-- ===== src/Tests/Sample.antt =====
-- A concrete instance of the third-party crates, enough to run the program on messages: headers are
-- pairs in order, their names in lower case; heads are split at spaces, colons and line ends.
use touche.Base.{
  ℕ, zero, suc, ◌+◌, ◌-◌, ◌*◌, ◌/◌, ◌%◌, Option, none, some, List, [], ◌∷◌, ◌++◌, Bytes, codes, cr,
  lf, length, ◌==◌, ltb, leb, Bool, true, false, ◌&&◌, is_nil, if◌then◌else◌, take, replicate,
}
use touche.Base.Result.{ok}
use touche.Crates.{Crates, RequestHead, ResponseHead, Version, http_10, http_11}
use touche.Tests.Sizes.{sample_chunk_size}

unfoldable pub same : Bytes → Bytes → Bool
same [] [] = true
same (a ∷ xs) (b ∷ ys) = a == b && same xs ys
same _ _ = false

-- The bytes in front of the first separator, and those behind it.
unfoldable pub split : ℕ → Bytes → Bytes × Bytes
split sep [] = ([], [])
split sep (b ∷ bs) = let (l, r) = split sep bs in if b == sep then ([], bs) else (b ∷ l, r)

unfoldable pub decimal_onto : ℕ → ℕ → Bytes → Bytes
decimal_onto zero n acc = acc
decimal_onto (suc fuel) n acc =
    let longer = decimal_onto fuel (n / 10) ((48 + n % 10) ∷ acc) in
    if ltb n 10 then (48 + n) ∷ acc else longer

abbrev pub decimal : ℕ → Bytes
decimal n = decimal_onto (suc n) n []

unfoldable pub decimal_value : ℕ → Bytes → ℕ
decimal_value v [] = v
decimal_value v (b ∷ bs) = decimal_value (v * 10 + (b - 48)) bs

abbrev pub Pairs : Type 0
Pairs = List (Bytes × Bytes)

unfoldable pub lookup : Bytes → Pairs → Option Bytes
lookup name [] = none
lookup name ((n, v) ∷ hs) = if same n name then some v else lookup name hs

unfoldable pub without : Bytes → Pairs → Pairs
without name [] = []
without name ((n, v) ∷ hs) = if same n name then without name hs else (n, v) ∷ without name hs

abbrev pub put : Bytes → Bytes → Pairs → Pairs
put name value hs = without name hs ++ (name, value) ∷ []

unfoldable pub drop_blank : Bytes → Bytes
drop_blank [] = []
drop_blank (b ∷ bs) = if b == 32 then bs else b ∷ bs

-- "name: value\r\n" lines up to the blank one.
unfoldable pub header_pairs : ℕ → Bytes → Pairs
header_pairs zero bs = []
header_pairs (suc fuel) bs =
    let (line, more) = split lf bs in
    let (name, value) = split 58 line in
    let (text, end) = split cr value in
    let rest = header_pairs fuel more in if is_nil value then [] else (name, drop_blank text) ∷ rest

-- The 64 slots, those behind the headers empty.
abbrev pub slots : Pairs → Pairs
slots hs = hs ++ replicate (64 - length hs) ([], [])

-- The three digits of a status.
abbrev pub status_digits : ℕ → Bytes
status_digits n = (48 + n / 100) ∷ (48 + n / 10 % 10) ∷ (48 + n % 10) ∷ []

abbrev pub version_of : Bytes → Option ℕ
version_of text =
    if same text (codes "HTTP/1.1")
    then some 1
    else if same text (codes "HTTP/1.0")
    then some 0
    else none

-- A blank line in front of the head is skipped.
abbrev pub skip_blank : Bytes → Bytes
skip_blank (a ∷ b ∷ bs) = if a == cr && b == lf then bs else a ∷ b ∷ bs
skip_blank buf = buf

abbrev pub parsed_request : Bytes → Option RequestHead
parsed_request buf =
    let (line, more) = split lf buf in
    let (method, rest) = split 32 line in
    let (path, rest') = split 32 rest in
    let (version, end) = split cr rest' in
    some (record {
      method = some method;
      path = some path;
      version = version_of version;
      headers = slots (header_pairs (length more) more);
    })

abbrev pub sample_request : Bytes → Option RequestHead
sample_request [] = none
sample_request (b ∷ bs) = parsed_request (b ∷ bs)

abbrev pub sample_request_head : Bytes → Option RequestHead
sample_request_head buf = sample_request (skip_blank buf)

abbrev pub sample_response_head : Bytes → Option ResponseHead
sample_response_head buf =
    let (line, more) = split lf buf in
    let (version, rest) = split 32 line in
    some (record {
      code = some (decimal_value 0 (take 3 rest));
      version = version_of version;
      headers = slots (header_pairs (length more) more);
    })

abbrev pub version_text : Version → Bytes
version_text http_10 = codes "HTTP/1.0"
version_text http_11 = codes "HTTP/1.1"
version_text _ = codes "HTTP/?"

abbrev pub header_option : {A : Type 0} → (Bytes → A) → Option Bytes → Option A
header_option f none = none
header_option f (some v) = some (f v)

abbrev pub sample : Crates
sample = record {
  parse_chunk_size = sample_chunk_size;
  parse_request_head = sample_request_head;
  parse_response_head = sample_response_head;
  Method = Bytes;
  method_from_bytes = λ bs. if is_nil bs then none else some bs;
  method_text = λ m. m;
  is_get = same (codes "GET");
  is_head = same (codes "HEAD");
  is_connect = same (codes "CONNECT");
  Uri = Bytes;
  uri_from_bytes = λ bs. if is_nil bs then none else some bs;
  uri_text = λ u. u;
  status_from_u16 = λ n. if leb 100 n && ltb n 1000 then some n else none;
  status_text = λ n. status_digits n ++ codes " Status";
  is_success = λ n. leb 200 n && ltb n 300;
  version_debug = version_text;
  HeaderMap = Pairs;
  no_headers = [];
  append = λ hs n v. if is_nil n then none else some (hs ++ (n, v) ∷ []);
  iter = λ hs. hs;
  insert = λ hs n v. put n v hs;
  extend = λ hs more. hs ++ more;
  remove_transfer_encoding = without (codes "transfer-encoding");
  try_transfer_encoding =
      λ hs. ok (header_option (same (codes "chunked")) (lookup (codes "transfer-encoding") hs));
  transfer_encoding =
      λ hs. header_option (same (codes "chunked")) (lookup (codes "transfer-encoding") hs);
  try_content_length =
      λ hs. ok (header_option (decimal_value 0) (lookup (codes "content-length") hs));
  content_length = λ hs. header_option (decimal_value 0) (lookup (codes "content-length") hs);
  connection = λ hs. header_option same (lookup (codes "connection") hs);
  expect = λ hs. header_option (same (codes "100-continue")) (lookup (codes "expect") hs);
  date = lookup (codes "date");
  insert_content_length = λ hs n. put (codes "content-length") (decimal n) hs;
  insert_chunked = put (codes "transfer-encoding") (codes "chunked");
  insert_connection_close = put (codes "connection") (codes "close");
  insert_date = λ hs d. put (codes "date") d hs;
}
