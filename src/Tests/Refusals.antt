-- ===== src/Tests/Refusals.antt =====
-- The theorems on requests and responses that are refused, at concrete inputs.
use touche.Base.{ℕ, ◌≡◌, ◌↔◌, refl, some, [], ◌∷◌, ◌++◌, arith, Bytes, codes}
use touche.Base.Result.{ok, err}
use touche.Io.{Stream, of_bytes, open_sink, parse_failed}
use touche.Crates.{http_11}
use touche.Body.{bytes_body}
use touche.Head.{ParseError, invalid_transfer_encoding}
use touche.Request.{parse_request}
use touche.Wire.Body.Laws.{body_text}
use touche.Request.Parsed.{CanAsk, asked_text}
use touche.Request.Write.{request_encoding, sized_request, version_name}
use touche.Request.Written.{request_text, framed_text}
use touche.Response.Parsed.{CanSend}
use touche.Response.Written.{head_text}
use touche.Client.{send_request}
use touche.Client.Malformed.{send_request-Unreadable}
use touche.Request.Errors.{Unreadable, not_chunked, parse_request-Unreadable}
use touche.Server.{serve}
use touche.Server.Rounds.{session}
use touche.Server.Malformed.{serve-Unreadable}
use touche.Wire.Header.{is_token, is_value_byte, starts_blank}
use touche.Tests.Sample.{sample, Pairs, lookup, same}
use touche.Tests.Maps.{sample-HeaderLaws}
use touche.Tests.Heads.{sample-ReadsRequests, sample-ReadsResponses}
use touche.Tests.Fixtures.{are_headers, sample-CanAsk, sample-CanSend, upload}
use touche.Tests.Pipelines.{greeter, midnight}

-- A body that is compressed, and not chunked.
abbrev gzipped : Pairs
gzipped = (codes "transfer-encoding", codes "gzip") ∷ []

abbrev gzipped_text : Bytes
gzipped_text = asked_text sample (codes "POST") (codes "/") gzipped (codes "HTTP/1.1")

gzipped-CanAsk : CanAsk sample (codes "POST") (codes "/") http_11 gzipped
unfolding are_headers is_token is_value_byte starts_blank
gzipped-CanAsk =
    sample-CanAsk (codes "POST") (codes "/") gzipped (omega arith) refl (omega arith) refl refl
      (omega arith)

gzipped-Unreadable : Unreadable sample gzipped (of_bytes (codes "abc")) invalid_transfer_encoding
unfolding lookup same
gzipped-Unreadable = not_chunked refl

parse_request-Unreadable_example :
    ((parse_request sample (of_bytes (gzipped_text ++ codes "abc"))).0
      ≡ err invalid_transfer_encoding)
    ↔ Unreadable sample gzipped (of_bytes (codes "abc")) invalid_transfer_encoding
unfolding gzipped-CanAsk sample-CanAsk
parse_request-Unreadable_example =
    parse_request-Unreadable sample sample-HeaderLaws sample-ReadsRequests (codes "POST")
      (codes "/") http_11 gzipped (of_bytes []) (codes "abc") invalid_transfer_encoding
      gzipped-CanAsk

serve-Unreadable_example :
    (left : Stream) × (serve sample bytes_body greeter midnight 1
        (session (of_bytes (gzipped_text ++ codes "abc")) [] 0 0)
      ≡ some (err parse_failed, session left [] 0 0))
unfolding gzipped-CanAsk sample-CanAsk
serve-Unreadable_example =
    serve-Unreadable sample bytes_body greeter midnight sample-HeaderLaws sample-ReadsRequests
      (codes "POST") (codes "/") http_11 gzipped (of_bytes []) (codes "abc") []
      invalid_transfer_encoding 0 0 0 gzipped-CanAsk gzipped-Unreadable

answered-CanSend : CanSend sample http_11 200 gzipped
unfolding are_headers is_token is_value_byte starts_blank
answered-CanSend = sample-CanSend gzipped refl (omega arith)

uploaded : (request_text sample bytes_body upload).1 ≡ ok tt
unfolding request_text framed_text request_encoding sized_request version_name lookup same body_text
uploaded = refl

send_request-Unreadable_example :
    (send_request sample {Conn = ℕ} {Handler = Unit {0}} bytes_body 3
        (of_bytes (head_text sample http_11 200 gzipped ++ codes "abc"))
        upload
        (open_sink [])
      ≡ (err parse_failed, open_sink (request_text sample bytes_body upload).0))
    ↔ ((e : ParseError) × Unreadable sample gzipped (of_bytes (codes "abc")) e)
send_request-Unreadable_example =
    send_request-Unreadable sample sample-HeaderLaws sample-ReadsResponses bytes_body 3 upload
      http_11 200 gzipped (of_bytes []) (codes "abc") [] uploaded answered-CanSend
