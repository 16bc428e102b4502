-- ===== src/Tests/RoundTrips.antt =====
-- The theorems on messages that are written and read back, at concrete inputs.
use touche.Body.{reader}
use touche.Base.{◌≡◌, refl, none, [], ◌∷◌, ◌++◌, arith, true, false, Bytes, codes}
use touche.Base.Result.{ok, err}
use touche.Io.{Stream, of_bytes, unexpected_eof}
use touche.Crates.{http_11}
use touche.Http.{Request, Response}
use touche.Head.{io}
use touche.Body.{BodyInner, bytes_body, iter, decoded, after_drop, len_inner}
use touche.Body.Consume.{into_bytes, inner_body}
use touche.Chunked.{read_chunks}
use touche.Wire.{header_line, header_lines, chunk_frame, chunk_frames}
use touche.Wire.Hex.{hex}
use touche.Response.{parse_response}
use touche.Response.Encode.{choose_encoding, sized_encoding, unsized_encoding}
use touche.Response.Written.{response_text}
use touche.Response.RoundTrip.{extend_all}
use touche.Response.RoundTrip.Fixed.{fixed_round_trip}
use touche.Response.RoundTrip.Chunked.{chunked_round_trip}
use touche.Request.{parse_request}
use touche.Request.Write.{request_encoding, sized_request}
use touche.Request.Written.{request_text}
use touche.Request.RoundTrip.{request_fixed_round_trip, request_chunked_round_trip}
use touche.Server.Rounds.{arrived}
use touche.Client.Answered.{head_answer_unread}
use touche.Tests.Fixtures.{
  greeting, greeting_headers, greeting-CanSend, upload, upload_headers, upload-CanAsk, bytes-Holds,
  checksum, two_chunks, pieces, pieces-chunks, streamed_headers, streamed-CanSend, stream_headers,
  stream-CanAsk,
}
use touche.Tests.Sizes.{sample-ReadsSizes}
use touche.Tests.Sample.{sample, Pairs, lookup, same, without, decimal_onto}
use touche.Tests.Maps.{sample-HeaderLaws}
use touche.Tests.Heads.{sample-ReadsResponses, sample-ReadsRequests}

-- The bytes of another message on the same connection.
abbrev more : Bytes
more = codes "HTTP/1.1 200"

abbrev received : Bytes → BodyInner Pairs → Response sample (Unit {0}) (BodyInner Pairs)
received server b = record {
  status = 200;
  version = http_11;
  headers = (codes "server", server) ∷ (codes "content-length", codes "5") ∷ [];
  upgrade = none;
  body = b;
}

fixed_round_trip_example :
    (b : BodyInner Pairs) × (s' : Stream) × (parse_response sample {Handler = Unit {0}}
        (of_bytes ((response_text sample bytes_body greeting true).0 ++ more))
      ≡ (ok (received (codes "touche") b), s'))
    × (into_bytes sample b ≡ ok (codes "hello"))
    × (after_drop b s' ≡ of_bytes more)
unfolding choose_encoding sized_encoding lookup same without decimal_onto
fixed_round_trip_example =
    fixed_round_trip sample sample-HeaderLaws bytes_body greeting greeting_headers none
      (codes "hello") (of_bytes []) more sample-ReadsResponses (omega arith)
      (bytes-Holds (codes "hello")) refl refl refl greeting-CanSend

request_fixed_round_trip_example :
    (b : BodyInner Pairs) × (s' : Stream) × (parse_request sample
        (of_bytes ((request_text sample bytes_body upload).0 ++ more))
      ≡ (ok (arrived sample upload upload_headers b), s'))
    × (into_bytes sample b ≡ ok (codes "hello"))
    × (after_drop b s' ≡ of_bytes more)
unfolding request_encoding sized_request lookup same without decimal_onto
request_fixed_round_trip_example =
    request_fixed_round_trip sample sample-HeaderLaws sample-ReadsRequests bytes_body upload
      upload_headers none (codes "hello") (of_bytes []) more (omega arith)
      (bytes-Holds (codes "hello")) refl refl refl upload-CanAsk

abbrev streamed : Response sample (Unit {0}) (BodyInner Pairs)
streamed = record {
  status = 200;
  version = http_11;
  headers = (codes "server", codes "touche") ∷ [];
  upgrade = none;
  body = pieces;
}

chunked_round_trip_example :
    (s' : Stream) × (parse_response sample {Handler = Unit {0}}
        (of_bytes ((response_text sample (inner_body sample) streamed true).0 ++ more))
      ≡ (ok (record streamed { headers = streamed_headers; body = iter (decoded s') }), s'))
    × (into_bytes sample (iter (decoded s')) ≡ ok (codes "abcde"))
    × ((read_chunks sample.parse_chunk_size s').1 ≡ of_bytes (codes "checksum: 7\r\n\r\n" ++ more))
unfolding choose_encoding sized_encoding unsized_encoding lookup same without len_inner header_lines
    header_line extend_all
chunked_round_trip_example =
    chunked_round_trip sample sample-HeaderLaws {Handler' = Unit {0}} (inner_body sample) streamed
      streamed_headers none two_chunks (checksum ∷ []) (of_bytes []) more sample-ReadsResponses
      sample-ReadsSizes (omega arith) pieces-chunks refl refl streamed-CanSend

abbrev stream : Request sample (BodyInner Pairs)
stream = record {
  method = codes "POST";
  uri = codes "/greetings";
  version = http_11;
  headers = (codes "host", codes "localhost") ∷ [];
  body = pieces;
}

request_chunked_round_trip_example :
    (b : BodyInner Pairs) × (s' : Stream) × (parse_request sample
        (of_bytes ((request_text sample (inner_body sample) stream).0 ++ more))
      ≡ (ok (record stream { headers = stream_headers; body = b }), s'))
    × (into_bytes sample b ≡ ok (codes "abcde"))
    × ((read_chunks sample.parse_chunk_size s').1 ≡ of_bytes (codes "checksum: 7\r\n\r\n" ++ more))
    × (after_drop b s' ≡ of_bytes (codes "2\r\nab\r\n3\r\ncde\r\n0\r\nchecksum: 7\r\n\r\n" ++ more))
unfolding request_encoding sized_request lookup same without len_inner header_lines header_line
    chunk_frames chunk_frame hex extend_all
request_chunked_round_trip_example =
    request_chunked_round_trip sample sample-HeaderLaws sample-ReadsRequests (inner_body sample)
      stream stream_headers none two_chunks (checksum ∷ []) (of_bytes []) more sample-ReadsSizes
      (omega arith) pieces-chunks refl refl stream-CanAsk

head_answer_unread_example :
    (parse_response sample {Handler = Unit {0}}
      (of_bytes (response_text sample bytes_body greeting false).0)).0
    ≡ err (io unexpected_eof)
unfolding choose_encoding sized_encoding lookup same without decimal_onto
head_answer_unread_example =
    head_answer_unread sample sample-HeaderLaws sample-ReadsResponses bytes_body greeting
      greeting_headers none 5 [] refl refl refl greeting-CanSend (omega arith) (omega arith)

-- A body of unknown length in a response that asks for the end of the connection.
abbrev last_response : Response sample (Unit {0}) (BodyInner Pairs)
last_response = record {
  status = 200;
  version = http_11;
  headers = (codes "connection", codes "close") ∷ [];
  upgrade = none;
  body = reader (of_bytes (codes "hello")) none;
}
