-- ===== src/Tests/Pipelines.antt =====
-- The theorems on the server's loop and its connections, at concrete inputs.
use touche.Server.{respond}
use touche.Base.{
  is_some, ℕ, suc, ◌≡◌, refl, ap, true, false, none, some, [], ◌∷◌, ◌++◌, arith, Bytes, codes,
  length, if◌then◌else◌,
}
use touche.Base.Result.{ok}
use touche.Io.{of_bytes}
use touche.Crates.{http_11}
use touche.Http.{Request, is_true}
use touche.Body.{BodyInner, bytes_body, after_drop}
use touche.Wire.Body.Laws.{body_text, bytes_text}
use touche.Response.Encode.{choose_encoding, sized_encoding, sent_headers}
use touche.Response.Write.{keep_alive, outcome}
use touche.Response.Written.{response_text, encoded_text, sent_body}
use touche.Request.Write.{request_encoding, sized_request}
use touche.Request.Written.{request_text}
use touche.Server.{Service, after_outcome, serve}
use touche.Server.Rules.{
  demands_close, expects_continue, asks_for_keep_alive, stamp, with_connection, should_write_body,
}
use touche.Server.Continue.{AnnouncesNone, Replies, respond-Replies}
use touche.Server.Rounds.{session}
use touche.Server.Exchange.{Exchange, sized, in_chunks}
use touche.Server.Pipeline.{Pipeline, answered, closing, reply, ticks_after, serve-Pipeline}
use touche.Chunked.{read_chunks}
use touche.Body.{buffered, iter, listed, bytes, len_inner}
use touche.Body.Reader.{contents}
use touche.Body.Chunks.{chunks, collect, next, measure}
use touche.Body.Consume.{inner_body, into_bytes, into_chunks, into_reader, source_items}
use touche.Response.RoundTrip.{Holds}
use touche.Tests.Sizes.{sample-ReadsSizes, sample_chunk_size}
use touche.Tests.Sample.{sample, Pairs, lookup, same, without, decimal_onto}
use touche.Tests.Maps.{sample-HeaderLaws}
use touche.Tests.Heads.{sample-ReadsRequests, sample-SkipsBlank}
use touche.Tests.Fixtures.{
  greeting, sample-CanAsk, are_headers, two_chunks, stream_headers, stream-CanAsk,
}
use touche.Wire.Header.{is_token, is_value_byte, starts_blank}

-- A service that counts its requests, drops their bodies and greets.
abbrev pub greeter : Service sample ℕ (Unit {0}) (Unit {0}) Bytes
greeter = record {
  call = λ n req s. ((ok greeting, suc n), after_drop req.body s);
  should_continue = λ n req. (100, n);
}

abbrev pub midnight : ℕ → Bytes
midnight n = codes "Thu, 01 Jan 1970 00:00:00 GMT"

-- A service that counts its requests, reads chunked bodies to their end, drops others, and greets.
abbrev reading_greeter : Service sample ℕ (Unit {0}) (Unit {0}) Bytes
reading_greeter = record {
  call = λ n req s. (
    (ok greeting, suc n),
    if is_true (sample.transfer_encoding req.headers)
        then (read_chunks sample_chunk_size s).1
        else after_drop req.body s,
  );
  should_continue = λ n req. (100, n);
}

abbrev two_pieces : Request sample (BodyInner Pairs)
two_pieces = record {
  method = codes "POST";
  uri = codes "/greetings";
  version = http_11;
  headers = (codes "host", codes "localhost") ∷ [];
  body = iter (listed (ok (bytes (codes "ab")) ∷ ok (bytes (codes "cde")) ∷ []));
}

abbrev farewell : Request sample (BodyInner Pairs)
farewell = record {
  method = codes "GET";
  uri = codes "/bye";
  version = http_11;
  headers = (codes "connection", codes "close") ∷ [];
  body = buffered (codes "bye");
}

abbrev farewell_headers : Pairs
farewell_headers = (codes "connection", codes "close") ∷ (codes "content-length", codes "3") ∷ []

two_pieces-Exchange :
    (n : ℕ)
    → Exchange sample
        (inner_body sample)
        reading_greeter
        n
        two_pieces
        stream_headers
        greeting
        (suc n)
        true
unfolding request_encoding sized_request expects_continue lookup same without decimal_onto len_inner
    into_chunks source_items chunks collect next measure
two_pieces-Exchange n = in_chunks two_chunks (record {
  stated = none;
  readable = refl;
  sendable = omega arith;
  holds = refl;
  encoded = refl;
  can_ask = stream-CanAsk;
  no_expect = refl;
  served = λ s left e. ap (λ p. ((ok greeting, suc n), p.1)) e;
})

farewell-Holds : Holds (inner_body sample) (buffered (codes "bye")) (codes "bye")
unfolding into_bytes into_reader contents len_inner
farewell-Holds = record { bytes = refl; rest = refl; fault = refl; size = λ n e. ground arith }

farewell-Exchange :
    (n : ℕ)
    → Exchange sample
        (inner_body sample)
        reading_greeter
        n
        farewell
        farewell_headers
        greeting
        (suc n)
        false
unfolding request_encoding sized_request expects_continue lookup same without decimal_onto len_inner
    are_headers is_token is_value_byte starts_blank
farewell-Exchange n = sized (codes "bye") (record {
  stated = none;
  fits = omega arith;
  holds = farewell-Holds;
  unchunked = refl;
  sized = refl;
  encoded = refl;
  can_ask =
      sample-CanAsk (codes "GET") (codes "/bye") farewell_headers (omega arith) refl (omega arith)
        refl refl (omega arith);
  no_expect = refl;
  served = λ b s e. refl;
})

abbrev reply_to : ℕ → Request sample (BodyInner Pairs) → Pairs → Bytes
reply_to ticks req headers =
    (reply sample (inner_body sample) bytes_body reading_greeter midnight ticks req headers
      greeting).0

abbrev both : Bytes
both =
    (request_text sample (inner_body sample) two_pieces).0
    ++ ((request_text sample (inner_body sample) farewell).0 ++ codes "GET")

abbrev replies : Bytes
replies = reply_to 0 two_pieces stream_headers ++ reply_to 1 farewell farewell_headers

both-Pipeline :
    Pipeline sample
      (inner_body sample)
      bytes_body
      reading_greeter
      midnight
      0
      0
      false
      both
      replies
      (codes "GET")
      2
      2
      (ok none)
unfolding reply ticks_after response_text encoded_text sent_body choose_encoding sized_encoding
    sent_headers outcome body_text bytes_text demands_close asks_for_keep_alive stamp
    with_connection should_write_body after_outcome lookup same without decimal_onto
both-Pipeline =
    answered 0 0 false true two_pieces stream_headers greeting 1
      ((request_text sample (inner_body sample) farewell).0 ++ codes "GET")
      (reply_to 1 farewell farewell_headers) (codes "GET") 2 2 (ok none) (two_pieces-Exchange 0)
      refl refl
      (closing 1 1 true false farewell farewell_headers greeting 2 (codes "GET") keep_alive
        (ok none) (farewell-Exchange 1) refl refl)

serve-Pipeline_example :
    serve sample bytes_body reading_greeter midnight
      (suc (length both))
      (session (of_bytes both) [] 0 0)
    ≡ some (ok none, session (of_bytes (codes "GET")) replies 2 2)
serve-Pipeline_example =
    serve-Pipeline sample (inner_body sample) bytes_body reading_greeter midnight sample-HeaderLaws
      sample-ReadsRequests sample-ReadsSizes sample-SkipsBlank 0 0 false both replies (codes "GET")
      2 2 (ok none) [] [] (suc (length both)) both-Pipeline (omega arith)

-- A service that lets no body come but a small one.
abbrev chooser : Service sample ℕ (Unit {0}) (Unit {0}) Bytes
chooser = record reading_greeter {
  should_continue =
      λ n req. ((if is_some (sample.content_length req.headers) then 100 else 417), n);
}

sample-AnnouncesNone : AnnouncesNone sample
unfolding lookup
sample-AnnouncesNone = record { unencoded = refl; unsized = refl }

-- The request expects a 100 and has a body behind its head.
abbrev cautious : Request sample (BodyInner Pairs)
cautious = record {
  method = codes "POST";
  uri = codes "/";
  version = http_11;
  headers = (codes "expect", codes "100-continue") ∷ (codes "content-length", codes "5") ∷ [];
  body = buffered (codes "hello");
}

respond-Replies_example :
    Replies sample bytes_body chooser midnight cautious (of_bytes (codes "GET")) [] 0 0 (
      respond sample bytes_body chooser midnight cautious (session (of_bytes (codes "GET")) [] 0 0))
respond-Replies_example =
    respond-Replies sample bytes_body chooser midnight cautious (of_bytes (codes "GET")) [] 0 0
      sample-HeaderLaws sample-AnnouncesNone
