-- ===== src/Tests/Messages.antt =====
-- The theorems on messages that are written, at concrete inputs.
use touche.Base.{◌≡◌, refl, none, some, [], ◌∷◌, ◌++◌, true, false, Bytes, codes}
use touche.Base.Result.{ok}
use touche.Io.{open_sink}
use touche.Crates.{http_11}
use touche.Http.{Request, Response}
use touche.Body.{bytes_body}
use touche.Wire.Body.{Encoding}
use touche.Wire.Body.Laws.{body_text, bytes_text}
use touche.Response.Encode.{choose_encoding, sized_encoding, has_connection_close, sent_headers}
use touche.Response.Write.{is_close_delimited, write_response, outcome}
use touche.Response.Written.{response_text, encoded_text, sent_body, write_response-open}
use touche.Response.Outcomes.{keep_alive-delimited}
use touche.Request.Write.{write_request}
use touche.Request.Written.{request_text, write_request-open}
use touche.Tests.Sample.{sample, Pairs, lookup, same, without, decimal_onto}

abbrev greeting : Response sample (Unit {0}) Bytes
greeting = record {
  status = 200;
  version = http_11;
  headers = (codes "server", codes "touche") ∷ [];
  upgrade = none;
  body = codes "hello";
}

abbrev upload : Request sample Bytes
upload = record {
  method = codes "POST";
  uri = codes "/greetings";
  version = http_11;
  headers = (codes "host", codes "localhost") ∷ [];
  body = codes "hello";
}

write_response-open_example : write_response sample bytes_body greeting true (open_sink []) ≡ (
  (response_text sample bytes_body greeting true).1,
  open_sink ([] ++ (response_text sample bytes_body greeting true).0),
)
write_response-open_example = write_response-open sample bytes_body greeting true []

write_request-open_example : write_request sample bytes_body upload (open_sink []) ≡ (
  (request_text sample bytes_body upload).1,
  open_sink ([] ++ (request_text sample bytes_body upload).0),
)
write_request-open_example = write_request-open sample bytes_body upload []

keep_alive-delimited_example :
    (encoding : Encoding) × (chosen : Pairs) × (choose_encoding sample http_11 greeting.headers
        (some 5)
      ≡ ok (encoding, chosen))
    × (is_close_delimited encoding ≡ false)
    × (has_connection_close sample (sent_headers sample http_11 greeting.headers chosen) ≡ false)
unfolding response_text encoded_text outcome choose_encoding sized_encoding sent_headers sent_body
    body_text bytes_text lookup same without decimal_onto
keep_alive-delimited_example = keep_alive-delimited sample bytes_body greeting true refl
