-- ===== src/Tests/Serving.antt =====
-- The theorems on the server, at concrete inputs.
use touche.Base.{
  ℕ, suc, ◌≡◌, refl, Bool, Option, none, some, [], ◌++◌, arith, Bytes, codes, if◌then◌else◌,
}
use touche.Base.Result.{Result, ok}
use touche.Io.{IoError, of_bytes, open_sink}
use touche.Crates.{http_10, http_11}
use touche.Http.{Request, Response}
use touche.Body.{IoResult, BodyInner, empty, bytes_body, after_drop}
use touche.Response.Written.{response_text}
use touche.Server.{Next, Service, Session, answer, serve}
use touche.Server.Fuel.{serve-ends}
use touche.Server.Described.{Closes, Connected, Dated, Carries, Follows, answer-described}
use touche.Tests.Sample.{sample, Pairs}

abbrev Incoming : Type 0
Incoming = Request sample (BodyInner Pairs)

abbrev hello : Response sample (Unit {0}) Bytes
hello = record {
  status = 200;
  version = http_11;
  headers = [];
  upgrade = none;
  body = codes "hello";
}

abbrev refusal : Response sample (Unit {0}) Bytes
refusal = record {
  status = 405;
  version = http_11;
  headers = [];
  upgrade = none;
  body = codes "no tunnels";
}

-- A service that counts its requests, drops their bodies and greets.
abbrev greeter : Service sample ℕ (Unit {0}) (Unit {0}) Bytes
greeter = record {
  call = λ n req s. ((ok hello, suc n), after_drop req.body s);
  should_continue = λ n req. (100, n);
}

abbrev midnight : ℕ → Bytes
midnight n = codes "Thu, 01 Jan 1970 00:00:00 GMT"

abbrev two_requests : Session ℕ
two_requests = record {
  reader =
      of_bytes
        (codes "GET / HTTP/1.1\r\nhost: a\r\n\r\nGET /bye HTTP/1.1\r\nconnection: close\r\n\r\n");
  writer = open_sink [];
  app = 0;
  ticks = 0;
}

abbrev get : Incoming
get = record {
  method = codes "GET";
  uri = codes "/";
  version = http_11;
  headers = [];
  body = empty;
}

abbrev tunnel : Incoming
tunnel = record {
  method = codes "CONNECT";
  uri = codes "a:80";
  version = http_11;
  headers = [];
  body = empty;
}

serve-ends_example :
    (r : Result IoError (Option (Unit {0})) × Session ℕ) × (serve sample bytes_body greeter midnight
        100 two_requests
      ≡ some r)
serve-ends_example =
    serve-ends sample bytes_body greeter midnight 100 two_requests (λ app req s n leaves. leaves.1)
      (omega arith)

-- A HEAD over HTTP/1.0 without keep-alive.
abbrev old_head : Incoming
old_head = record {
  method = codes "HEAD";
  uri = codes "/";
  version = http_10;
  headers = [];
  body = empty;
}

answer-described_example :
    (closes with_body reads : Bool) × (connected headers : Pairs) × (next : IoResult
      (Next (Unit {0})))
    × Closes sample http_10 [] closes
    × Connected sample http_10 [] hello.headers connected
    × Dated sample (midnight 0) connected headers reads
    × Carries sample (codes "HEAD") hello.status with_body
    × (let text =
          response_text sample bytes_body
            (record hello { version = http_10; headers = headers })
            with_body in
        Follows closes text.1 next
        × (answer sample bytes_body greeter midnight old_head
              (record two_requests { writer = open_sink [] })
            ≡ (
              next,
              record {
                reader = two_requests.reader;
                writer = open_sink ([] ++ text.0);
                app = 1;
                ticks = if reads then 1 else 0;
              },
            )))
unfolding after_drop
answer-described_example =
    answer-described sample bytes_body greeter midnight old_head hello 1 two_requests []
      two_requests.reader refl
