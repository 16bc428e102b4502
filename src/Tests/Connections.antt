-- ===== src/Tests/Connections.antt =====
-- The theorems on connections and the client's pool, at concrete inputs.
use mathlib.Core.Logic.{◌↔◌}
use touche.Base.{ℕ, Option, ◌≡◌, refl, none, some, List, [], ◌∷◌, arith, false, Bytes, codes, ◌==◌}
use touche.Base.Result.{Result, ok, err}
use touche.Io.{Stream, of_bytes, open_sink}
use touche.Crates.{http_11}
use touche.Head.{connection_closed}
use touche.Http.{Response}
use touche.Body.{BodyInner, bytes_body, empty}
use touche.Tls.{Shared, RustlsConnection, at, put, into_inner, unwrap, clone_handle}
use touche.Connection.{
  Connection, Underlying, rustls, tls_stream, tls_id, rewrap, downcast_tls, downcast,
  drop_connection,
}
use touche.Connection.Downcast.{Gives, downcast-Gives, clone-downcast}
use touche.Client.{send_request}
use touche.Client.Pool.{Network, Pool, connection_to, with_host, request}
use touche.Client.Pool.Laws.{left_over, request-pool}
use touche.Request.{parse_request}
use touche.Request.Closed.{parse_request-closed}
use touche.Tests.Sample.{sample, Pairs}
use touche.Tests.Fixtures.{upload}

abbrev handle : RustlsConnection
handle = record { place = 0 }

-- One TLS stream, by its number, with two owners.
abbrev shared : List (Shared ℕ)
shared = record { owners = 2; poisoned = false; stream = 7 } ∷ []

abbrev two_handles : List (Shared ℕ)
two_handles = record { owners = 3; poisoned = false; stream = 7 } ∷ []

-- One TLS stream that has one owner.
abbrev owned : List (Shared ℕ)
owned = record { owners = 1; poisoned = false; stream = 7 } ∷ []

abbrev given : Option (Result (Connection ℕ ℕ) (Underlying ℕ ℕ ℕ) × List (Shared ℕ))
given = some (ok (tls_stream 7), put 0 (record { owners = 0; poisoned = false; stream = 7 }) owned)

given_is : downcast tls_id (rustls handle) owned ≡ given
unfolding downcast into_inner unwrap rewrap downcast_tls at put
given_is = refl

downcast-Gives_example : Gives tls_id (rustls handle) owned given
unfolding downcast into_inner unwrap rewrap downcast_tls at put
downcast-Gives_example =
    downcast-Gives tls_id (rustls handle) owned
      (record { owners = 1; poisoned = false; stream = 7 }, refl)

clone-downcast_example :
    (downcast {Tcp = ℕ} {Unix = ℕ} tls_id (rustls handle) two_handles
      ≡ some (err (rustls handle), two_handles))
    × (drop_connection {Tcp = ℕ} {Unix = ℕ} (rustls handle) two_handles ≡ shared)
unfolding clone_handle at put
clone-downcast_example =
    clone-downcast {Tcp = ℕ} {Unix = ℕ} tls_id handle
      (record { owners = 2; poisoned = false; stream = 7 }) shared refl (omega arith)

-- A network on which every connection is what it delivers, and authorities are numbers.
abbrev net : Network sample ℕ Bytes
net = record {
  authority = λ uri. some 1;
  host = λ a. codes "localhost";
  port = λ a. some 4444;
  same = λ a b. a == b;
  connect = λ host port. ok (codes "HTTP/1.1 204 None\r\n\r\n");
  sides = λ conn. (of_bytes conn, open_sink []);
}

abbrev no_connections : Pool ℕ Bytes
no_connections a = none

abbrev created : Bytes
created = codes "HTTP/1.1 204 None\r\n\r\n"

request-pool_example :
    (request sample net bytes_body upload no_connections).1 1
    ≡ left_over sample net bytes_body
        (send_request sample {Handler = Bytes} bytes_body created
          (of_bytes created)
          (with_host sample net bytes_body 1 upload)
          (open_sink [])).0
unfolding connection_to
request-pool_example =
    request-pool sample net bytes_body upload no_connections 1 1 created refl refl

abbrev half_head : Stream
half_head = of_bytes (codes "GET / HTTP/1.1\r\n")

parse_request-closed_example :
    ((parse_request sample half_head).0 ≡ err connection_closed)
    ↔ ((half_head.rest ≡ []) × (half_head.fault ≡ none))
parse_request-closed_example = parse_request-closed sample half_head

abbrev switching : Bytes
switching = codes "HTTP/1.1 101 Other\r\n\r\n"

abbrev upgrading : Network sample ℕ Bytes
upgrading = record net { connect = λ host port. ok switching }

abbrev switched : Response sample Bytes (BodyInner Pairs)
switched = record { status = 101; version = http_11; headers = []; upgrade = none; body = empty }
