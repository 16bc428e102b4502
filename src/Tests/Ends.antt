-- ===== src/Tests/Ends.antt =====
-- A client and a server on the two sides of a connection, at a concrete request.
use touche.Base.{none, [], ◌∷◌, Bytes, codes}
use touche.Crates.{http_11}
use touche.Http.{Response}
use touche.Body.{BodyInner, bytes_body}
use touche.Request.Written.{request_text}
use touche.Server.Exchange.{Exchange}
use touche.Server.Pipeline.{reply}
use touche.Tests.Sample.{sample, Pairs}
use touche.Tests.Fixtures.{greeting, upload, upload_headers}
use touche.Tests.Pipelines.{greeter, midnight}

-- The headers of the reply.
abbrev shown : Pairs
shown =
    (codes "server", codes "touche")
    ∷ (codes "date", midnight 0)
    ∷ (codes "content-length", codes "5")
    ∷ []

abbrev asked : Bytes
asked = (request_text sample bytes_body upload).0

abbrev replied : Bytes
replied = (reply sample bytes_body bytes_body greeter midnight 0 upload upload_headers greeting).0

abbrev got : BodyInner Pairs → Response sample (Unit {0}) (BodyInner Pairs)
got b = record { status = 200; version = http_11; headers = shown; upgrade = none; body = b }
