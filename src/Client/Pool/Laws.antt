-- ===== src/Client/Pool/Laws.antt =====
-- Which connections the client keeps.
use touche.Base.{◌≡◌, refl, Option, none, some, true, arith, if◌then◌else◌}
use touche.Base.Result.{ok, err}
use touche.Io.{IoError}
use touche.Crates.{Crates}
use touche.Http.{Request, Response}
use touche.Body.{BodyInner, HttpBody, IoResult}
use touche.Client.{ConnectionOutcome, close, keep_alive, upgrade, send_request}
use touche.Upgrade.{into_upgraded}
use touche.Client.Pool.{
  Network, Pool, remove, keep, connection_to, settle, exchange, request, with_host,
}

module _ (c : Crates) {Authority Conn B : Type 0} (net : Network c Authority Conn)
    (ops : HttpBody c.HeaderMap B) where
  open c use {HeaderMap}

  -- The connection that an exchange leaves for the next request.
  abbrev pub left_over : {R : Type 0} → IoResult (ConnectionOutcome Conn × R) → Option Conn
  left_over (ok (keep_alive conn, res)) = some conn
  left_over _ = none

  settle-pool :
      (a b : Authority)
      (r : IoResult (ConnectionOutcome Conn × Response c Conn (BodyInner HeaderMap)))
      (pool : Pool Authority Conn)
      → (settle c net ops a r (remove c net ops a pool)).1 b
        ≡ (if net.same a b then left_over r else pool b)
  unfolding settle keep remove
  settle-pool a b (ok (close, res)) pool = refl
  settle-pool a b (ok (upgrade conn, res)) pool = refl
  settle-pool a b (ok (keep_alive conn, res)) pool = ground arith
  settle-pool a b (err e) pool = refl

  -- After a request to an authority over one of its connections, the client keeps that connection for the
  -- authority if the exchange says so, and none else; the connections of the others are as they were.
  pub request-pool :
      (req : Request c B) (pool : Pool Authority Conn) (a b : Authority) (conn : Conn)
      → net.authority req.uri ≡ some a
      → connection_to c net ops a (pool a) ≡ ok conn
      → let (reader, writer) = net.sides conn in
        (request c net ops req pool).1 b ≡ (
          if net.same a b
          then left_over
              (send_request c {Handler = Conn} ops conn reader (with_host c net ops a req) writer).0
          else pool b)
  unfolding request exchange
  request-pool req pool a b conn e f = rw (e, request) (rw f (settle-pool a b _ pool))

  -- A connection that could not be made leaves the client without one for the authority.
  pub request-unconnected :
      (req : Request c B) (pool : Pool Authority Conn) (a : Authority) (x : IoError)
      → net.authority req.uri ≡ some a
      → net.same a a ≡ true
      → connection_to c net ops a (pool a) ≡ err x
      → (request c net ops req pool).1 a ≡ none
  unfolding request exchange remove
  request-unconnected req pool a x e s f = rw (e, request) (rw f (rw s))

  -- A response that switches protocols comes back with its connection, to be taken over, and the
  -- connection is not kept for other requests.
  pub request-upgraded :
      (req : Request c B) (pool : Pool Authority Conn) (a : Authority) (conn conn' : Conn)
      (res : Response c Conn (BodyInner HeaderMap))
      → net.authority req.uri ≡ some a
      → net.same a a ≡ true
      → connection_to c net ops a (pool a) ≡ ok conn
      → (let (reader, writer) = net.sides conn in
          (send_request c {Handler = Conn} ops conn reader (with_host c net ops a req) writer).0
          ≡ ok (upgrade conn', res))
      → (res' : Response c Conn (BodyInner HeaderMap)) × ((request c net ops req pool).0 ≡ ok res')
        × (into_upgraded res' ≡ ok conn')
        × ((request c net ops req pool).1 a ≡ none)
  unfolding request exchange settle remove into_upgraded
  request-upgraded req pool a conn conn' res e s f g = (
    record res { upgrade = some conn' },
    rw (e, request) (rw (f, g)),
    refl,
    rw (e, request) (rw (f, g, s)),
  )
