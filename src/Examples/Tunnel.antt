-- ===== src/Examples/Tunnel.antt =====
-- examples/tunnel.rs: a proxy for CONNECT, which passes bytes between two connections by two threads.
pub mod Counts
use touche.Base.{
  ℕ, ◌+◌, ◌≡◌, ◌⊎◌, Option, none, some, [], ◌∷◌, ◌++◌, Bool, true, false, Bytes, codes, length,
  if◌then◌else◌,
}
use touche.Base.Result.{Result, ok, err, and_then}
use touche.Io.{IoError}
use touche.Crates.{Crates, http_11}
use touche.Http.{Response}
use touche.Body.{BodyInner, IoResult, empty, buffered}
use touche.Upgrade.{upgrade}

-- The closure that is served, by whether the request is a CONNECT, the address that its target names, and
-- the headers with "allow: connect". The handler of an upgrade connects to the address.
unfoldable pub tunnel_response :
    (c : Crates) → Bool → Option Bytes → c.HeaderMap → Response c Bytes (BodyInner c.HeaderMap)
unfolding upgrade
tunnel_response c is_connect address allow =
    let answer : ℕ
        → c.HeaderMap
        → BodyInner c.HeaderMap
        → Response c Bytes (BodyInner c.HeaderMap) =
      λ status headers body. record {
        status = status;
        version = http_11;
        headers = headers;
        upgrade = none;
        body = body;
      } in
    if is_connect
    then (elim address [
      | none ↦ answer 400 c.no_headers (buffered (codes "Invalid address"))
      | some a ↦ upgrade (answer 200 c.no_headers empty) a
    ])
    else answer 405 allow empty

-- A thread: io::copy, with the bytes that it has passed, or what the thread returned.
pub data Thread : Type 0 where
  copying : ℕ → Thread
  returned : IoResult ℕ → Thread

-- One direction: what its source sends and was not read, what was written to the other side, and the
-- thread.
pub record Direction : Type 0 where
  pub pending : Bytes
  pub passed : Bytes
  pub thread : Thread

abbrev pub opened : Bytes → Direction
opened bs = record { pending = bs; passed = []; thread = copying 0 }

-- The thread has come to its end and has shut its writer down, which is the source of the other thread.
abbrev pub Closed : Direction → Type 0
Closed d = (n : ℕ) × (d.thread ≡ returned (ok n))

-- A step of the thread, next to the other direction: it passes some bytes, comes to the end of its source
-- and shuts the writer down, or fails.
pub data Step (other : Direction) : Direction → Direction → Type 0 where
  passes :
      (bs more passed : Bytes) (n : ℕ)
      → Step other
          (record { pending = bs ++ more; passed = passed; thread = copying n })
          (record { pending = more; passed = passed ++ bs; thread = copying (n + length bs) })
  ends :
      (pending passed : Bytes) (n : ℕ)
      → (pending ≡ []) ⊎ Closed other
      → Step other
          (record { pending = pending; passed = passed; thread = copying n })
          (record { pending = pending; passed = passed; thread = returned (ok n) })
  fails :
      (pending passed : Bytes) (n : ℕ) (e : IoError)
      → Step other
          (record { pending = pending; passed = passed; thread = copying n })
          (record { pending = pending; passed = passed; thread = returned (err e) })

-- What becomes of a tunnel between a client that sends `a` and a server that sends `b`: the direction to the
-- server, and the one back.
pub data Reachable (a b : Bytes) : Direction → Direction → Type 0 where
  started : Reachable a b (opened a) (opened b)
  up : (to to' back : Direction) → Step back to to' → Reachable a b to back → Reachable a b to' back
  down :
      (to back back' : Direction)
      → Step to back back'
      → Reachable a b to back
      → Reachable a b to back'

-- The two joins; `none` while one of them waits. An error of the first thread is returned at once.
unfoldable pub joined : Thread → Thread → Option (IoResult (ℕ × ℕ))
joined (returned (err e)) _ = some (err e)
joined (returned (ok n)) (returned r) = some (and_then r λ m. ok (n, m))
joined _ _ = none

abbrev pub tunnel : Direction → Direction → Option (IoResult (ℕ × ℕ))
tunnel to back = joined to.thread back.thread
