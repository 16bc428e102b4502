-- ===== src/Examples/Producers.antt =====
-- examples/chunked.rs, trailers.rs and sse.rs: threads that fill the body of a response.
pub mod Received
use touche.Base.{ℕ, zero, suc, List, [], ◌∷◌, ◌++◌, Bytes, codes, concat, replicate}
use touche.Base.Result.{Result, ok, err, Act, map_err, ◌>>◌, pure}
use touche.Io.{IoError}
use touche.Crates.{Crates}
use touche.Body.Channel.{Channel, TrailerError, send, send_trailer, io}

-- What the thread of sse.rs sends: `for _ in 1..10` runs nine times.
abbrev pub sse_events : List Bytes
sse_events =
    codes "event: userconnect\ndata: {\"name\": \"sasha\"}\n\n"
    ∷ (replicate 9
          (codes "event: usermessage\ndata: {\"name\": \"sasha\", \"message\": \"message\"}\n\n")
        ++ codes "event: userdisconnect\ndata: {\"name\": \"sasha\"}\n\n" ∷ [])

module _ {HeaderMap : Type 0} where
  -- Sends, each with the `?` that gives up at the first one that fails.
  unfoldable pub send_each : List Bytes → Act (Channel HeaderMap) IoError (Unit {0})
  unfolding send
  send_each [] = pure tt
  send_each (bs ∷ more) = do send bs; send_each more

  -- The thread of chunked.rs.
  abbrev pub chunked_thread : Act (Channel HeaderMap) IoError (Unit {0})
  chunked_thread = send_each (codes "chunk1" ∷ codes "chunk2" ∷ codes "chunk3" ∷ [])

  -- The thread of sse.rs.
  abbrev pub sse_thread : Act (Channel HeaderMap) IoError (Unit {0})
  sse_thread = send_each sse_events

module _ (c : Crates) (digest : Bytes → Bytes) where
  -- The error of a send in the box of errors.
  unfoldable pub boxed :
      {A : Type 0} → Act (Channel c.HeaderMap) IoError A → Act (Channel c.HeaderMap) TrailerError A
  boxed m ch = let (r, ch') = m ch in (map_err io r, ch')

  -- The thread of trailers.rs, over the chunks that it sends: md5 consumes one after the other, and its
  -- base64 is the trailer. `digest` is what the two crates make of all bytes.
  unfoldable pub digest_thread : List Bytes → Act (Channel c.HeaderMap) TrailerError (Unit {0})
  unfolding boxed send_each
  digest_thread chunks = do
    boxed (send_each chunks)
    send_trailer c (codes "content-md5") (digest (concat chunks))

  abbrev pub trailers_thread : Act (Channel c.HeaderMap) TrailerError (Unit {0})
  trailers_thread = digest_thread (codes "chunk1" ∷ codes "chunk2" ∷ codes "chunk3" ∷ [])
