-- ===== src/Tests/Bodies.antt =====
-- The theorems on streams, heads and bodies, at concrete inputs.
use touche.Base.{◌≡◌, none, some, List, [], ◌∷◌, ◌++◌, arith, Bytes, codes, crlf, length}
use touche.Base.Result.{ok, err}
use touche.Io.{Stream, of_bytes, aborted}
use touche.Wire.{chunk_frames, last_chunk}
use touche.Chunked.{read_chunks}
use touche.Chunked.RoundTrip.{read_chunks-chunk_frames, read_chunks-empty_chunk}
use touche.Chunked.Capacity.{Runs, try_read_chunks, try_read_chunks-Runs}
use touche.Body.{BodyInner, bytes, trailers, listed, iter, reader, drop_body}
use touche.Body.Reader
use touche.Body.Reader.{contents}
use touche.Body.Reader.Laws.{read_all, whole, read_all-contents}
use touche.Body.Chunks.{chunks}
use touche.Body.Chunks.Laws.{payload}
use touche.Body.Consume.{into_bytes, into_chunks, try_into_bytes}
use touche.Body.Consume.Agree.{chunks-try_into_bytes}
use touche.Body.Consume.Bounds.{into_bytes-drop_body, chunks_beyond_length}
use touche.Body.Channel.{from_channel, send_all, channel, abort}
use touche.Body.Channel.Laws.{abort_unseen}
use touche.Tests.Sizes.{sample_chunk_size, sample-ReadsSizes}
use touche.Tests.Sample.{sample, Pairs}

abbrev hello : Bytes
hello = codes "hello"

abbrev world : Bytes
world = codes "world"

abbrev next_head : Bytes
next_head = codes "GET / HTTP/1.1"

abbrev data_and_trailers : BodyInner Pairs
data_and_trailers = iter (
    listed
      (ok (bytes hello) ∷ ok (trailers ((codes "etag", codes "x") ∷ [])) ∷ ok (bytes world) ∷ []))

read_chunks-chunk_frames_example :
    read_chunks sample_chunk_size
      (of_bytes (chunk_frames (hello ∷ world ∷ []) ++ (last_chunk ++ next_head)))
    ≡ (hello ∷ world ∷ [], of_bytes next_head)
read_chunks-chunk_frames_example =
    read_chunks-chunk_frames sample_chunk_size sample-ReadsSizes (of_bytes []) (hello ∷ world ∷ [])
      next_head (omega arith)

read_chunks-empty_chunk_example :
    read_chunks sample_chunk_size
      (of_bytes (chunk_frames ((hello ∷ []) ++ [] ∷ world ∷ []) ++ next_head))
    ≡ (hello ∷ [], of_bytes (crlf ++ (chunk_frames (world ∷ []) ++ next_head)))
read_chunks-empty_chunk_example =
    read_chunks-empty_chunk sample_chunk_size sample-ReadsSizes (of_bytes []) (hello ∷ [])
      (world ∷ []) next_head (omega arith)

abbrev framed : Stream
framed = of_bytes (codes "5\r\nhello\r\n0\r\n\r\n")

try_read_chunks-Runs_example :
    Runs sample_chunk_size framed (try_read_chunks sample_chunk_size framed)
    × ((r : List Bytes × Stream)
        → try_read_chunks sample_chunk_size framed ≡ some r
        → read_chunks sample_chunk_size framed ≡ r)
try_read_chunks-Runs_example = try_read_chunks-Runs sample_chunk_size framed

abbrev pieces : Reader.BodyReader
pieces = Reader.iter (ok world ∷ []) (some hello)

read_all-contents_example :
    read_all 11 (λ n. n) pieces ≡ whole (contents pieces).rest (contents pieces).fault
unfolding contents
read_all-contents_example = read_all-contents 11 (λ n. n) pieces (omega arith)

abbrev five_bytes : BodyInner Pairs
five_bytes = reader (of_bytes hello) (some 5)

chunks-try_into_bytes_example :
    try_into_bytes sample five_bytes ≡ some (payload (chunks (into_chunks sample five_bytes)))
chunks-try_into_bytes_example =
    chunks-try_into_bytes sample five_bytes (omega arith, omega arith) (omega arith)

into_bytes-drop_body_example :
    (bs : Bytes) × (into_bytes sample (reader (of_bytes (hello ++ world)) (some 5)) ≡ ok bs)
    × (length bs ≡ 5)
    × (t : Stream) × (drop_body {HeaderMap = Pairs}
          (some (reader (of_bytes (hello ++ world)) (some 5)))
        ≡ some t)
    × (bs ++ t.rest ≡ hello ++ world)
into_bytes-drop_body_example =
    into_bytes-drop_body sample 5 (of_bytes (hello ++ world)) (omega arith)

chunks_beyond_length_example :
    chunks (into_chunks sample (reader (of_bytes (hello ++ world)) (some 5)))
    ≡ ok (bytes (hello ++ world)) ∷ []
chunks_beyond_length_example =
    chunks_beyond_length sample 5 104 (codes "elloworld") none (omega arith) (omega arith)
      (omega arith)

abort_unseen_example :
    (into_bytes sample (from_channel (abort (send_all (hello ∷ []) channel))) ≡ err aborted)
    × (chunks (into_chunks sample (from_channel (abort (send_all (hello ∷ []) channel))))
        ≡ chunks (into_chunks sample (from_channel (send_all (hello ∷ []) channel))))
abort_unseen_example = abort_unseen sample (hello ∷ [])
