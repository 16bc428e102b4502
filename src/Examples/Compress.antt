-- ===== src/Examples/Compress.antt =====
-- examples/compress.rs: a body that compresses another one.
use touche.Base.{◌≡◌, ◌∙◌, sym, none}
use touche.Io.{Stream}
use touche.Body.{HttpBody, default_into_bytes}
use touche.Body.Chunks.{chunks, chunks_of_reader}
use touche.Body.Chunks.Laws.{payload, chunks-reader}
use touche.Body.Consume.Agree.{read_to_end-whole}

module _ {HeaderMap B : Type 0} (gzip : Stream → Stream) where
  -- HttpBody for Compressed, over `GzEncoder` as a reader over a reader; `into_bytes` is the trait's own.
  abbrev pub compressed : HttpBody HeaderMap B → HttpBody HeaderMap B
  compressed ops = record {
    len = λ b. none;
    into_reader = λ b. gzip (ops.into_reader b);
    into_bytes = λ b. default_into_bytes (gzip (ops.into_reader b));
    into_chunks = λ b. chunks (chunks_of_reader (gzip (ops.into_reader b)) none);
  }

  -- Whatever the encoder delivers, and in whatever pieces, the chunks of a compressed body put together are
  -- its bytes, or the error that both end with.
  pub compressed-chunks :
      (ops : HttpBody HeaderMap B) (b : B)
      → payload ((compressed ops).into_chunks b) ≡ (compressed ops).into_bytes b
  compressed-chunks ops b =
      let s = gzip (ops.into_reader b) in chunks-reader HeaderMap s ∙ sym (read_to_end-whole s)
