-- ===== src/Body/From.antt =====
-- body.rs: the conversions into a body.
use touche.Base.{ℕ, Option, some, Bool, Bytes, if◌then◌else◌}
use touche.Base.Result.{ok, err, and_then}
use touche.Io.{Stream, not_a_file}
use touche.Body.{IoResult, Body, buffered, empty, reader}

-- What the file system says of a file: whether it is a regular one, and its length.
pub record Metadata : Type 0 where
  pub is_file : Bool
  pub len : ℕ

module _ {HeaderMap : Type 0} where
  -- Body::empty
  unfoldable pub empty_body : Body HeaderMap
  empty_body = record { inner = some empty }

  -- From<Vec<u8>>, From<&[u8]>, From<&str> and From<String>
  unfoldable pub from_bytes : Bytes → Body HeaderMap
  from_bytes bs = record { inner = some (buffered bs) }

  -- Body::from_reader
  unfoldable pub from_reader : Stream → Option ℕ → Body HeaderMap
  from_reader s len = record { inner = some (reader s len) }

  -- TryFrom<File>, by what the file system says of the file.
  unfoldable pub from_file : IoResult Metadata → Stream → IoResult (Body HeaderMap)
  unfolding from_reader
  from_file (err e) file = err e
  from_file (ok meta) file =
      if meta.is_file then ok (from_reader file (some meta.len)) else err not_a_file

  -- TryFrom<PathBuf>, by the opened file or the error of opening it.
  unfoldable pub from_path : IoResult (IoResult Metadata × Stream) → IoResult (Body HeaderMap)
  unfolding from_file
  from_path opened = and_then opened (λ (meta, file). from_file meta file)
