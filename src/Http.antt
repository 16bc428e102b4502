-- ===== src/Http.antt =====
-- The messages: http::Request and http::Response, with the parts that the program uses.
use touche.Base.{ℕ, Option, none, some, Bool, false, Bytes}
use touche.Crates.{Crates, Version}

-- Option::filter(|conn| conn.contains(token)).is_some()
abbrev pub asks_for : Bytes → Option (Bytes → Bool) → Bool
asks_for token none = false
asks_for token (some contains) = contains token

-- Option::filter(|te| te.is_chunked()).is_some(), and the like for another flag.
abbrev pub is_true : Option Bool → Bool
is_true none = false
is_true (some b) = b

pub record Request (c : Crates) (B : Type 0) : Type 0 where
  pub method : c.Method
  pub uri : c.Uri
  pub version : Version
  pub headers : c.HeaderMap
  pub body : B

-- `upgrade` is the UpgradeExtension among the extensions, by its handler.
pub record Response (c : Crates) (Handler B : Type 0) : Type 0 where
  pub status : ℕ
  pub version : Version
  pub headers : c.HeaderMap
  pub upgrade : Option Handler
  pub body : B
