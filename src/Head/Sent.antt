-- ===== src/Head/Sent.antt =====
-- What a message must have for its head to be read back: a version with a number, and a first line.
use touche.Base.{ℕ, ◌<◌, ◌≡◌, [], ◌∷◌, ◌++◌, refl, some, arith, false, Bytes, length, is_nil}
use touche.Base.Result.{ok}
use touche.Crates.{Version, http_10, http_11}
use touche.Crates.Laws.{version_number}
use touche.Head.{http_version}

pub http_version-number :
    (version : Version) (number : ℕ)
    → version_number version ≡ some number
    → http_version number ≡ ok version
unfolding http_version
http_version-number http_10 number h = ground arith
http_version-number http_11 number h = ground arith
http_version-number _ number h = cc

pub is_nil-append : (xs ys : Bytes) → 0 < length xs → is_nil (xs ++ ys) ≡ false
is_nil-append [] ys h = absurd (omega arith)
is_nil-append (x ∷ xs) ys h = refl
