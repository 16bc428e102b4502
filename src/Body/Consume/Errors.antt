-- ===== src/Body/Consume/Errors.antt =====
-- How an error among the items of a body shows in each way to consume it.
use touche.Base.{◌≡◌, refl, ap, sym, ◌∙◌, List, [], ◌∷◌, ◌++◌, All}
use touche.Base.Result.{ok, err}
use touche.Io.{IoError, of_bytes}
use touche.Crates.{Crates}
use touche.Body.{bytes, trailers, listed, iter, data_items, collect_bytes}
use touche.Body.Reader.{contents, until_error}
use touche.Body.Chunks.{Item, chunks}
use touche.Body.Chunks.Laws.{before_error, chunks-iter}
use touche.Body.Consume.{into_reader, into_bytes, into_chunks}
use touche.Body.Consume.Agree.{IsOk, before_error-ok}

module _ {HeaderMap : Type 0} where
  before_error-append :
      (items more : List (Item HeaderMap)) (e : IoError)
      → All IsOk items
      → before_error (items ++ err e ∷ more) ≡ items
  unfolding before_error
  before_error-append [] more e h = refl
  before_error-append (ok i ∷ items) more e h =
      ap (λ l. ok i ∷ l) (before_error-append items more e h.1)
  before_error-append (err x ∷ items) more e h = absurd h.0

  collect_bytes-error :
      (items more : List (Item HeaderMap)) (e : IoError)
      → All IsOk items
      → collect_bytes (data_items (items ++ err e ∷ more)) ≡ err e
  unfolding data_items collect_bytes
  collect_bytes-error [] more e h = refl
  collect_bytes-error (ok (bytes bs) ∷ items) more e h = rw (collect_bytes-error items more e h.1)
  collect_bytes-error (ok (trailers t) ∷ items) more e h = collect_bytes-error items more e h.1
  collect_bytes-error (err x ∷ items) more e h = absurd h.0

module _ (c : Crates) where
  open c use {HeaderMap}

  -- A body whose iterator fails after some items: `into_bytes` reports the error, and the iterator of
  -- chunks is that of a body which simply ends there.
  pub error_in_iter :
      (items more : List (Item HeaderMap)) (e : IoError)
      → All IsOk items
      → (into_bytes c (iter (listed (items ++ err e ∷ more))) ≡ err e)
        × (chunks (into_chunks c (iter (listed (items ++ err e ∷ more))))
            ≡ chunks (into_chunks c (iter (listed items))))
  unfolding into_bytes into_chunks
  error_in_iter items more e h = (
    collect_bytes-error items more e h,
    chunks-iter (items ++ err e ∷ more)
        ∙ before_error-append items more e h
        ∙ sym (chunks-iter items ∙ before_error-ok items h),
  )

  -- An error in the first place is skipped by the reader, which goes on with the items behind it.
  pub first_error_skipped :
      (items : List (Item HeaderMap)) (e : IoError)
      → contents (into_reader c (iter (listed (err e ∷ items))))
        ≡ of_bytes (until_error (data_items items))
  unfolding into_reader contents data_items
  first_error_skipped items e = refl
