-- ===== src/Body/Channel/Laws.antt =====
-- What a body receives from its channel.
use touche.Base.{
  ◌≡◌, refl, ap, ◌∙◌, List, [], ◌∷◌, ◌++◌, map, append_assoc, append-nil, true, Bytes, concat, All,
}
use touche.Base.Result.{ok, err}
use touche.Io.{aborted}
use touche.Crates.{Crates}
use touche.Body.{bytes, data_items, collect_bytes}
use touche.Body.Chunks.{Item, chunks}
use touche.Body.Consume.{into_bytes, into_chunks}
use touche.Body.Consume.Agree.{IsOk}
use touche.Body.Consume.Errors.{error_in_iter}
use touche.Body.Channel.{Channel, send_all, abort, channel, from_channel}

module _ (HeaderMap : Type 0) where
  abbrev pub data_of : List Bytes → List (Item HeaderMap)
  data_of = map (λ bs. ok (bytes bs))

  abbrev listening : List (Item HeaderMap) → Channel HeaderMap
  listening items = record { queue = items; listening = true }

  send_all-queue :
      (bss : List Bytes) (items : List (Item HeaderMap))
      → send_all bss (listening items) ≡ listening (items ++ data_of bss)
  unfolding send_all
  send_all-queue [] items = rw append-nil
  send_all-queue (bs ∷ bss) items =
      send_all-queue bss (items ++ ok (bytes bs) ∷ [])
      ∙ ap listening (append_assoc items (ok (bytes bs) ∷ []) (data_of bss))

  pub collect_bytes-data_of :
      (bss : List Bytes) → collect_bytes (data_items (data_of bss)) ≡ ok (concat bss)
  unfolding data_items collect_bytes
  collect_bytes-data_of [] = refl
  collect_bytes-data_of (bs ∷ bss) = rw (collect_bytes-data_of bss)

  data_of-IsOk : (bss : List Bytes) → All IsOk (data_of bss)
  data_of-IsOk [] = tt
  data_of-IsOk (bs ∷ bss) = (tt, data_of-IsOk bss)

module _ (c : Crates) where
  open c use {HeaderMap}

  -- What was sent over a channel, piece by piece, are the bytes of its body.
  pub into_bytes-send_all :
      (bss : List Bytes) → into_bytes c (from_channel (send_all bss channel)) ≡ ok (concat bss)
  unfolding into_bytes from_channel
  into_bytes-send_all bss =
      rw (send_all-queue HeaderMap bss []) (collect_bytes-data_of HeaderMap bss)

  -- An aborted body fails as a whole, and yields the chunks of a body that was not aborted.
  pub abort_unseen :
      (bss : List Bytes)
      → (into_bytes c (from_channel (abort (send_all bss channel))) ≡ err aborted)
        × (chunks (into_chunks c (from_channel (abort (send_all bss channel))))
            ≡ chunks (into_chunks c (from_channel (send_all bss channel))))
  unfolding abort from_channel
  abort_unseen bss =
      rw (send_all-queue HeaderMap bss [])
        (error_in_iter c (data_of HeaderMap bss) [] aborted (data_of-IsOk HeaderMap bss))
