-- ===== src/Examples/Chat/Delivery.antt =====
-- What a user of the room receives.
use touche.Base.{◌≡◌, refl, ◌∙◌, ap, true, List, [], ◌∷◌, ◌++◌, map, concat}
use touche.Base.Result.{ok}
use touche.Crates.{Crates}
use touche.Body.{IoResult, Chunk, bytes}
use touche.Body.Channel.{send, send_all, channel, from_channel, post}
use touche.Body.Channel.Laws.{into_bytes-send_all}
use touche.Body.Consume.{into_bytes}
use touche.Examples.Chat.{Event, render, pump}

pump-send_all :
    {HeaderMap : Type 0} (events : List Event) (items : List (IoResult (Chunk HeaderMap)))
    → pump events (record { queue = items; listening = true })
      ≡ send_all (map render events) (record { queue = items; listening = true })
unfolding pump send_all send post
pump-send_all [] items = refl
pump-send_all (e ∷ events) items = pump-send_all events (items ++ ok (bytes (render e)) ∷ [])

-- While the body of a user is there, its bytes are the texts of the events that the user was sent, in
-- their order.
pub pump-into_bytes :
    (c : Crates) (events : List Event)
    → into_bytes c (from_channel (pump events channel)) ≡ ok (concat (map render events))
pump-into_bytes c events =
    ap (λ ch. into_bytes c (from_channel ch)) (pump-send_all events [])
    ∙ into_bytes-send_all c (map render events)
