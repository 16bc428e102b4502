-- ===== src/Tests/Rooms.antt =====
-- The theorems on the chat room, at concrete inputs.
use touche.Base.{ℕ, ◌≡◌, none, some, [], ◌∷◌, arith, true, false, codes}
use touche.Base.Result.{ok}
use touche.Examples.Chat.{
  user, message, Sender, Room, new_room, handle, post_message, join, insert_user, same_text,
  send_event,
}
use touche.Examples.Chat.Users.{find}
use touche.Examples.Chat.Members.{Reachable, opened, handled, post_message-find}

abbrev listener : ℕ → Sender
listener id = record { queue = user id ∷ []; listening = true }

abbrev two_users : Room
two_users = record { next_id = 3; users = (1, listener 1) ∷ (2, listener 2) ∷ [] }

two_users-Reachable : Reachable two_users
unfolding handle join insert_user same_text
two_users-Reachable =
    handled (record { next_id = 2; users = (1, listener 1) ∷ [] }) (λ bs. true) (codes "/messages")
      false none (ok []) (omega arith)
      (handled new_room (λ bs. true) (codes "/messages") false none (ok []) (omega arith) opened)

post_message-find_example :
    find 2 (post_message (some 1) (codes "hi") two_users).1.users
    ≡ some (record { queue = user 2 ∷ message 1 (codes "hi") ∷ []; listening = true })
unfolding find send_event
post_message-find_example = post_message-find two_users 1 2 (codes "hi") two_users-Reachable
