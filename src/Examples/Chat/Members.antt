-- ===== src/Examples/Chat/Members.antt =====
-- Who is in the room, and what a message does to them.
use touche.Base.{
  ℕ, ◌+◌, ◌^◌, ◌<◌, ◌%◌, ◌≡◌, Option, none, some, [], ◌∷◌, ◌++◌, arith, Bool, true, Bytes, ◌==◌,
  if◌then◌else◌,
}
use touche.Body.{IoResult}
use touche.Examples.Chat.{
  posted_text, user, message, Sender, Room, new_room, post_message, join, handle,
}
use touche.Examples.Chat.Users.{
  Users, Below, Distinct, find, send_found, find-Absent, broadcast-All, broadcast-Distinct,
  broadcast-find, insert-append, All-insert, Distinct-insert, Below-suc, All-changed,
  Distinct-changed, Below-Absent, insert-find,
}

-- Every user has an identifier of its own, below the next one.
abbrev pub IsRoom : Room → Type 0
IsRoom r = Below r.next_id r.users × Distinct r.users

join-IsRoom : (r : Room) → r.next_id + 1 < 2 ^ 64 → IsRoom r → IsRoom (join r).1
unfolding join
join-IsRoom r fits h =
    let next : (r.next_id + 1) % 2 ^ 64 ≡ r.next_id + 1 = omega arith in
    rw (next, insert-append r.next_id _ r.users h.0)
      (
        All-insert (λ i. i < r.next_id + 1) r.next_id _ r.users (Below-suc r.next_id r.users h.0)
            (omega arith),
        Distinct-insert r.next_id _ r.users h.1 h.0,
      )

post_message-IsRoom :
    (by : Option ℕ) (text : Bytes) (r : Room) → IsRoom r → IsRoom (post_message by text r).1
unfolding post_message
post_message-IsRoom none text r h = h
post_message-IsRoom (some id) text r h = (
  broadcast-All (λ i. i < r.next_id) id (message id text) r.users h.0,
  broadcast-Distinct id (message id text) r.users h.1,
)

-- A request of any kind leaves such a room, while there is an identifier for a user who joins.
handle-IsRoom :
    (is_utf8 : Bytes → Bool) (path : Bytes) (is_post : Bool) (sender : Option ℕ)
    (body : IoResult Bytes) (r : Room)
    → r.next_id + 1 < 2 ^ 64
    → IsRoom r
    → IsRoom (handle is_utf8 path is_post sender body r).1
unfolding handle
handle-IsRoom is_utf8 path is_post sender body r fits h =
    ground (arith, join-IsRoom r fits h, post_message-IsRoom sender (posted_text is_utf8 body) r h)

-- What becomes of a room: it handles requests, while there are identifiers for those who join, and users
-- hang up or take their events, which changes their senders.
pub data Reachable : Room → Type 0 where
  opened : Reachable new_room
  handled :
      (r : Room) (is_utf8 : Bytes → Bool) (path : Bytes) (is_post : Bool) (sender : Option ℕ)
      (body : IoResult Bytes)
      → r.next_id + 1 < 2 ^ 64
      → Reachable r
      → Reachable (handle is_utf8 path is_post sender body r).1
  changed :
      (r : Room) (before after : Users) (id : ℕ) (tx tx' : Sender)
      → r.users ≡ before ++ (id, tx) ∷ after
      → Reachable r
      → Reachable (record r { users = before ++ (id, tx') ∷ after })

Reachable-IsRoom : (r : Room) → Reachable r → IsRoom r
Reachable-IsRoom r opened = (tt, tt)
Reachable-IsRoom r (handled q is_utf8 path is_post sender body fits reach) =
    handle-IsRoom is_utf8 path is_post sender body q fits (Reachable-IsRoom q reach)
Reachable-IsRoom r (changed q before after id tx tx' same reach) =
    let was : IsRoom (record q { users = before ++ (id, tx) ∷ after }) =
      rw same at (Reachable-IsRoom q reach) in
    (
      All-changed (λ i. i < q.next_id) id tx tx' before after was.0,
      Distinct-changed id tx tx' before after was.1,
    )

-- In every room that comes about, a message that a user posts is behind the events of each other user
-- who still listens; the users who do not are removed, and nothing changes for the user who posted it and
-- for those who are not in the room.
pub post_message-find :
    (r : Room) (sender id : ℕ) (text : Bytes)
    → Reachable r
    → find id (post_message (some sender) text r).1.users ≡ (
        if sender == id
        then find id r.users
        else send_found (message sender text) (find id r.users))
unfolding post_message
post_message-find r sender id text reach =
    broadcast-find sender id (message sender text) r.users (Reachable-IsRoom r reach).1

-- A user who joins a room that comes about gets an identifier that nobody in it has, and is in the room
-- with it; the others stay as they were.
pub join-find :
    (r : Room) (id : ℕ)
    → Reachable r
    → (find r.next_id r.users ≡ none)
      × (find id (join r).1.users ≡ (
          if r.next_id == id
          then some (record { queue = user r.next_id ∷ []; listening = true })
          else find id r.users))
unfolding join
join-find r id reach = (
  find-Absent r.next_id r.users (Below-Absent r.next_id r.users (Reachable-IsRoom r reach).0),
  insert-find r.next_id id _ r.users,
)
