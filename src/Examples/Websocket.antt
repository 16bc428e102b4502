-- ===== src/Examples/Websocket.antt =====
-- examples/websocket-chat.rs: a chat room over upgraded connections. What the threads of its users do is
-- a sequence of steps on the room that they share and on what their sockets were sent.
pub mod Members
pub mod Writing
pub mod Fed
pub mod Order
pub mod Map
use touche.Base.{
  ℕ, ◌+◌, ◌^◌, ◌%◌, Option, none, some, List, [], ◌∷◌, ◌++◌, Bool, true, false, Bytes, codes, ◌==◌,
  if◌then◌else◌,
}
use touche.Base.Result.{Result, ok, err, and_then}
use touche.Crates.{Crates, http_11}
use touche.Http.{Response}
use touche.Body.{BodyInner, empty, buffered}
use touche.Upgrade.{upgrade}
use touche.Examples.Chat.{
  Event, user, message, Sender, Room, new_room, send_event, keep_user, insert_user,
}
use touche.Examples.Chat.Users.{find}

-- HashMap::retain with the closure that sends to everybody.
unfoldable pub tell_all : Event → List (ℕ × Sender) → List (ℕ × Sender)
unfolding send_event keep_user
tell_all e [] = []
tell_all e ((id, tx) ∷ users) = let rest = tell_all e users in keep_user id (send_event e tx) rest

-- The room, and the texts that each user's socket was sent.
pub record Chat : Type 0 where
  pub room : Room
  pub sent : ℕ → List Bytes

abbrev pub new_chat : Chat
new_chat = record { room = new_room; sent = λ id. [] }

-- NEXT_USER_ID.fetch_add: the user's identifier, which is taken outside of the lock.
unfoldable pub take_id : Room → ℕ × Room
take_id room = (room.next_id, record room { next_id = (room.next_id + 1) % 2 ^ 64 })

-- Under the lock: the user is put into the map, and everybody is told, the new user too.
unfoldable pub enter : ℕ → Room → Room
unfolding tell_all insert_user
enter id room = record room {
  users = tell_all (user id) (insert_user id (record { queue = []; listening = true }) room.users);
}

-- What a message on a WebSocket is read as: its text, or none for bytes that are not UTF-8 and for an
-- error of the read, each of which ends the thread.
-- One round of the thread `read_ws`; whether it goes on.
unfoldable pub hear : ℕ → Option Bytes → Room → Bool × Room
unfolding tell_all
hear id none room = (false, room)
hear id (some text) room = (true, record room { users = tell_all (message id text) room.users })

module _ (to_json : Event → Bytes) where
  unfoldable pub sent_to : ℕ → Event → (ℕ → List Bytes) → ℕ → List Bytes
  sent_to id e sent i = if i == id then sent i ++ to_json e ∷ [] else sent i

  -- A user in the map whose receiver took an event, by whether the socket takes the text: the receiver is
  -- dropped at the first one that it does not.
  unfoldable pub after_event : ℕ → Bool → Chat → Event → List Event → Chat
  unfolding sent_to insert_user
  after_event id taken chat e events = record {
    room = record chat.room {
      users = insert_user id (record { queue = events; listening = taken }) chat.room.users;
    };
    sent = if taken then sent_to id e chat.sent else chat.sent;
  }

  -- `none` while there is no event to receive.
  unfoldable pub take_event : ℕ → Bool → Chat → List Event → Option Chat
  unfolding after_event
  take_event id taken chat [] = none
  take_event id taken chat (e ∷ events) = some (after_event id taken chat e events)

  -- One round of the thread `write_ws`.
  unfoldable pub write_next : ℕ → Bool → Chat → Option Chat
  unfolding take_event
  write_next id taken chat = elim (find id chat.room.users) [
    | none ↦ none
    | some tx ↦ if tx.listening then take_event id taken chat tx.queue else none
  ]

module _ (c : Crates) {Handler Error : Type 0} where
  -- The closure that is served, by whether the request has an Upgrade header, the response of
  -- tungstenite's handshake, the handler, and the page with its headers.
  unfoldable pub chat_response :
      Bool
      → Result Error (Response c Handler (Unit {0}))
      → Handler
      → Bytes
      → c.HeaderMap
      → Result Error (Response c Handler (BodyInner c.HeaderMap))
  unfolding upgrade
  chat_response true handshake handler page html = and_then handshake λ res. ok (
      upgrade
        (record {
          status = res.status;
          version = res.version;
          headers = res.headers;
          upgrade = res.upgrade;
          body = empty;
        })
        handler)
  chat_response false handshake handler page html = ok (record {
    status = 200;
    version = http_11;
    headers = html;
    upgrade = none;
    body = buffered page;
  })
