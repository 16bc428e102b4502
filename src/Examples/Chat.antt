-- ===== src/Examples/Chat.antt =====
-- examples/sse-chat.rs: a chat room behind two routes, whose users get its events as the chunks of a body.
pub mod Users
pub mod Members
pub mod Delivery
use touche.Base.{
  ℕ, zero, suc, ◌+◌, ◌/◌, ◌%◌, ◌^◌, Option, none, some, List, [], ◌∷◌, ◌++◌, Bool, true, false,
  Bytes, codes, ◌==◌, ltb, ◌&&◌, if◌then◌else◌,
}
use touche.Base.Result.{Result, ok, err}
use touche.Body.{IoResult}
use touche.Body.Channel.{Channel, send}

-- Event
pub data Event : Type 0 where
  user : ℕ → Event
  message : ℕ → Bytes → Event

-- Sender<Event>, with what its receiver has not taken yet and whether the receiver is there.
pub record Sender : Type 0 where
  pub queue : List Event
  pub listening : Bool

-- NEXT_USER_ID and the map of users.
pub record Room : Type 0 where
  pub next_id : ℕ
  pub users : List (ℕ × Sender)

-- AtomicUsize::new(1), HashMap::new()
abbrev pub new_room : Room
new_room = record { next_id = 1; users = [] }

-- Sender::send, `none` for its error.
unfoldable pub send_event : Event → Sender → Option Sender
send_event e tx = if tx.listening then some (record tx { queue = tx.queue ++ e ∷ [] }) else none

unfoldable pub keep_user : ℕ → Option Sender → List (ℕ × Sender) → List (ℕ × Sender)
keep_user id none rest = rest
keep_user id (some tx) rest = (id, tx) ∷ rest

-- HashMap::retain with the closure that sends to everybody else.
unfoldable pub broadcast : ℕ → Event → List (ℕ × Sender) → List (ℕ × Sender)
unfolding send_event keep_user
broadcast sender e [] = []
broadcast sender e ((id, tx) ∷ users) =
    let rest = broadcast sender e users in
    if sender == id then (id, tx) ∷ rest else keep_user id (send_event e tx) rest

-- HashMap::insert
unfoldable pub insert_user : ℕ → Sender → List (ℕ × Sender) → List (ℕ × Sender)
insert_user id tx [] = (id, tx) ∷ []
insert_user id tx ((i, t) ∷ users) =
    let rest = insert_user id tx users in if i == id then (id, tx) ∷ users else (i, t) ∷ rest

-- What a request is answered with: the body is empty, a text, the events of a user, or the page.
pub data Content : Type 0 where
  nothing page : Content
  text_of : Bytes → Content
  events_of : ℕ → Content

pub record Reply : Type 0 where
  pub status : ℕ
  pub headers : List (Bytes × Bytes)
  pub content : Content

abbrev pub plain : ℕ → Content → Reply
plain status content = record { status = status; headers = []; content = content }

-- The body of a message, by whether bytes are UTF-8: an error and other bytes count as no text.
unfoldable pub posted_text : (Bytes → Bool) → IoResult Bytes → Bytes
posted_text is_utf8 (ok bs) = if is_utf8 bs then bs else []
posted_text is_utf8 (err e) = []

-- The arm of POST /messages, by the user that x-user-id names.
unfoldable pub post_message : Option ℕ → Bytes → Room → Reply × Room
unfolding broadcast
post_message none text room = (plain 401 (text_of (codes "Missing x-user-id header")), room)
post_message (some id) text room =
    (plain 201 nothing, record room { users = broadcast id (message id text) room.users })

-- The arm of the other requests for /messages: fetch_add, which wraps around, and the new user's channel.
unfoldable pub join : Room → Reply × Room
unfolding insert_user
join room = (
  record {
    status = 200;
    headers =
        (codes "content-type", codes "text/event-stream")
        ∷ (codes "connection", codes "close")
        ∷ [];
    content = events_of room.next_id;
  },
  record {
    next_id = (room.next_id + 1) % 2 ^ 64;
    users =
        insert_user room.next_id (record { queue = user room.next_id ∷ []; listening = true })
          room.users;
  },
)

unfoldable pub same_text : Bytes → Bytes → Bool
same_text [] [] = true
same_text (a ∷ xs) (b ∷ ys) = a == b && same_text xs ys
same_text _ _ = false

-- The match on the path, by whether the method is POST, the number in x-user-id, and the body's bytes.
unfoldable pub handle :
    (Bytes → Bool) → Bytes → Bool → Option ℕ → IoResult Bytes → Room → Reply × Room
unfolding post_message posted_text join same_text
handle is_utf8 path is_post sender body room =
    if same_text path (codes "/messages") && is_post
    then post_message sender (posted_text is_utf8 body) room
    else if same_text path (codes "/messages")
    then join room
    else if same_text path (codes "/")
    then (
      record {
        status = 200;
        headers = (codes "content-type", codes "text/html") ∷ [];
        content = page;
      },
      room,
    )
    else (plain 404 nothing, room)

-- The digits of a number, onto a text.
unfoldable pub digits_onto : ℕ → ℕ → Bytes → Bytes
digits_onto zero n acc = acc
digits_onto (suc fuel) n acc =
    let longer = digits_onto fuel (n / 10) ((48 + n % 10) ∷ acc) in
    if ltb n 10 then (48 + n) ∷ acc else longer

abbrev pub digits : ℕ → Bytes
digits n = digits_onto (suc n) n []

-- The two templates of `formatdoc!`.
unfoldable pub render : Event → Bytes
render (user id) = codes "event: user\ndata: {\"id\": \"" ++ (digits id ++ codes "\"}\n\n")
render (message id text) =
    codes "event: message\ndata: {\"userId\": "
    ++ (digits id ++ (codes ", \"message\": \"" ++ (text ++ codes "\"}\n\n")))

-- The thread of a user: each event goes out as a chunk, and the first that cannot be sent ends it.
unfoldable pub pump : {HeaderMap : Type 0} → List Event → Channel HeaderMap → Channel HeaderMap
unfolding render
pump [] ch = ch
pump (e ∷ events) ch =
    let (sent, ch') = send (render e) ch in
    let rest = pump events ch' in elim sent [ ok u ↦ rest | err x ↦ ch' ]
