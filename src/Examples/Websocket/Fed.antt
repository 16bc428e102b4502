-- ===== src/Examples/Websocket/Fed.antt =====
-- What a user's socket was sent, against what everybody was told.
use mathlib.Core.List.{map-append}
use mathlib.Core.Option.{some-injective}
use touche.Base.{
  ℕ, ◌≡◌, refl, sym, ap, ◌∙◌, Option, none, some, List, [], ◌∷◌, ◌++◌, map, arith, Bool, true,
  false, Bytes, ◌==◌, Bool-cases, inl, inr, append_assoc, ==_refl,
}
use touche.Examples.Chat.{Event, user, Sender, Room, send_event}
use touche.Examples.Chat.Users.{find, send_found, insert-find}
use touche.Examples.Websocket.{Chat, after_event, sent_to}
use touche.Examples.Websocket.Writing.{Written}

-- A user who is there and listens has these events left to take.
abbrev pub Pending : List Event → Option Sender → Type 0
Pending rest found = (tx : Sender) → found ≡ some tx → tx.listening ≡ true → tx.queue ≡ rest

send_found-Pending :
    (e : Event) (rest : List Event) (found : Option Sender)
    → Pending rest found
    → Pending (rest ++ e ∷ []) (send_found e found)
unfolding send_event
send_found-Pending e rest none h tx got on = absurd (cc got)
send_found-Pending e rest (some t) h tx got on = elim (Bool-cases t.listening) [
  | inl hears ↦
      let took : record { queue = t.queue ++ e ∷ []; listening = true } ≡ tx =
        some-injective _ _ (rw hears at got) in
      sym (ap (λ x. x.queue) took) ∙ ap (λ l. l ++ e ∷ []) (h t refl hears)
  | inr deaf ↦ absurd (cc (rw deaf at got))
]

module _ (to_json : Event → Bytes) where
  -- The user's socket was sent what everybody was told since the user connected, up to `rest`, which is
  -- what the user's channel holds while its receiver is there.
  pub record Fed (told : List Event) (chat : Chat) (id : ℕ) : Type 0 where
    pub before : List Event
    pub since : List Event
    pub sent : List Event
    pub rest : List Event
    pub joined : told ≡ before ++ (user id ∷ since)
    pub split : user id ∷ since ≡ sent ++ rest
    pub written : chat.sent id ≡ map to_json sent
    pub queued : Pending rest (find id chat.room.users)

  -- One more event to everybody.
  pub told-Fed :
      (told : List Event) (chat : Chat) (id : ℕ) (e : Event) (room : Room)
      → find id room.users ≡ send_found e (find id chat.room.users)
      → Fed told chat id
      → Fed (told ++ e ∷ []) (record chat { room = room }) id
  told-Fed told chat id e room found f = record {
    before = f.before;
    since = f.since ++ e ∷ [];
    sent = f.sent;
    rest = f.rest ++ e ∷ [];
    joined = ap (λ l. l ++ e ∷ []) f.joined ∙ append_assoc f.before (user id ∷ f.since) (e ∷ []);
    split = ap (λ l. l ++ e ∷ []) f.split ∙ append_assoc f.sent f.rest (e ∷ []);
    written = f.written;
    queued = rw found (send_found-Pending e f.rest (find id chat.room.users) f.queued);
  }

  -- The user whose event it was.
  pub Written-Fed :
      (told : List Event) (chat chat' : Chat) (id : ℕ) (taken : Bool)
      → (w : Written to_json id taken chat chat') → Fed told chat id
      → Fed told (after_event to_json id taken chat w.event w.events) id
  unfolding after_event sent_to
  Written-Fed told chat chat' id true w f =
      let ahead : f.rest ≡ w.event ∷ w.events = sym (f.queued w.tx w.there w.hears) ∙ w.first in
      record {
        before = f.before;
        since = f.since;
        sent = f.sent ++ w.event ∷ [];
        rest = w.events;
        joined = f.joined;
        split =
            f.split
            ∙ ap (λ l. f.sent ++ l) ahead
            ∙ sym (append_assoc f.sent (w.event ∷ []) w.events);
        written = rw (==_refl id) (rw f.written (sym (map-append to_json f.sent (w.event ∷ []))));
        queued =
            rw (insert-find id id (record { queue = w.events; listening = true }) chat.room.users)
              (rw (==_refl id) (λ tx got on. sym (ap (λ x. x.queue) (some-injective _ _ got))));
      }
  Written-Fed told chat chat' id false w f = record {
    before = f.before;
    since = f.since;
    sent = f.sent;
    rest = f.rest;
    joined = f.joined;
    split = f.split;
    written = f.written;
    queued =
        rw (insert-find id id (record { queue = w.events; listening = false }) chat.room.users) (
          rw (==_refl id) (λ tx got on.
            let off : false ≡ tx.listening = ap (λ x. x.listening) (some-injective _ _ got) in
            absurd (cc (off, on))));
  }

  pub after_event-sent :
      (chat : Chat) (id i : ℕ) (taken : Bool) (e : Event) (events : List Event)
      → (id == i) ≡ false
      → (after_event to_json id taken chat e events).sent i ≡ chat.sent i
  unfolding after_event sent_to
  after_event-sent chat id i true e events other =
      let apart : (i == id) ≡ false = ground (arith, other) in rw apart refl
  after_event-sent chat id i false e events other = refl

  -- The others.
  pub other-Fed :
      (told : List Event) (chat : Chat) (id i : ℕ) (taken : Bool) (e : Event) (events : List Event)
      → (id == i) ≡ false
      → Fed told chat i
      → Fed told (after_event to_json id taken chat e events) i
  unfolding after_event sent_to
  other-Fed told chat id i taken e events other f = record {
    before = f.before;
    since = f.since;
    sent = f.sent;
    rest = f.rest;
    joined = f.joined;
    split = f.split;
    written = after_event-sent chat id i taken e events other ∙ f.written;
    queued =
        rw (insert-find id i (record { queue = events; listening = taken }) chat.room.users)
          (rw other f.queued);
  }
