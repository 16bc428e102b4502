-- ===== src/Examples/Websocket/Writing.antt =====
-- What one round of a thread that writes does.
use mathlib.Core.Option.{some-injective}
use touche.Base.{
  ℕ, ◌≡◌, refl, sym, some, List, [], ◌∷◌, Bool, true, Bytes, Bool-cases, Option-cases, inl, inr,
}
use touche.Examples.Chat.{Event, Sender}
use touche.Examples.Chat.Users.{find}
use touche.Examples.Websocket.{Chat, take_event, after_event, write_next}

module _ (to_json : Event → Bytes) where
  -- What a round of a thread that writes did: the event that it took, and the chat that it left.
  pub record Written (id : ℕ) (taken : Bool) (chat chat' : Chat) : Type 0 where
    pub tx : Sender
    pub event : Event
    pub events : List Event
    pub there : find id chat.room.users ≡ some tx
    pub hears : tx.listening ≡ true
    pub first : tx.queue ≡ event ∷ events
    pub left : chat' ≡ after_event to_json id taken chat event events

  take_event-Written :
      (id : ℕ) (taken : Bool) (chat chat' : Chat) (tx : Sender) (queue : List Event)
      → find id chat.room.users ≡ some tx
      → tx.listening ≡ true
      → tx.queue ≡ queue
      → take_event to_json id taken chat queue ≡ some chat'
      → Written id taken chat chat'
  unfolding take_event
  take_event-Written id taken chat chat' tx [] there hears same e = absurd (cc e)
  take_event-Written id taken chat chat' tx (event ∷ events) there hears same e = record {
    tx = tx;
    event = event;
    events = events;
    there = there;
    hears = hears;
    first = same;
    left = sym (some-injective _ _ e);
  }

  pub write_next-Written :
      (id : ℕ) (taken : Bool) (chat chat' : Chat)
      → write_next to_json id taken chat ≡ some chat'
      → Written id taken chat chat'
  unfolding write_next
  write_next-Written id taken chat chat' e = elim (Option-cases (find id chat.room.users)) [
    | inl gone ↦ absurd (cc (rw (gone, write_next) at e))
    | inr (tx, there) ↦ elim (Bool-cases tx.listening) [
      | inl hears ↦
          take_event-Written id taken chat chat' tx tx.queue there hears refl
            (rw hears at (rw (there, write_next) at e))
      | inr deaf ↦ absurd (cc (rw deaf at (rw (there, write_next) at e)))
    ]
  ]
