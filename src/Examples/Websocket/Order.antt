-- ===== src/Examples/Websocket/Order.antt =====
-- What the sockets of the users are sent, over every interleaving of their threads.
use mathlib.Core.Path.{subst}
use mathlib.Core.List.{map-append}
use mathlib.Core.Option.{some-injective}
use touche.Base.{
  ℕ, ◌+◌, ◌^◌, ◌<◌, ◌≤◌, ◌%◌, ◌≡◌, refl, sym, ap, ◌∙◌, some, List, [], ◌∷◌, ◌++◌, map, arith, Bool,
  true, false, none, Bytes, ◌==◌, if◌then◌else◌, Bool-cases, inl, inr,
}
use touche.Examples.Chat.{Event, user, message, Sender, send_event}
use touche.Examples.Chat.Users.{
  Below, Distinct, find, send_found, Below-suc, Below-Absent, find-Absent, insert-find,
}
use touche.Examples.Websocket.{
  Chat, new_chat, tell_all, take_id, enter, hear, write_next, after_event,
}
use touche.Examples.Websocket.Fed.{Fed, told-Fed, Written-Fed, after_event-sent, other-Fed}
use touche.Examples.Websocket.Writing.{Written, write_next-Written}
use touche.Examples.Websocket.Members.{
  tell_all-All, tell_all-Distinct, tell_all-find, insert_user-All, insert_user-Distinct, find-Below,
}

-- The identifier is among those that wait, or not.
abbrev pub mark : ℕ → Bool → (ℕ → Bool) → ℕ → Bool
mark id b waiting i = if id == i then b else waiting i

mark-other :
    (n id : ℕ) (waiting : ℕ → Bool)
    → mark n false waiting id ≡ true
    → ((n == id) ≡ false) × (waiting id ≡ true)
mark-other n id waiting v = elim (Bool-cases (n == id)) [
  | inl same ↦ absurd (cc (rw same at v))
  | inr other ↦ (other, rw other at v)
]

module _ (to_json : Event → Bytes) where
  -- What becomes of a chat, with the events that everybody was told, in their order, and the identifiers
  -- that were taken and are not in the map yet: a thread takes an identifier, while there is one left, a
  -- thread that has one puts it into the map and tells everybody, the threads of users who did read a text,
  -- and the threads that write take an event, which the socket takes or not.
  pub data Reachable : List Event → (ℕ → Bool) → Chat → Type 0 where
    opened : Reachable [] (λ i. false) new_chat
    numbered :
        (told : List Event) (waiting : ℕ → Bool) (chat : Chat)
        → chat.room.next_id + 1 < 2 ^ 64
        → Reachable told waiting chat
        → Reachable told
            (mark (take_id chat.room).0 true waiting)
            (record chat { room = (take_id chat.room).1 })
    entered :
        (told : List Event) (waiting : ℕ → Bool) (chat : Chat) (id : ℕ)
        → waiting id ≡ true
        → Reachable told waiting chat
        → Reachable
            (told ++ user id ∷ [])
            (mark id false waiting)
            (record chat { room = enter id chat.room })
    heard :
        (told : List Event) (waiting : ℕ → Bool) (chat : Chat) (id : ℕ) (text : Bytes)
        → Reachable told waiting chat
        → Reachable
            (told ++ message id text ∷ [])
            waiting
            (record chat { room = (hear id (some text) chat.room).1 })
    wrote :
        (told : List Event) (waiting : ℕ → Bool) (chat chat' : Chat) (id : ℕ) (taken : Bool)
        → write_next to_json id taken chat ≡ some chat'
        → Reachable told waiting chat
        → Reachable told waiting chat'

  record IsChat (told : List Event) (waiting : ℕ → Bool) (chat : Chat) : Type 0 where
    below : Below chat.room.next_id chat.room.users
    distinct : Distinct chat.room.users
    unsent : (id : ℕ) → chat.room.next_id ≤ id → chat.sent id ≡ []
    numbers : (id : ℕ) → waiting id ≡ true → id < chat.room.next_id
    silent : (id : ℕ) → waiting id ≡ true → chat.sent id ≡ []
    absent : (id : ℕ) → waiting id ≡ true → find id chat.room.users ≡ none
    fed : (id : ℕ) → 1 ≤ id → id < chat.room.next_id → waiting id ≡ false → Fed to_json told chat id

  told_IsChat :
      (told : List Event) (waiting : ℕ → Bool) (chat : Chat) (e : Event)
      → IsChat told waiting chat
      → IsChat
          (told ++ e ∷ [])
          waiting
          (record chat { room = record chat.room { users = tell_all e chat.room.users } })
  told_IsChat told waiting chat e h = record {
    below = tell_all-All (λ i. i < chat.room.next_id) e chat.room.users h.below;
    distinct = tell_all-Distinct e chat.room.users h.distinct;
    unsent = h.unsent;
    numbers = h.numbers;
    silent = h.silent;
    absent =
        λ id w. tell_all-find id e chat.room.users h.distinct ∙ ap (send_found e) (h.absent id w);
    fed = λ id low high in_map.
        told-Fed to_json told chat id e _ (tell_all-find id e chat.room.users h.distinct)
          (h.fed id low high in_map);
  }

  numbered-Fed :
      (told : List Event) (chat : Chat) (id next : ℕ)
      → Fed to_json told chat id
      → Fed to_json told (record chat { room = record chat.room { next_id = next } }) id
  numbered-Fed told chat id next f = record {
    before = f.before;
    since = f.since;
    sent = f.sent;
    rest = f.rest;
    joined = f.joined;
    split = f.split;
    written = f.written;
    queued = f.queued;
  }

  numbered-IsChat :
      (told : List Event) (waiting : ℕ → Bool) (chat : Chat)
      → chat.room.next_id + 1 < 2 ^ 64
      → IsChat told waiting chat
      → IsChat told
          (mark chat.room.next_id true waiting)
          (record chat { room = record chat.room { next_id = chat.room.next_id + 1 } })
  numbered-IsChat told waiting chat fits h =
      let n = chat.room.next_id in
      record {
        below = Below-suc n chat.room.users h.below;
        distinct = h.distinct;
        unsent = λ id low. h.unsent id (omega (arith, low));
        numbers = λ id w. elim (Bool-cases (n == id)) [
          | inl new ↦ ground (arith, new)
          | inr old ↦ let known = h.numbers id (rw old at w) in omega (arith, known)
        ];
        silent = λ id w. elim (Bool-cases (n == id)) [
          | inl new ↦ h.unsent id (ground (arith, new))
          | inr old ↦ h.silent id (rw old at w)
        ];
        absent = λ id w. elim (Bool-cases (n == id)) [
          | inl new ↦
              let same : n ≡ id = ground (arith, new) in
              subst (λ i. find i chat.room.users ≡ none) same
                (find-Absent n chat.room.users (Below-Absent n chat.room.users h.below))
          | inr old ↦ h.absent id (rw old at w)
        ];
        fed = λ id low high in_map. elim (Bool-cases (n == id)) [
          | inl new ↦ absurd (cc (rw new at in_map))
          | inr old ↦
              numbered-Fed told chat id (n + 1)
                (h.fed id low (ground (arith, old, high)) (rw old at in_map))
        ];
      }

  enter-found :
      (chat : Chat) (n id : ℕ)
      → Distinct chat.room.users
      → find id (enter n chat.room).users
        ≡ send_found (user n) (
            if n == id
            then some (record { queue = []; listening = true })
            else find id chat.room.users)
  unfolding enter
  enter-found chat n id distinct =
      tell_all-find id (user n) _ (insert_user-Distinct n _ chat.room.users distinct)
      ∙ ap (send_found (user n)) (insert-find n id _ chat.room.users)

  enter-Fed :
      (told : List Event) (waiting : ℕ → Bool) (chat : Chat) (n id : ℕ)
      → IsChat told waiting chat
      → waiting n ≡ true
      → 1 ≤ id
      → id < chat.room.next_id
      → mark n false waiting id ≡ false
      → Fed to_json (told ++ user n ∷ []) (record chat { room = enter n chat.room }) id
  unfolding send_event
  enter-Fed told waiting chat n id h w low high in_map = elim (Bool-cases (n == id)) [
    | inl new ↦
        let same : n ≡ id = ground (arith, new) in
        let found = enter-found chat n id h.distinct in
        record {
          before = told;
          since = [];
          sent = [];
          rest = user id ∷ [];
          joined = ap (λ i. told ++ user i ∷ []) same;
          split = refl;
          written = subst (λ i. chat.sent i ≡ []) same (h.silent n w);
          queued = rw found (
              rw new (λ tx got on.
                sym (ap (λ x. x.queue) (some-injective _ _ got)) ∙ ap (λ i. user i ∷ []) same));
        }
    | inr old ↦
        told-Fed to_json told chat id (user n) (enter n chat.room)
          (rw old at (enter-found chat n id h.distinct)) (h.fed id low high (rw old at in_map))
  ]

  enter-IsChat :
      (told : List Event) (waiting : ℕ → Bool) (chat : Chat) (n : ℕ)
      → waiting n ≡ true
      → IsChat told waiting chat
      → IsChat
          (told ++ user n ∷ [])
          (mark n false waiting)
          (record chat { room = enter n chat.room })
  unfolding enter
  enter-IsChat told waiting chat n w h =
      let next = chat.room.next_id in
      record {
        below =
            tell_all-All (λ i. i < next) (user n) _
              (insert_user-All (λ i. i < next) n _ chat.room.users (h.numbers n w) h.below);
        distinct =
            tell_all-Distinct (user n) _ (insert_user-Distinct n _ chat.room.users h.distinct);
        unsent = h.unsent;
        numbers = λ id v. h.numbers id (mark-other n id waiting v).1;
        silent = λ id v. h.silent id (mark-other n id waiting v).1;
        absent = λ id v.
            let (other, was) = mark-other n id waiting v in
            rw other at (enter-found chat n id h.distinct)
            ∙ ap (send_found (user n)) (h.absent id was);
        fed = λ id low high in_map. enter-Fed told waiting chat n id h w low high in_map;
      }

  wrote-IsChat :
      (told : List Event) (waiting : ℕ → Bool) (chat chat' : Chat) (id : ℕ) (taken : Bool)
      → (w : Written to_json id taken chat chat') → IsChat told waiting chat
      → IsChat told waiting (after_event to_json id taken chat w.event w.events)
  unfolding after_event
  wrote-IsChat told waiting chat chat' id taken w h =
      let known : id < chat.room.next_id =
        find-Below chat.room.next_id id w.tx chat.room.users h.below w.there in
      let apart : (i : ℕ) → waiting i ≡ true → (id == i) ≡ false = λ i v.
        elim (Bool-cases (id == i)) [
          | inl same ↦
              let e : id ≡ i = ground (arith, same) in
              let gone = subst (λ j. find j chat.room.users ≡ none) (sym e) (h.absent i v) in
              absurd (cc (gone, w.there))
          | inr other ↦ other
        ] in
      record {
        below = insert_user-All (λ i. i < chat.room.next_id) id _ chat.room.users known h.below;
        distinct = insert_user-Distinct id _ chat.room.users h.distinct;
        unsent = λ i low.
            after_event-sent to_json chat id i taken w.event w.events (ground (arith, known, low))
            ∙ h.unsent i low;
        numbers = h.numbers;
        silent = λ i v.
            after_event-sent to_json chat id i taken w.event w.events (apart i v) ∙ h.silent i v;
        absent = λ i v. insert-find id i _ chat.room.users ∙ rw (apart i v) (h.absent i v);
        fed = λ i low high in_map. elim (Bool-cases (id == i)) [
          | inl same ↦
              let e : id ≡ i = ground (arith, same) in
              subst (λ j. Fed to_json told (after_event to_json id taken chat w.event w.events) j) e
                (Written-Fed to_json told chat chat' id taken w
                  (subst (λ j. Fed to_json told chat j) (sym e) (h.fed i low high in_map)))
          | inr other ↦
              other-Fed to_json told chat id i taken w.event w.events other
                (h.fed i low high in_map)
        ];
      }

  Reachable-IsChat :
      (told : List Event) (waiting : ℕ → Bool) (chat : Chat)
      → Reachable told waiting chat
      → IsChat told waiting chat
  unfolding hear take_id
  Reachable-IsChat told waiting chat opened = record {
    below = tt;
    distinct = tt;
    unsent = λ id low. refl;
    numbers = λ id w. absurd (cc w);
    silent = λ id w. refl;
    absent = λ id w. absurd (cc w);
    fed = λ id low high in_map. absurd (omega (arith, low, high));
  }
  Reachable-IsChat told waiting chat (numbered _ was q fits reach) =
      let next : (q.room.next_id + 1) % 2 ^ 64 ≡ q.room.next_id + 1 = omega arith in
      subst
        (λ n.
          IsChat told (mark q.room.next_id true was)
            (record q { room = record q.room { next_id = n } }))
        (sym next) (numbered-IsChat told was q fits (Reachable-IsChat told was q reach))
  Reachable-IsChat told waiting chat (entered h was q id w reach) =
      enter-IsChat h was q id w (Reachable-IsChat h was q reach)
  Reachable-IsChat told waiting chat (heard h _ q id text reach) =
      told_IsChat h waiting q (message id text) (Reachable-IsChat h waiting q reach)
  Reachable-IsChat told waiting chat (wrote _ _ q chat' id taken e reach) =
      let w = write_next-Written to_json id taken q chat' e in
      subst (λ x. IsChat told waiting x) (sym w.left)
        (wrote-IsChat told waiting q chat' id taken w (Reachable-IsChat told waiting q reach))

  -- Whatever the threads do and in whatever order, the socket of each user who was ever put into the map,
  -- which are those whose identifier was taken and does not wait, was sent the texts of the first of the
  -- events that everybody was told since, its own arrival
  -- first, none left out and none twice, and the others are in the user's channel as long as its thread
  -- receives.
  pub sent-told :
      (told : List Event) (waiting : ℕ → Bool) (chat : Chat) (id : ℕ)
      → Reachable told waiting chat
      → 1 ≤ id
      → id < chat.room.next_id
      → waiting id ≡ false
      → (before : List Event) × (since : List Event) × (rest : List Event) × (told
          ≡ before ++ (user id ∷ since))
        × (map to_json (user id ∷ since) ≡ chat.sent id ++ map to_json rest)
        × ((tx : Sender)
            → find id chat.room.users ≡ some tx
            → tx.listening ≡ true
            → tx.queue ≡ rest)
  sent-told told waiting chat id reach low high in_map =
      let f = (Reachable-IsChat told waiting chat reach).fed id low high in_map in
      (
        f.before,
        f.since,
        f.rest,
        f.joined,
        ap (map to_json) f.split
            ∙ map-append to_json f.sent f.rest
            ∙ ap (λ l. l ++ map to_json f.rest) (sym f.written),
        f.queued,
      )
