-- ===== src/Examples/Websocket/Map.antt =====
-- The map of users without the order in which it is gone through.
use mathlib.Core.Quot
use mathlib.Core.Quot.{Quot, Quot-set}
use touche.Base.{
  ℕ, ◌≡◌, ◌≢◌, arith, refl, ap, sym, ◌∙◌, some, [], ◌∷◌, true, ◌==◌, if◌then◌else◌, Bool-cases, inl,
  inr,
}
use touche.Examples.Chat.{Event, user, Sender, Room, send_event, insert_user}
use touche.Examples.Chat.Users.{Users, Distinct, find, send_found, insert-find}
use touche.Examples.Websocket.{tell_all, enter}
use touche.Examples.Websocket.Members.{tell_all-Distinct, tell_all-find, insert_user-Distinct}

-- Users with different identifiers, in some order.
abbrev Listed : Type 0
Listed = (users : Users) × Distinct users

-- Two lists give the same user for each identifier.
abbrev SameUsers : Listed → Listed → Type 0
SameUsers us vs = (id : ℕ) → find id us.0 ≡ find id vs.0

-- HashMap<usize, Sender<Event>>
abbrev pub UserMap : Type 0
UserMap = Quot SameUsers

abbrev pub of_list : (users : Users) → Distinct users → UserMap
of_list users distinct = Quot.mk (users, distinct)

tell_all-SameUsers :
    (e : Event) (us vs : Listed)
    → SameUsers us vs
    → SameUsers
        (tell_all e us.0, tell_all-Distinct e us.0 us.1)
        (tell_all e vs.0, tell_all-Distinct e vs.0 vs.1)
tell_all-SameUsers e us vs same id =
    tell_all-find id e us.0 us.1 ∙ ap (send_found e) (same id) ∙ sym (tell_all-find id e vs.0 vs.1)

insert_user-SameUsers :
    (n : ℕ) (tx : Sender) (us vs : Listed)
    → SameUsers us vs
    → SameUsers
        (insert_user n tx us.0, insert_user-Distinct n tx us.0 us.1)
        (insert_user n tx vs.0, insert_user-Distinct n tx vs.0 vs.1)
insert_user-SameUsers n tx us vs same id =
    insert-find n id tx us.0
    ∙ ap (λ rest. if n == id then some tx else rest) (same id)
    ∙ sym (insert-find n id tx vs.0)

-- Sending to everybody, and putting a user in, which do not depend on the order.
pub tell_map : Event → UserMap → UserMap
tell_map e =
    Quot.lift Quot-set (λ us. of_list (tell_all e us.0) (tell_all-Distinct e us.0 us.1))
      (λ us vs same. Quot.sound (tell_all-SameUsers e us vs same))

pub insert_map : ℕ → Sender → UserMap → UserMap
insert_map n tx =
    Quot.lift Quot-set (λ us. of_list (insert_user n tx us.0) (insert_user-Distinct n tx us.0 us.1))
      (λ us vs same. Quot.sound (insert_user-SameUsers n tx us vs same))

connected-find :
    (n id : ℕ) (users : Users)
    → Distinct users
    → find id (tell_all (user n) (insert_user n (record { queue = []; listening = true }) users))
      ≡ find id (
          insert_user n
            (record { queue = user n ∷ []; listening = true })
            (tell_all (user n) users))
unfolding send_event
connected-find n id users distinct =
    let empty : Sender = record { queue = []; listening = true } in
    let first : Sender = record { queue = user n ∷ []; listening = true } in
    let told : send_found (user n) (if n == id then some empty else find id users)
        ≡ (if n == id then some first else send_found (user n) (find id users)) =
      elim (Bool-cases (n == id)) [ inl new ↦ rw new refl | inr old ↦ rw old refl ] in
    tell_all-find id (user n) (insert_user n empty users)
      (insert_user-Distinct n empty users distinct)
    ∙ ap (send_found (user n)) (insert-find n id empty users)
    ∙ told
    ∙ ap (λ rest. if n == id then some first else rest)
        (sym (tell_all-find id (user n) users distinct))
    ∙ sym (insert-find n id first (tell_all (user n) users))

pub enter-Distinct : (id : ℕ) (room : Room) → Distinct room.users → Distinct (enter id room).users
unfolding enter
enter-Distinct id room distinct =
    tell_all-Distinct (user id) _ (insert_user-Distinct id _ room.users distinct)

-- For the map, whatever its order, a user who enters comes to what telling of the arrival leaves of the
-- others, with its own arrival as its first event.
pub enter-map :
    (id : ℕ) (room : Room) (distinct : Distinct room.users)
    → of_list (enter id room).users (enter-Distinct id room distinct)
      ≡ insert_map id
          (record { queue = user id ∷ []; listening = true })
          (tell_map (user id) (of_list room.users distinct))
unfolding enter insert_map tell_map
enter-map id room distinct = Quot.sound (λ i. connected-find id i room.users distinct)

insert_user-twice :
    (n m id : ℕ) (tx ty : Sender) (users : Users)
    → find id (insert_user n tx (insert_user m ty users))
      ≡ (if n == id then some tx else (if m == id then some ty else find id users))
insert_user-twice n m id tx ty users =
    insert-find n id tx (insert_user m ty users)
    ∙ ap (λ rest. if n == id then some tx else rest) (insert-find m id ty users)

-- The order in which two users with different identifiers are put into the map does not show.
pub insert_map_comm :
    (n m : ℕ) (tx ty : Sender)
    → n ≢ m
    → (users : UserMap)
    → insert_map n tx (insert_map m ty users) ≡ insert_map m ty (insert_map n tx users)
unfolding insert_map
insert_map_comm n m tx ty apart =
    Quot.ind (λ b. Quot-set _ _)
      (λ us. Quot.sound (λ id.
        let swapped : (if n == id then some tx else (if m == id then some ty else find id us.0))
            ≡ (if m == id then some ty else (if n == id then some tx else find id us.0)) =
          ground (arith, apart) in
        insert_user-twice n m id tx ty us.0 ∙ swapped ∙ sym (insert_user-twice m n id ty tx us.0)))
