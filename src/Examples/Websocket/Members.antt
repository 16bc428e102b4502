-- ===== src/Examples/Websocket/Members.antt =====
-- What the operations of the room make of the user with a given identifier.
use mathlib.Core.Path.{subst}
use touche.Base.{
  ℕ, ◌<◌, ◌≡◌, ◌≢◌, refl, none, some, [], ◌∷◌, All, arith, ◌==◌, Bool-cases, inl, inr,
}
use touche.Examples.Chat.{Event, Sender, send_event, insert_user}
use touche.Examples.Chat.Users.{
  Users, Absent, Below, Distinct, find, send_found, find-Absent, keep_user-All, keep_user-Distinct,
  keep_user-find,
}
use touche.Examples.Websocket.{tell_all}

pub tell_all-All :
    (P : ℕ → Type 0) (e : Event) (users : Users)
    → All (λ u. P u.0) users
    → All (λ u. P u.0) (tell_all e users)
unfolding tell_all
tell_all-All P e [] h = tt
tell_all-All P e ((id, tx) ∷ users) h =
    keep_user-All P id (send_event e tx) (tell_all e users) h.0 (tell_all-All P e users h.1)

pub tell_all-Distinct : (e : Event) (users : Users) → Distinct users → Distinct (tell_all e users)
unfolding tell_all
tell_all-Distinct e [] h = tt
tell_all-Distinct e ((id, tx) ∷ users) h =
    keep_user-Distinct id (send_event e tx) (tell_all e users)
      (tell_all-All (λ i. i ≢ id) e users h.0) (tell_all-Distinct e users h.1)

-- Everybody who listens gets the event, and nobody else is left.
pub tell_all-find :
    (id : ℕ) (e : Event) (users : Users)
    → Distinct users
    → find id (tell_all e users) ≡ send_found e (find id users)
unfolding tell_all find
tell_all-find id e [] h = refl
tell_all-find id e ((i, tx) ∷ users) h =
    let rest = tell_all-find id e users h.1 in
    let gone : i ≡ id → find id (tell_all e users) ≡ none = λ same.
      find-Absent id _
        (tell_all-All (λ j. j ≢ id) e users (subst (λ j. Absent j users) same h.0)) in
    rw (keep_user-find id i (send_event e tx) (tell_all e users) gone) (ground (arith, rest))

pub insert_user-All :
    (P : ℕ → Type 0) (id : ℕ) (tx : Sender) (users : Users)
    → P id
    → All (λ u. P u.0) users
    → All (λ u. P u.0) (insert_user id tx users)
unfolding insert_user
insert_user-All P id tx [] p h = (p, tt)
insert_user-All P id tx ((i, t) ∷ users) p h =
    let rest = insert_user-All P id tx users p h.1 in
    elim (Bool-cases (i == id)) [ inl same ↦ rw same (p, h.1) | inr other ↦ rw other (h.0, rest) ]

pub insert_user-Distinct :
    (id : ℕ) (tx : Sender) (users : Users) → Distinct users → Distinct (insert_user id tx users)
unfolding insert_user
insert_user-Distinct id tx [] h = (tt, tt)
insert_user-Distinct id tx ((i, t) ∷ users) h =
    let rest = insert_user-Distinct id tx users h.1 in
    elim (Bool-cases (i == id)) [
      | inl same ↦
          let e : i ≡ id = ground (arith, same) in rw same (subst (λ j. Absent j users) e h.0, h.1)
      | inr other ↦
          let apart : id ≢ i = ground (arith, other) in
          rw other (insert_user-All (λ j. j ≢ i) id tx users apart h.0, rest)
    ]

pub find-Below :
    (n id : ℕ) (tx : Sender) (users : Users) → Below n users → find id users ≡ some tx → id < n
unfolding find
find-Below n id tx [] h got = absurd (cc got)
find-Below n id tx ((i, t) ∷ users) h got =
    let rest = find-Below n id tx users h.1 in
    elim (Bool-cases (i == id)) [
      | inl same ↦ ground (arith, same, h.0)
      | inr other ↦ rest (rw other at got)
    ]
