-- ===== src/Examples/Chat/Users.antt =====
-- The map of users: what sending to all and inserting do to it.
use mathlib.Core.Path.{subst}
use touche.Base.{
  ℕ, ◌+◌, ◌<◌, ◌≡◌, ◌≢◌, refl, Option, none, some, List, [], ◌∷◌, ◌++◌, All, arith, ◌==◌,
  if◌then◌else◌, Bool-cases, inl, inr,
}
use touche.Examples.Chat.{Event, Sender, send_event, keep_user, broadcast, insert_user}

abbrev pub Users : Type 0
Users = List (ℕ × Sender)

-- HashMap::get
unfoldable pub find : ℕ → Users → Option Sender
find id [] = none
find id ((i, tx) ∷ users) = let rest = find id users in if i == id then some tx else rest

abbrev pub send_found : Event → Option Sender → Option Sender
send_found e none = none
send_found e (some tx) = send_event e tx

-- No user has the identifier.
abbrev pub Absent : ℕ → Users → Type 0
Absent id = All (λ u. u.0 ≢ id)

-- The identifiers are different ones.
abbrev pub Distinct : Users → Type 0
Distinct [] = Unit
Distinct (u ∷ users) = Absent u.0 users × Distinct users

abbrev pub Below : ℕ → Users → Type 0
Below n = All (λ u. u.0 < n)

pub find-Absent : (id : ℕ) (users : Users) → Absent id users → find id users ≡ none
unfolding find
find-Absent id [] h = refl
find-Absent id ((i, tx) ∷ users) h = ground (arith, h.0, find-Absent id users h.1)

pub keep_user-All :
    (P : ℕ → Type 0) (id : ℕ) (tx : Option Sender) (users : Users)
    → P id
    → All (λ u. P u.0) users
    → All (λ u. P u.0) (keep_user id tx users)
unfolding keep_user
keep_user-All P id none users p h = h
keep_user-All P id (some tx) users p h = (p, h)

pub broadcast-All :
    (P : ℕ → Type 0) (sender : ℕ) (e : Event) (users : Users)
    → All (λ u. P u.0) users
    → All (λ u. P u.0) (broadcast sender e users)
unfolding broadcast
broadcast-All P sender e [] h = tt
broadcast-All P sender e ((id, tx) ∷ users) h =
    let rest = broadcast-All P sender e users h.1 in
    elim (Bool-cases (sender == id)) [
      | inl own ↦ rw own (h.0, rest)
      | inr other ↦ rw other (keep_user-All P id (send_event e tx) _ h.0 rest)
    ]

pub keep_user-Distinct :
    (id : ℕ) (tx : Option Sender) (users : Users)
    → Absent id users
    → Distinct users
    → Distinct (keep_user id tx users)
unfolding keep_user
keep_user-Distinct id none users absent h = h
keep_user-Distinct id (some tx) users absent h = (absent, h)

pub broadcast-Distinct :
    (sender : ℕ) (e : Event) (users : Users) → Distinct users → Distinct (broadcast sender e users)
unfolding broadcast
broadcast-Distinct sender e [] h = tt
broadcast-Distinct sender e ((id, tx) ∷ users) h =
    let rest = broadcast-Distinct sender e users h.1 in
    let absent = broadcast-All (λ i. i ≢ id) sender e users h.0 in
    elim (Bool-cases (sender == id)) [
      | inl own ↦ rw own (absent, rest)
      | inr other ↦ rw other (keep_user-Distinct id (send_event e tx) _ absent rest)
    ]

pub keep_user-find :
    (id i : ℕ) (tx : Option Sender) (users : Users)
    → (i ≡ id → find id users ≡ none)
    → find id (keep_user i tx users) ≡ (if i == id then tx else find id users)
unfolding keep_user find
keep_user-find id i none users absent = ground (arith, absent)
keep_user-find id i (some tx) users absent = refl

pub broadcast-find :
    (sender id : ℕ) (e : Event) (users : Users)
    → Distinct users
    → find id (broadcast sender e users)
      ≡ (if sender == id then find id users else send_found e (find id users))
unfolding broadcast find
broadcast-find sender id e [] h = ground arith
broadcast-find sender id e ((i, tx) ∷ users) h =
    let rest = broadcast-find sender id e users h.1 in
    let gone : i ≡ id → find id (broadcast sender e users) ≡ none = λ same.
      find-Absent id _
        (broadcast-All (λ j. j ≢ id) sender e users (subst (λ j. Absent j users) same h.0)) in
    elim (Bool-cases (sender == i)) [
      | inl own ↦ rw own (ground (arith, rest))
      | inr other ↦
          rw (other, keep_user-find id i (send_event e tx) (broadcast sender e users) gone)
            (ground (arith, rest))
    ]

pub insert-append :
    (n : ℕ) (tx : Sender) (users : Users)
    → Below n users
    → insert_user n tx users ≡ users ++ (n, tx) ∷ []
unfolding insert_user
insert-append n tx [] h = refl
insert-append n tx ((i, t) ∷ users) h = ground (arith, h.0, insert-append n tx users h.1)

pub All-insert :
    (P : ℕ → Type 0) (n : ℕ) (tx : Sender) (users : Users)
    → All (λ u. P u.0) users
    → P n
    → All (λ u. P u.0) (users ++ (n, tx) ∷ [])
All-insert P n tx [] h p = (p, tt)
All-insert P n tx (u ∷ users) h p = (h.0, All-insert P n tx users h.1 p)

pub Distinct-insert :
    (n : ℕ) (tx : Sender) (users : Users)
    → Distinct users
    → Below n users
    → Distinct (users ++ (n, tx) ∷ [])
Distinct-insert n tx [] h below = (tt, tt)
Distinct-insert n tx (u ∷ users) h below = (
  All-insert (λ i. i ≢ u.0) n tx users h.0 (omega (arith, below.0)),
  Distinct-insert n tx users h.1 below.1,
)

pub Below-suc : (n : ℕ) (users : Users) → Below n users → Below (n + 1) users
Below-suc n [] h = tt
Below-suc n (u ∷ users) h = (omega (arith, h.0), Below-suc n users h.1)

pub All-changed :
    (P : ℕ → Type 0) (id : ℕ) (tx tx' : Sender) (before after : Users)
    → All (λ u. P u.0) (before ++ (id, tx) ∷ after)
    → All (λ u. P u.0) (before ++ (id, tx') ∷ after)
All-changed P id tx tx' [] after h = h
All-changed P id tx tx' (u ∷ before) after h = (h.0, All-changed P id tx tx' before after h.1)

pub Distinct-changed :
    (id : ℕ) (tx tx' : Sender) (before after : Users)
    → Distinct (before ++ (id, tx) ∷ after)
    → Distinct (before ++ (id, tx') ∷ after)
Distinct-changed id tx tx' [] after h = h
Distinct-changed id tx tx' (u ∷ before) after h = (
  All-changed (λ i. i ≢ u.0) id tx tx' before after h.0,
  Distinct-changed id tx tx' before after h.1,
)

pub Below-Absent : (n : ℕ) (users : Users) → Below n users → Absent n users
Below-Absent n [] h = tt
Below-Absent n (u ∷ users) h = (omega (arith, h.0), Below-Absent n users h.1)

pub insert-find :
    (n id : ℕ) (tx : Sender) (users : Users)
    → find id (insert_user n tx users) ≡ (if n == id then some tx else find id users)
unfolding insert_user find
insert-find n id tx [] = refl
insert-find n id tx ((i, t) ∷ users) = ground (arith, insert-find n id tx users)
