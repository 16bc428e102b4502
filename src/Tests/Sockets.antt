-- ===== src/Tests/Sockets.antt =====
-- The theorems on the chat over WebSockets and on the upgraded connections, at concrete inputs.
use touche.Base.{
  ℕ, ◌≡◌, refl, some, List, [], ◌∷◌, ◌++◌, map, arith, Bool, true, false, Bytes, codes, All,
}
use touche.Base.Result.{ok}
use touche.Io.{of_bytes, open_sink}
use touche.Examples.Lines.{drop_cr, echo_lines}
use touche.Examples.Lines.Echo.{IsEchoed, quit, echo_lines-lines}
use touche.Examples.Chat.{
  Event, user, Sender, render, send_event, same_text, keep_user, insert_user,
}
use touche.Examples.Chat.Users.{Distinct, find}
use touche.Examples.Websocket.Map.{of_list, tell_map, insert_map, enter-Distinct, enter-map}
use touche.Examples.Websocket.{
  Chat, take_id, enter, tell_all, write_next, take_event, after_event, sent_to,
}
use touche.Examples.Websocket.Order.{Reachable, mark, opened, numbered, entered, wrote, sent-told}

-- Both users have their identifiers before the second one is put into the map, which is before the first
-- one is; then the second user's socket is sent its own arrival.
abbrev two_connected : Chat
two_connected = record {
  room = record {
    next_id = 3;
    users =
        (2, record { queue = user 1 ∷ []; listening = true })
        ∷ (1, record { queue = user 1 ∷ []; listening = true })
        ∷ [];
  };
  sent = sent_to render 2 (user 2) (λ id. []);
}

abbrev arrivals : List Event
arrivals = user 2 ∷ user 1 ∷ []

abbrev all_in : ℕ → Bool
all_in = mark 1 false (mark 2 false (mark 2 true (mark 1 true (λ id. false))))

two_connected-Reachable : Reachable render arrivals all_in two_connected
unfolding take_id enter tell_all insert_user keep_user send_event write_next take_event after_event
    find sent_to
two_connected-Reachable =
    let second : Reachable render (user 2 ∷ [])
        (mark 2 false (mark 2 true (mark 1 true (λ id. false))))
        (record {
          room = record {
            next_id = 3;
            users = (2, record { queue = user 2 ∷ []; listening = true }) ∷ [];
          };
          sent = λ id. [];
        }) =
      entered [] _ _ 2 refl
        (numbered [] _ _ (omega arith) (numbered [] _ _ (omega arith) opened)) in
    wrote arrivals all_in _ two_connected 2 true refl (entered (user 2 ∷ []) _ _ 1 refl second)

sent-told_example :
    (before : List Event) × (since : List Event) × (rest : List Event) × (arrivals
      ≡ before ++ (user 2 ∷ since))
    × (map render (user 2 ∷ since) ≡ two_connected.sent 2 ++ map render rest)
    × ((tx : Sender)
        → find 2 two_connected.room.users ≡ some tx
        → tx.listening ≡ true
        → tx.queue ≡ rest)
sent-told_example =
    sent-told render arrivals all_in two_connected 2 two_connected-Reachable (omega arith)
      (omega arith) refl

abbrev spoken : List (Bytes × Bool)
spoken = (codes "one", true) ∷ (codes "two", false) ∷ []

spoken-IsEchoed : All (IsEchoed (λ bs. true)) spoken
unfolding drop_cr same_text
spoken-IsEchoed = (
  record { unbroken = omega arith; kept = refl; decoded = refl; unquit = refl },
  (record { unbroken = omega arith; kept = refl; decoded = refl; unquit = refl }, tt),
)

echo_lines-lines_example :
    echo_lines (λ bs. true) 3 (of_bytes (codes "one\r\ntwo\nquit\nmore")) (open_sink [])
    ≡ some (ok tt, open_sink (codes "one\ntwo\n"))
echo_lines-lines_example =
    echo_lines-lines (λ bs. true) 3 (of_bytes []) [] spoken (codes "quit\nmore") spoken-IsEchoed
      (quit false (codes "more")) (omega arith)

two_users-Distinct : Distinct two_connected.room.users
two_users-Distinct = (((λ e. absurd (omega (arith, e))), tt), (tt, tt))

enter-map_example :
    of_list
      (enter 3 two_connected.room).users
      (enter-Distinct 3 two_connected.room two_users-Distinct)
    ≡ insert_map 3
        (record { queue = user 3 ∷ []; listening = true })
        (tell_map (user 3) (of_list two_connected.room.users two_users-Distinct))
enter-map_example = enter-map 3 two_connected.room two_users-Distinct
