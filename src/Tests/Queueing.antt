-- ===== src/Tests/Queueing.antt =====
-- The theorems on the queue of readers and the client, at concrete inputs.
use touche.Base.{ℕ, ◌+◌, List, true, false, ◌≡◌, refl, none, some, [], ◌∷◌, arith, Bytes, codes}
use touche.Io.{Stream, of_bytes}
use touche.Crates.{http_11}
use touche.Http.{Request}
use touche.ReadQueue.{
  ReadQueue, waiting, use_reader, drop_reader, current, gone, new, enqueue, step,
}
use touche.ReadQueue.Turns.{Held, Reachable, start, queued, acted, Reachable-Held}
use touche.ReadQueue.Progress.{step-goes}
use touche.ReadQueue.Rounds.{Round, rounds, then_step, of_list, spent, holds, rounds-hand_on}
use touche.ReadQueue.Order.{GoneBefore, step-first}
use touche.Tests.Sample.{sample}

abbrev two_queued : ReadQueue ℕ
two_queued = record {
  head = none;
  readers =
      record { handle = current 7; sent = none } ∷ record { handle = waiting; sent = none } ∷ [];
}

abbrev first_dropped : ReadQueue ℕ
first_dropped = record {
  head = none;
  readers = record { handle = gone; sent = some 7 } ∷ record { handle = waiting; sent = none } ∷ [];
}

abbrev second_read : ReadQueue ℕ
second_read = record {
  head = none;
  readers = record { handle = gone; sent = none } ∷ record { handle = current 8; sent = none } ∷ [];
}

two_queued-Reachable : Reachable 7 two_queued
unfolding enqueue
two_queued-Reachable = queued _ (queued _ start)

first_dropped-Reachable : Reachable 7 first_dropped
unfolding step
first_dropped-Reachable = acted drop_reader 0 two_queued first_dropped two_queued-Reachable refl

Reachable-Held_example : Held first_dropped
Reachable-Held_example = Reachable-Held 7 first_dropped first_dropped-Reachable

step-first_example : GoneBefore 1 first_dropped.readers
unfolding step
step-first_example =
    step-first 7 (use_reader (λ n. 8)) 1 first_dropped second_read first_dropped-Reachable refl

step-goes_example : (q : ReadQueue ℕ) × (step drop_reader 1 first_dropped ≡ some q)
step-goes_example =
    step-goes 7 drop_reader 1 first_dropped first_dropped-Reachable (refl, λ same. ground arith)

-- The first body takes its queued reader and adds ten, the second request has no body.
abbrev two_rounds : List (Round ℕ)
two_rounds =
    record { parse = λ n. n + 1; owns = true; consume = λ n. n + 10 }
    ∷ record { parse = λ n. n + 2; owns = false; consume = λ n. n }
    ∷ []

rounds-hand_on_example :
    then_step (rounds two_rounds 0 (enqueue (new 0))) (step (use_reader (λ n. n + 100)) 2)
    ≡ some (of_list (spent 2 (holds 113 ∷ [])))
rounds-hand_on_example = rounds-hand_on two_rounds 0 (λ n. n + 100)

abbrev post : Request sample Bytes
post = record {
  method = codes "POST";
  uri = codes "/";
  version = http_11;
  headers = [];
  body = codes "hello";
}

abbrev reply : Stream
reply = of_bytes (codes "HTTP/1.1 200 OK\r\ncontent-length: 2\r\n\r\nhi")
