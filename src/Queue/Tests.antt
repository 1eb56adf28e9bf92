-- ===== src/Queue/Tests.antt =====
-- A queue of two cells at the addresses 1 and 2, and the theorems at it.
use kitura_http.Prelude.{ℕ, ◌≡◌, refl, [], ◌∷◌, true, none, some, arith, ◌==◌, if◌then◌else◌}
use kitura_http.Result.{ok, fault, err, nomem, ◌>>=◌}
use kitura_http.Queue.{
  Cell, Queue, queue_init, queue_push, queue_pop, queue_front, queue_back, queue_empty,
}
use kitura_http.Queue.Fifo.{Holds, queue_push-Holds, queue_pop-Holds}

abbrev blank : ℕ → Cell
blank x = record { data_of = 0; next = none }

abbrev cells : ℕ → Cell
cells x =
    if x == 1
    then record { data_of = 70; next = some 2 }
    else if x == 2
    then record { data_of = 80; next = none }
    else blank x

abbrev two : Queue
two = record { mem = cells; front = some 1; back = some 2 }

empty_front : (queue_front (queue_init blank) ≡ fault) × (queue_empty (queue_init blank) ≡ true)
unfolding queue_front queue_init queue_empty
empty_front = (refl, refl)

no_memory : queue_push two 90 none ≡ err nomem
unfolding queue_push
no_memory = refl

three_back : (queue_push two 90 (some 3) >>= queue_back) ≡ ok 90
unfolding queue_push queue_back
three_back = refl

two-Holds : Holds two (1 ∷ 2 ∷ []) (70 ∷ 80 ∷ [])
two-Holds = record {
  linked = (refl, (refl, refl));
  ends = refl;
  distinct = (((ground arith), tt), (tt, tt));
  data_list = refl;
}

queue_push-Holds_example :
    (r : Queue) × (queue_push two 90 (some 3) ≡ ok r) × Holds r (1 ∷ 2 ∷ 3 ∷ []) (70 ∷ 80 ∷ 90 ∷ [])
queue_push-Holds_example =
    queue_push-Holds two (1 ∷ 2 ∷ []) (70 ∷ 80 ∷ []) 90 3 two-Holds
      (ground arith, (ground arith, tt))

queue_pop-Holds_example :
    (queue_front two ≡ ok 70) × (r : Queue) × (queue_pop two ≡ ok r) × Holds r (2 ∷ []) (80 ∷ [])
queue_pop-Holds_example = queue_pop-Holds two 1 (2 ∷ []) (80 ∷ []) 70 two-Holds
