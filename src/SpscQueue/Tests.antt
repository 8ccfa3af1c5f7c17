-- ===== src/SpscQueue/Tests.antt =====
-- Runs of the ring buffer, and its theorems at concrete queues of four slots.
use nomos_rt.Common.{ℕ, true, false, none, some, List, [], ◌∷◌, ◌++◌, ◌≡◌, ◌≢◌, refl, arith}
use nomos_rt.SpscQueue.{SpscQueue, push, pop, next_index, run, Call, pushes, pops, pushed, popped}
use nomos_rt.SpscQueue.Fifo
use nomos_rt.SpscQueue.Capacity.{IsCapacity}
use nomos_rt.SpscQueue.Refine.{run_refines}
use nomos_rt.SpscQueue.Threads.{Move, State, produce, consume, idle, resting, interleave, start}
use nomos_rt.SpscQueue.Threads.Invariant.{interleave_history, interleave_apart}

-- 8, then 9, round the end of the slots.
abbrev turned_queue : SpscQueue ℕ
turned_queue = record { head = 1; tail = 3; slots = 9 ∷ 6 ∷ 7 ∷ 8 ∷ [] }

four-IsCapacity : IsCapacity 4
four-IsCapacity = record { one_bit = refl; two_slots = omega arith; fits = omega arith }

abbrev calls : List (Call ℕ)
calls = pushes 1 ∷ pushes 2 ∷ pops ∷ pushes 3 ∷ pops ∷ pops ∷ pops ∷ pops ∷ []

run-turned :
    run 0 4 turned_queue calls
    ≡ pushed true
      ∷ pushed false
      ∷ popped (some 8)
      ∷ pushed true
      ∷ popped (some 9)
      ∷ popped (some 1)
      ∷ popped (some 3)
      ∷ popped none
      ∷ []
unfolding run push pop next_index
run-turned = refl

run_refines_example : run 0 4 turned_queue calls ≡ Fifo.run 3 (8 ∷ 9 ∷ []) calls
run_refines_example = run_refines 0 four-IsCapacity calls {q = turned_queue} (omega arith)

-- The producer's second call begins before the consumer has read.
abbrev schedule : List (Move ℕ)
schedule =
    produce 5
    ∷ produce 5
    ∷ produce 5
    ∷ consume
    ∷ produce 6
    ∷ consume
    ∷ produce 6
    ∷ consume
    ∷ produce 6
    ∷ []

interleave_history_example :
    (interleave 0 4 schedule (start 0 4)).sent
    ≡ (interleave 0 4 schedule (start 0 4)).received ++ 6 ∷ []
unfolding interleave start next_index
interleave_history_example = interleave_history 0 four-IsCapacity schedule

abbrev half_way : List (Move ℕ)
half_way = produce 5 ∷ produce 5 ∷ produce 5 ∷ consume ∷ produce 6 ∷ []

interleave_apart_example : let q = (interleave 0 4 half_way (start 0 4)).queue in q.tail ≢ q.head
unfolding interleave start next_index
interleave_apart_example = interleave_apart 0 four-IsCapacity half_way (λ e. cc)

abbrev turned_state : State ℕ
turned_state = record {
  queue = turned_queue;
  producer = idle;
  consumer = resting;
  sent = 8 ∷ 9 ∷ [];
  received = [];
}
