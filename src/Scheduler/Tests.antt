-- ===== src/Scheduler/Tests.antt =====
-- Runs of the scheduler, with beats that are natural numbers.
use nomos_rt.Common.{ℕ, ltb, leb, none, some, List, [], ◌∷◌, ◌++◌, ◌≡◌, refl, arith}
use nomos_rt.SpscQueue.{SpscQueue, fresh}
use nomos_rt.SpscQueue.Capacity.{IsCapacity}
use nomos_rt.SpscQueue.Refine.{IsValid, fresh-IsValid}
use nomos_rt.Events.{ClapEvent, other}
use nomos_rt.Scheduler.{
  OscEvent, clap, osc, ScheduledEvent, EventScheduler, blank_osc, blank_event,
  osc_out_queue_capacity, sched_queue_capacity, insert_by_beat, stable_sort, fire, fire_due, tick,
}
use nomos_rt.Scheduler.Order.{IsOrder, due, waiting}
use nomos_rt.Scheduler.Tick.{clap_events, osc_events, push_events, staged, tick_lem}
use nomos_rt.Scheduler.Repeat.{tick_twice}

numbers-IsOrder : IsOrder ltb leb
numbers-IsOrder = record {
  strict = λ a b. ground arith;
  trans = λ a b c h k. ground arith;
  total = λ a b h. ground arith;
}

sched-IsCapacity : IsCapacity sched_queue_capacity
sched-IsCapacity = record { one_bit = refl; two_slots = omega arith; fits = omega arith }

osc-IsCapacity : IsCapacity osc_out_queue_capacity
osc-IsCapacity = record { one_bit = refl; two_slots = omega arith; fits = omega arith }

abbrev at : ℕ → ℕ → ScheduledEvent ℕ
at beat type = record { beat = beat; kind = clap; event = other type; osc = blank_osc }

abbrev datagram : ℕ → ScheduledEvent ℕ
datagram beat = record { beat = beat; kind = osc; event = other 0; osc = blank_osc }

abbrev quiet_events : SpscQueue (ScheduledEvent ℕ)
quiet_events = fresh (blank_event 0) sched_queue_capacity

abbrev scheduler : EventScheduler ℕ
scheduler = record {
  staging = quiet_events;
  pending = at 5 1 ∷ at 2 2 ∷ datagram 3 ∷ at 2 3 ∷ at 9 4 ∷ [];
  osc_out = some (fresh blank_osc osc_out_queue_capacity);
}

quiet-IsValid : IsValid sched_queue_capacity quiet_events
quiet-IsValid = (fresh-IsValid (blank_event 0) sched-IsCapacity).0

tick_lem_example :
    let all = scheduler.pending ++ staged 0 ltb leb quiet_events in
    let fired = stable_sort 0 ltb leb (due leb 5 all) in
    (t : EventScheduler ℕ) × (tick 0 ltb leb 5 scheduler ≡ some (clap_events fired, t))
    × (t.pending ≡ stable_sort 0 ltb leb (waiting leb 5 all))
    × (t.osc_out ≡ push_events (osc_events fired) scheduler.osc_out)
    × IsValid sched_queue_capacity t.staging
    × (staged 0 ltb leb t.staging ≡ [])
tick_lem_example = tick_lem 0 ltb leb numbers-IsOrder sched-IsCapacity 5 scheduler quiet-IsValid

-- The order of two events of one beat is that of their arrival.
order_of_delivery :
    fire_due 0 ltb leb 5 (stable_sort 0 ltb leb scheduler.pending) ([], none)
    ≡ ((other 2 ∷ other 3 ∷ other 1 ∷ [], none), at 9 4 ∷ [])
unfolding fire_due stable_sort insert_by_beat fire
order_of_delivery = refl

abbrev all_of : EventScheduler ℕ → List (ScheduledEvent ℕ)
all_of s = s.pending ++ staged 0 ltb leb s.staging

abbrev fired : ℕ → EventScheduler ℕ → List (ClapEvent ℕ)
fired now s = clap_events (stable_sort 0 ltb leb (due leb now (all_of s)))

-- The scheduler at beat 2, and then at beat 5.
abbrev at_two : EventScheduler ℕ
at_two = (tick_lem 0 ltb leb numbers-IsOrder sched-IsCapacity 2 scheduler quiet-IsValid).0

at_two-IsValid : IsValid sched_queue_capacity at_two.staging
at_two-IsValid = (tick_lem 0 ltb leb numbers-IsOrder sched-IsCapacity 2 scheduler quiet-IsValid).4

abbrev at_five : EventScheduler ℕ
at_five = (tick_lem 0 ltb leb numbers-IsOrder sched-IsCapacity 5 at_two at_two-IsValid).0

tick_twice_example :
    (w : EventScheduler ℕ) × (tick 0 ltb leb 5 scheduler
      ≡ some (fired 2 scheduler ++ fired 5 at_two, w))
    × (w.pending ≡ at_five.pending)
    × (w.osc_out ≡ at_five.osc_out)
tick_twice_example =
    tick_twice 0 ltb leb numbers-IsOrder sched-IsCapacity 2 5 scheduler at_two at_five
      (fired 2 scheduler) (fired 5 at_two) quiet-IsValid refl
      (tick_lem 0 ltb leb numbers-IsOrder sched-IsCapacity 2 scheduler quiet-IsValid).1
      (tick_lem 0 ltb leb numbers-IsOrder sched-IsCapacity 5 at_two at_two-IsValid).1

abbrev out : SpscQueue OscEvent
out = fresh blank_osc osc_out_queue_capacity
