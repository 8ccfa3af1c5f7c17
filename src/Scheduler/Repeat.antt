-- ===== src/Scheduler/Repeat.antt =====
-- Several calls of `tick`.
use nomos_rt.Common.{
  Bool, true, some, List, [], ◌∷◌, ◌++◌, append_assoc, append-nil, ◌≡◌, refl, ap, ap₂, sym, ◌∙◌,
  arith,
}
use nomos_rt.SpscQueue.Capacity.{IsCapacity}
use nomos_rt.SpscQueue.Refine.{IsValid}
use nomos_rt.Events.{ClapEvent}
use nomos_rt.Scheduler.{ScheduledEvent, EventScheduler, sched_queue_capacity, stable_sort, tick}
use nomos_rt.Scheduler.Order.{due_twice, IsOrder, due, waiting}
use nomos_rt.Scheduler.Tick.{
  clap_of, osc_of, clap_events, osc_events, push_events, push_events-append, staged, tick_lem,
}

some_pair : {A B : Type 0} (p q : A × B) → some p ≡ some q → (p.0 ≡ q.0) × (p.1 ≡ q.1)
some_pair p q e = ground (arith, e)

module _ {V : Type 0} where
  clap_events-append :
      (es fs : List (ScheduledEvent V)) → clap_events (es ++ fs) ≡ clap_events es ++ clap_events fs
  clap_events-append [] fs = refl
  clap_events-append (e ∷ es) fs =
      ap (◌++◌ (clap_of e.kind e)) (clap_events-append es fs)
      ∙ sym (append_assoc (clap_of e.kind e) (clap_events es) (clap_events fs))

  osc_events-append :
      (es fs : List (ScheduledEvent V)) → osc_events (es ++ fs) ≡ osc_events es ++ osc_events fs
  osc_events-append [] fs = refl
  osc_events-append (e ∷ es) fs =
      ap (◌++◌ (osc_of e.kind e)) (osc_events-append es fs)
      ∙ sym (append_assoc (osc_of e.kind e) (osc_events es) (osc_events fs))

module _ {V : Type 0} (zero_beat : V) (lt le : V → V → Bool) where
  -- Two calls one after the other with nothing pushed between them deliver to the callback what the later one alone would
  -- have delivered, in the same order, and leave the same events.
  pub tick_twice :
      (order : IsOrder lt le) (c : IsCapacity sched_queue_capacity) (now later : V)
      (s t u : EventScheduler V) (given more : List (ClapEvent V))
      → IsValid sched_queue_capacity s.staging
      → le now later ≡ true
      → tick zero_beat lt le now s ≡ some (given, t)
      → tick zero_beat lt le later t ≡ some (more, u)
      → (w : EventScheduler V) × (tick zero_beat lt le later s ≡ some (given ++ more, w))
        × (w.pending ≡ u.pending)
        × (w.osc_out ≡ u.osc_out)
  tick_twice order c now later s t u given more v h e f =
      let a = tick_lem zero_beat lt le order c now s v in
      let (given_is, t_is) = some_pair (given, t) _ (sym e ∙ a.1) in
      let b = tick_lem zero_beat lt le order c later t (rw t_is a.4) in
      let (more_is, u_is) = some_pair (more, u) _ (sym f ∙ b.1) in
      let w = tick_lem zero_beat lt le order c later s v in
      let all = s.pending ++ staged zero_beat lt le s.staging in
      let fired_now = stable_sort zero_beat lt le (due le now all) in
      let all_t : t.pending ++ staged zero_beat lt le t.staging
          ≡ stable_sort zero_beat lt le (waiting le now all) =
        rw t_is (ap₂ ◌++◌ a.2 a.5 ∙ append-nil _) in
      let two = due_twice zero_beat lt le order now later all h in
      let fired_later =
        stable_sort zero_beat lt le
          (due le later (t.pending ++ staged zero_beat lt le t.staging)) in
      let fired : stable_sort zero_beat lt le (due le later all) ≡ fired_now ++ fired_later =
        sym two.0
        ∙ ap (λ xs. fired_now ++ stable_sort zero_beat lt le (due le later xs)) (sym all_t) in
      (
        w.0,
        w.1
            ∙ ap (λ es. some (es, w.0))
                (ap clap_events fired
                  ∙ clap_events-append fired_now _
                  ∙ sym (ap₂ ◌++◌ given_is more_is)),
        w.2
            ∙ sym two.1
            ∙ ap (λ xs. stable_sort zero_beat lt le (waiting le later xs)) (sym all_t)
            ∙ sym b.2
            ∙ ap (λ z. z.pending) (sym u_is),
        w.3
            ∙ ap (λ es. push_events (osc_events es) s.osc_out) fired
            ∙ ap (λ os. push_events os s.osc_out) (osc_events-append fired_now fired_later)
            ∙ push_events-append (osc_events fired_now) (osc_events fired_later) s.osc_out
            ∙ ap (push_events (osc_events fired_later)) (sym a.3 ∙ ap (λ z. z.osc_out) (sym t_is))
            ∙ sym b.3
            ∙ ap (λ z. z.osc_out) (sym u_is),
      )
