-- ===== src/Scheduler/Tick.antt =====
-- What a call of `tick` does, said of the events as a list.
use nomos_rt.Common.{
  ℕ, zero, suc, ◌-◌, ◌<◌, Bool, not, Option, none, some, List, [], ◌∷◌, ◌++◌, length, take,
  take-all, append_assoc, append-nil, Bool-cases, inl, inr, ◌≡◌, refl, ap, ap₂, sym, ◌∙◌, arith,
}
use nomos_rt.SpscQueue
use nomos_rt.SpscQueue.{SpscQueue}
use nomos_rt.SpscQueue.Capacity.{IsCapacity}
use nomos_rt.SpscQueue.Fifo
use nomos_rt.SpscQueue.Refine.{
  IsValid, contents, pop-IsValid, pop_refines, push-IsValid, push_refines,
}
use nomos_rt.SpscQueue.Bursts.{push-take, contents_limit}
use nomos_rt.Events.{ClapEvent}
use nomos_rt.Scheduler.{
  OscEvent, SchedKind, clap, osc, ScheduledEvent, EventScheduler, blank_osc, blank_event,
  osc_out_queue_capacity, sched_queue_capacity, drain_turn, drain, stable_sort, osc_push, fire,
  fire_due, tick_pending, tick,
}
use nomos_rt.Scheduler.Order.{none_due, IsOrder, IsSorted, due, waiting, sort-IsSorted, filter-sort}

-- The CLAP events and the datagrams among scheduled events.
module _ {V : Type 0} where
  abbrev pub clap_of : SchedKind → ScheduledEvent V → List (ClapEvent V)
  clap_of clap e = e.event ∷ []
  clap_of osc e = []

  abbrev pub osc_of : SchedKind → ScheduledEvent V → List OscEvent
  osc_of clap e = []
  osc_of osc e = e.osc ∷ []

  abbrev pub clap_events : List (ScheduledEvent V) → List (ClapEvent V)
  clap_events [] = []
  clap_events (e ∷ es) = clap_of e.kind e ++ clap_events es

  abbrev pub osc_events : List (ScheduledEvent V) → List OscEvent
  osc_events [] = []
  osc_events (e ∷ es) = osc_of e.kind e ++ osc_events es

-- The queue that the datagrams go to after pushes of all of `os`.
abbrev pub push_events : List OscEvent → Option (SpscQueue OscEvent) → Option (SpscQueue OscEvent)
push_events [] out = out
push_events (o ∷ os) out = push_events os (osc_push o out)

pub push_events-append :
    (os ps : List OscEvent) (out : Option (SpscQueue OscEvent))
    → push_events (os ++ ps) out ≡ push_events ps (push_events os out)
push_events-append [] ps out = refl
push_events-append (o ∷ os) ps out = push_events-append os ps (osc_push o out)

-- The sender's queue keeps what it held and takes the first of the events that it has room for.
pub push_events-contents :
    (c : IsCapacity osc_out_queue_capacity) (os : List OscEvent) (q : SpscQueue OscEvent)
    → IsValid osc_out_queue_capacity q
    → (q' : SpscQueue OscEvent) × (push_events os (some q) ≡ some q')
      × IsValid osc_out_queue_capacity q'
      × (contents blank_osc osc_out_queue_capacity q'
          ≡ take (osc_out_queue_capacity - 1) (contents blank_osc osc_out_queue_capacity q ++ os))
push_events-contents c [] q v = (
  q,
  refl,
  v,
  ground (
    arith,
    append-nil (contents blank_osc osc_out_queue_capacity q),
    take-all (osc_out_queue_capacity - 1) _ (contents_limit blank_osc c v),
  ),
)
push_events-contents c (o ∷ os) q v =
    let r = push_events-contents c os _ (push-IsValid blank_osc c o v) in
    (
      r.0,
      r.1,
      r.2,
      r.3
          ∙ ap (λ xs. take (osc_out_queue_capacity - 1) (xs ++ os))
              (ap (λ p. p.1) (push_refines blank_osc c o v))
          ∙ push-take (osc_out_queue_capacity - 1) o _ os (contents_limit blank_osc c v),
    )

module _ {V : Type 0} (zero_beat : V) (lt le : V → V → Bool) where
  abbrev pub staged : SpscQueue (ScheduledEvent V) → List (ScheduledEvent V)
  staged = contents (blank_event zero_beat) sched_queue_capacity

  -- All that was staged is behind `pending`, and the queue is empty.
  abbrev Drained :
      SpscQueue (ScheduledEvent V)
      → List (ScheduledEvent V)
      → Option (SpscQueue (ScheduledEvent V) × List (ScheduledEvent V))
      → Type 0
  Drained q pending o =
      (q' : SpscQueue (ScheduledEvent V)) × (o ≡ some (q', pending ++ staged q))
      × IsValid sched_queue_capacity q'
      × (staged q' ≡ [])

  -- With more fuel than staged events the drain ends, and has moved all of them.
  drain_lem :
      (c : IsCapacity sched_queue_capacity) (fuel : ℕ) (q : SpscQueue (ScheduledEvent V))
      (pending : List (ScheduledEvent V))
      → IsValid sched_queue_capacity q
      → length (staged q) < fuel
      → Drained q pending (drain zero_beat lt le fuel q pending)
  unfolding drain drain_turn Fifo.pop
  drain_lem c zero q pending v enough = absurd (omega arith)
  drain_lem c (suc fuel) q pending v enough =
      go (λ t ps. drain_lem c fuel t ps)
        (SpscQueue.pop (blank_event zero_beat) sched_queue_capacity q) (staged q)
        (pop_refines (blank_event zero_beat) c v) (pop-IsValid (blank_event zero_beat) c v) enough
    where
      go :
          ((t : SpscQueue (ScheduledEvent V)) (ps : List (ScheduledEvent V))
            → IsValid sched_queue_capacity t
            → length (staged t) < fuel
            → Drained t ps (drain zero_beat lt le fuel t ps))
          → (popped : Option (ScheduledEvent V) × SpscQueue (ScheduledEvent V))
          → (xs : List (ScheduledEvent V)) → (popped.0, staged popped.1) ≡ Fifo.pop xs
          → IsValid sched_queue_capacity popped.1
          → length xs < suc fuel
          → (q' : SpscQueue (ScheduledEvent V)) × (drain_turn zero_beat lt le
                (drain zero_beat lt le fuel)
                popped
                pending
              ≡ some (q', pending ++ xs))
            × IsValid sched_queue_capacity q'
            × (staged q' ≡ [])
      go again (none, t) [] e w l =
          (t, ap (λ ps. some (t, ps)) (sym (append-nil pending)), w, ap (λ p. p.1) e)
      go again (none, t) (x ∷ xs) e w l = absurd (ground (arith, e))
      go again (some x, t) [] e w l = absurd (ground (arith, e))
      go again (some x, t) (y ∷ xs) e w l =
          let rest : staged t ≡ xs = ap (λ p. p.1) e in
          let r = again t (pending ++ x ∷ []) w (ground (arith, ap length rest)) in
          (r.0, ground (arith, r.1, rest, e, append_assoc pending (x ∷ []) xs), r.2, r.3)

  fire_lem :
      (kind : SchedKind) (e : ScheduledEvent V) (given : List (ClapEvent V))
      (out : Option (SpscQueue OscEvent))
      → fire kind e (given, out) ≡ (given ++ clap_of kind e, push_events (osc_of kind e) out)
  unfolding fire
  fire_lem clap e given out = refl
  fire_lem osc e given out = ap (λ xs. (xs, osc_push e.osc out)) (sym (append-nil given))

  fire_due_lem :
      (order : IsOrder lt le) (now : V) (es : List (ScheduledEvent V)) (given : List (ClapEvent V))
      (out : Option (SpscQueue OscEvent))
      → IsSorted le es
      → fire_due zero_beat lt le now es (given, out) ≡ (
        (given ++ clap_events (due le now es), push_events (osc_events (due le now es)) out),
        waiting le now es,
      )
  unfolding fire_due
  fire_due_lem order now [] given out h = ap (λ xs. ((xs, out), [])) (sym (append-nil given))
  fire_due_lem order now (e ∷ es) given out (h, hs) = elim (Bool-cases (le e.beat now)) [
    | inl ready ↦ rw ready (
        ap (fire_due zero_beat lt le now es) (fire_lem e.kind e given out)
        ∙ fire_due_lem order now es _ _ hs
        ∙ ap₂ (λ xs o. ((xs, o), waiting le now es))
            (append_assoc given (clap_of e.kind e) (clap_events (due le now es)))
            (sym (push_events-append (osc_of e.kind e) (osc_events (due le now es)) out)))
    | inr early ↦
        let later = none_due zero_beat lt le order e.beat now es early h in
        rw (early, later.0, later.1) (ap (λ xs. ((xs, out), e ∷ es)) (sym (append-nil given)))
  ]

  -- A call of `tick` on a scheduler whose staging queue is valid ends. It fires, in the order of their
  -- beats and those of one beat in the order of their arrival, exactly the events whose beat has come:
  -- the CLAP events go to the callback, the others to the sender's queue. The rest stay.
  pub tick_lem :
      (order : IsOrder lt le) (c : IsCapacity sched_queue_capacity) (now : V) (s : EventScheduler V)
      → IsValid sched_queue_capacity s.staging
      → let all = s.pending ++ staged s.staging in
        let fired = stable_sort zero_beat lt le (due le now all) in
        (t : EventScheduler V) × (tick zero_beat lt le now s ≡ some (clap_events fired, t))
        × (t.pending ≡ stable_sort zero_beat lt le (waiting le now all))
        × (t.osc_out ≡ push_events (osc_events fired) s.osc_out)
        × IsValid sched_queue_capacity t.staging
        × (staged t.staging ≡ [])
  unfolding tick tick_pending stable_sort
  tick_lem order c now s v =
      let d =
        drain_lem c sched_queue_capacity s.staging s.pending v
          (omega (arith, contents_limit (blank_event zero_beat) c v)) in
      rw d.1 (go d.0 (s.pending ++ staged s.staging) d.2 d.3)
    where
      go :
          (q : SpscQueue (ScheduledEvent V)) (all : List (ScheduledEvent V))
          → IsValid sched_queue_capacity q
          → staged q ≡ []
          → let fired = stable_sort zero_beat lt le (due le now all) in
            (t : EventScheduler V) × (tick_pending zero_beat lt le now s.osc_out (some (q, all))
              ≡ some (clap_events fired, t))
            × (t.pending ≡ stable_sort zero_beat lt le (waiting le now all))
            × (t.osc_out ≡ push_events (osc_events fired) s.osc_out)
            × IsValid sched_queue_capacity t.staging
            × (staged t.staging ≡ [])
      go q [] w e =
          (record { staging = q; pending = []; osc_out = s.osc_out }, refl, refl, refl, w, e)
      go q (x ∷ xs) w e =
          let r =
            fire_due_lem order now (stable_sort zero_beat lt le (x ∷ xs)) [] s.osc_out
              (sort-IsSorted zero_beat lt le order (x ∷ xs)) in
          let fired = filter-sort zero_beat lt le order (λ e. le e.beat now) (x ∷ xs) in
          let t : EventScheduler V = record {
            staging = q;
            pending = waiting le now (stable_sort zero_beat lt le (x ∷ xs));
            osc_out =
                push_events (osc_events (due le now (stable_sort zero_beat lt le (x ∷ xs))))
                  s.osc_out;
          } in
          (
            t,
            ap (λ z. some (z.0.0, record { staging = q; pending = z.1; osc_out = z.0.1 })) r
                ∙ ap (λ es. some (clap_events es, t)) fired,
            filter-sort zero_beat lt le order (λ e. not (le e.beat now)) (x ∷ xs),
            ap (λ es. push_events (osc_events es) s.osc_out) fired,
            w,
            e,
          )
