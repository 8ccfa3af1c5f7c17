-- ===== src/InputBuffer/Drain.antt =====
-- What `drain` moves, and what the plugin reads.
use nomos_rt.Common.{
  ℕ, zero, suc, ◌+◌, ◌-◌, ◌≤◌, ◌<◌, ltb, leb, true, false, Bool, Bool-cases, inl, inr,
  if◌then◌else◌, Option, none, some, List, [], ◌∷◌, ◌++◌, length, take, drop, set, get_elem?,
  length-set, take-set, take-nil, drop-nil, append-nil, append_assoc, length-take, ◌≡◌, refl, ap,
  ap₂, sym, ◌∙◌, arith,
}
use nomos_rt.SpscQueue
use nomos_rt.SpscQueue.{SpscQueue}
use nomos_rt.SpscQueue.Capacity.{IsCapacity}
use nomos_rt.SpscQueue.Fifo
use nomos_rt.SpscQueue.Refine.{IsValid, contents, pop-IsValid, pop_refines}
use nomos_rt.Events.{ClapEvent}
use nomos_rt.InputBuffer.{
  max_events, in_queue_slots, InputEventBuffer, drain_turn, drain, size, get,
}

pub record IsBuffer {V : Type 0} (b : InputEventBuffer V) : Type 0 where
  pub storage : length b.events ≡ max_events
  pub counted : b.count ≤ max_events

get_elem-take :
    {A : Type 0} (n : ℕ) (xs : List A) (i : ℕ)
    → get_elem? (take n xs) i ≡ (if leb n i then none else get_elem? xs i)
get_elem-take zero xs i = ground arith
get_elem-take (suc n) [] i = elim (Bool-cases (leb (suc n) i)) [
  | inl past ↦ rw past refl
  | inr within ↦ rw within refl
]
get_elem-take (suc n) (x ∷ xs) zero = ground arith
get_elem-take (suc n) (x ∷ xs) (suc i) = get_elem-take n xs i ∙ ground arith

module _ {V : Type 0} (blank : ClapEvent V) where
  abbrev pub buffered : InputEventBuffer V → List (ClapEvent V)
  buffered b = take b.count b.events

  abbrev pub queued : SpscQueue (ClapEvent V) → List (ClapEvent V)
  queued = contents blank in_queue_slots

  -- How a drain ends: the events that there was room for have moved, in order.
  abbrev pub Drained :
      InputEventBuffer V
      → List (ClapEvent V)
      → Option (InputEventBuffer V × SpscQueue (ClapEvent V))
      → Type 0
  Drained b xs o =
      (b' : InputEventBuffer V) × (q' : SpscQueue (ClapEvent V)) × (o ≡ some (b', q'))
      × IsBuffer b'
      × IsValid in_queue_slots q'
      × (buffered b' ≡ buffered b ++ take (max_events - b.count) xs)
      × (queued q' ≡ drop (max_events - b.count) xs)

  grows :
      (b : InputEventBuffer V) (ev : ClapEvent V)
      → IsBuffer b
      → b.count < max_events
      → IsBuffer (record { events = set b.events b.count ev; count = b.count + 1 })
  grows b ev v room = record {
    storage = length-set b.events b.count ev ∙ v.storage;
    counted = omega arith;
  }

  buffered-set :
      (b : InputEventBuffer V) (ev : ClapEvent V)
      → IsBuffer b
      → b.count < max_events
      → take (b.count + 1) (set b.events b.count ev) ≡ buffered b ++ ev ∷ []
  buffered-set b ev v room =
      ap (λ n. take n (set b.events b.count ev)) (plus_one b.count)
      ∙ take-set b.events b.count ev (omega (arith, v.storage))
    where
      plus_one : (n : ℕ) → n + 1 ≡ suc n
      plus_one n = omega arith

  turn-Drained :
      (fuel : ℕ) (b : InputEventBuffer V) (popped : Option (ClapEvent V) × SpscQueue (ClapEvent V))
      (xs : List (ClapEvent V))
      → ((b' : InputEventBuffer V) (q : SpscQueue (ClapEvent V))
          → IsBuffer b'
          → IsValid in_queue_slots q
          → max_events - b'.count < fuel
          → Drained b' (queued q) (drain blank fuel b' q))
      → (popped.0, queued popped.1) ≡ Fifo.pop xs
      → IsBuffer b
      → IsValid in_queue_slots popped.1
      → b.count < max_events
      → max_events - b.count < suc fuel
      → Drained b xs (drain_turn blank (drain blank fuel) popped b)
  unfolding drain_turn Fifo.pop
  turn-Drained fuel b (none, q) [] ih e v w room enough = (
    b,
    q,
    refl,
    v,
    w,
    sym (append-nil (buffered b))
        ∙ ap (◌++◌ (buffered b)) (sym (take-nil _ (max_events - b.count))),
    ap (λ p. p.1) e ∙ sym (drop-nil (max_events - b.count)),
  )
  turn-Drained fuel b (none, q) (x ∷ xs) ih e v w room enough = absurd (ground (arith, e))
  turn-Drained fuel b (some ev, q) [] ih e v w room enough = absurd (ground (arith, e))
  turn-Drained fuel b (some ev, q) (x ∷ xs) ih e v w room enough =
      let b1 : InputEventBuffer V = record {
        events = set b.events b.count ev;
        count = b.count + 1;
      } in
      let r = ih b1 q (grows b ev v room) w (omega arith) in
      let one_more : max_events - b.count ≡ suc (max_events - (b.count + 1)) = omega arith in
      let rest : queued q ≡ xs = ap (λ p. p.1) e in
      let same : ev ≡ x = ground (arith, e) in
      (
        r.0,
        r.1,
        r.2,
        r.3,
        r.4,
        r.5
            ∙ ap (λ ys. buffered b1 ++ take (max_events - (b.count + 1)) ys) rest
            ∙ ap (λ ys. ys ++ take (max_events - (b.count + 1)) xs) (buffered-set b ev v room)
            ∙ append_assoc (buffered b) (ev ∷ []) _
            ∙ ap₂ (λ y n. buffered b ++ y ∷ n) same refl
            ∙ ap (λ n. buffered b ++ take n (x ∷ xs)) (sym one_more),
        r.6
            ∙ ap (drop (max_events - (b.count + 1))) rest
            ∙ ap (λ n. drop n (x ∷ xs)) (sym one_more),
      )

  -- With more fuel than there is room, `drain` ends: the buffer takes the oldest events of the queue that it has room for,
  -- behind those that it has, and the queue keeps the rest.
  pub drain-Drained :
      (c : IsCapacity in_queue_slots) (fuel : ℕ) (b : InputEventBuffer V)
      (q : SpscQueue (ClapEvent V))
      → IsBuffer b
      → IsValid in_queue_slots q
      → max_events - b.count < fuel
      → Drained b (queued q) (drain blank fuel b q)
  unfolding drain
  drain-Drained c zero b q v w enough = absurd (omega arith)
  drain-Drained c (suc fuel) b q v w enough =
      go (λ b' q' v' w' l. drain-Drained c fuel b' q' v' w' l) (ltb b.count max_events) refl
    where
      go :
          ((b' : InputEventBuffer V) (q' : SpscQueue (ClapEvent V))
            → IsBuffer b'
            → IsValid in_queue_slots q'
            → max_events - b'.count < fuel
            → Drained b' (queued q') (drain blank fuel b' q'))
          → (z : Bool) → ltb b.count max_events ≡ z
          → Drained b (queued q) (elim z [
            | true ↦ drain_turn blank (drain blank fuel) (SpscQueue.pop blank in_queue_slots q) b
            | false ↦ some (b, q)
          ])
      go ih true e =
          turn-Drained fuel b (SpscQueue.pop blank in_queue_slots q) (queued q) ih
            (pop_refines blank c w) v (pop-IsValid blank c w) (ground (arith, e)) enough
      go ih false e =
          let full : 0 ≡ max_events - b.count = ground (arith, e, v.counted) in
          (
            b,
            q,
            refl,
            v,
            w,
            sym (append-nil (buffered b)) ∙ ap (λ n. buffered b ++ take n (queued q)) full,
            ap (λ n. drop n (queued q)) full,
          )

  -- The plugin reads the buffered events, each at its index, and nothing past them.
  pub get-buffered :
      (b : InputEventBuffer V) (i : ℕ)
      → IsBuffer b
      → (get blank b i ≡ get_elem? (buffered b) i) × (size blank b ≡ length (buffered b))
  unfolding get size
  get-buffered b i v = (
    sym (get_elem-take b.count b.events i),
    omega (arith, length-take b.count b.events, v.storage, v.counted),
  )
