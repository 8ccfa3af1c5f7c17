-- ===== src/EventCollector/Flush.antt =====
-- The blocks that `flush_to` makes.
use nomos_rt.Common.{
  All, ◌⊎◌, ℕ, zero, suc, ◌+◌, ◌-◌, ◌*◌, ◌/◌, ◌≤◌, ◌<◌, ◌==◌, min, ltb, Bool-cases, inl, inr,
  Option, some, List, [], ◌∷◌, ◌++◌, length, take, drop, drop-drop, take-append-drop, length-take,
  length-drop, append_assoc, append-nil, get_or, drop-get, drop-length-take, get_or-take, drop-all,
  ◌≡◌, refl, ap, sym, ◌∙◌, arith,
}
use nomos_rt.SpscQueue
use nomos_rt.SpscQueue.{SpscQueue}
use nomos_rt.SpscQueue.Capacity.{IsCapacity}
use nomos_rt.SpscQueue.Refine.{IsValid, contents}
use nomos_rt.SpscQueue.Bursts.{push_all, push_all-contents}
use nomos_rt.EventCollector.{
  MidiOutEvent, no_event, MidiEventBlock, block_events, midi_queue_capacity, max_events,
  EventCollector, fill_block, flush_from, flush_to,
}

-- The array has its slots, and `count_` counts some of them.
pub record IsCollector (c : EventCollector) : Type 0 where
  pub storage : length c.events ≡ max_events
  pub counted : c.count ≤ max_events

abbrev pub collected : EventCollector → List MidiOutEvent
collected c = take c.count c.events

-- A list cut into `k` blocks.
abbrev pub blocks : ℕ → List MidiOutEvent → List MidiEventBlock
blocks zero es = []
blocks (suc k) es = take block_events es ∷ blocks k (drop block_events es)

abbrev pub join : List MidiEventBlock → List MidiOutEvent
join [] = []
join (b ∷ bs) = b ++ join bs

-- The number of blocks that `n` events need.
abbrev pub blocks_for : ℕ → ℕ
blocks_for n = (n + 6) / 7

pub length-collected : (c : EventCollector) → IsCollector c → length (collected c) ≡ c.count
length-collected c v = omega (arith, length-take c.count c.events, v.storage, v.counted)

suc_plus : (i : ℕ) → suc i ≡ i + 1
suc_plus i = omega arith

front :
    (c : EventCollector) (i : ℕ)
    → IsCollector c
    → i < c.count
    → drop i (collected c) ≡ get_or c.events i no_event ∷ drop (i + 1) (collected c)
front c i v h =
    drop-get (collected c) i no_event (omega (arith, length-collected c v))
    ∙ ap (λ k. get_or (collected c) i no_event ∷ drop k (collected c)) (suc_plus i)
    ∙ ap (λ e. e ∷ drop (i + 1) (collected c)) (get_or-take c.count c.events i no_event h)

fill_block_lem :
    (room : ℕ) (c : EventCollector) (block : MidiEventBlock) (i : ℕ)
    → IsCollector c
    → i ≤ c.count
    → let es = take room (drop i (collected c)) in
      fill_block room c block i ≡ (block ++ es, i + length es)
unfolding fill_block
fill_block_lem zero c block i v h = ground (arith, append-nil block)
fill_block_lem (suc room) c block i v h = elim (Bool-cases (ltb i c.count)) [
  | inl more ↦
      let x = get_or c.events i no_event in
      let ih = fill_block_lem room c (block ++ x ∷ []) (i + 1) v (ground (arith, more)) in
      rw (more, ih, front c i v (ground (arith, more)))
        (ground (arith, append_assoc block (x ∷ []) (take room (drop (i + 1) (collected c)))))
  | inr done ↦
      rw (done, drop-all i (collected c) (ground (arith, done, length-collected c v)))
        (ground (arith, append-nil block))
]

flush_from_lem :
    (fuel : ℕ) (c : EventCollector) (i pushed : ℕ) (q : SpscQueue MidiEventBlock)
    → IsCollector c
    → i ≤ c.count
    → blocks_for (c.count - i) < fuel
    → flush_from fuel c i pushed q
      ≡ some (
        pushed + blocks_for (c.count - i),
        push_all [] midi_queue_capacity
            (blocks (blocks_for (c.count - i)) (drop i (collected c)))
            q,
      )
unfolding flush_from
flush_from_lem zero c i pushed q v h enough = absurd (omega arith)
flush_from_lem (suc fuel) c i pushed q v h enough = elim (Bool-cases (ltb i c.count)) [
  | inl more ↦
      let es = drop i (collected c) in
      let l = length (take block_events es) in
      let l_is : l ≡ min 7 (c.count - i) =
        omega
          (arith, length-take block_events es, length-drop i (collected c), length-collected c v) in
      let less : i < c.count = ground (arith, more) in
      let one_more : blocks_for (c.count - i) ≡ suc (blocks_for (c.count - (i + l))) =
        omega arith in
      let ih =
        flush_from_lem fuel c (i + l) (pushed + 1)
          (SpscQueue.push [] midi_queue_capacity (take block_events es) q).1 v (omega arith)
          (omega arith) in
      let rest : drop (i + l) (collected c) ≡ drop block_events es =
        sym (drop-drop i l (collected c)) ∙ drop-length-take block_events es in
      rw (more, fill_block_lem block_events c [] i v h, ih, rest, one_more) (ground arith)
  | inr done ↦
      let none_left : c.count - i ≡ 0 = ground (arith, done) in
      rw (done, none_left)
        (ap {B = Option (ℕ × SpscQueue MidiEventBlock)} (λ n. some (n, q)) (omega arith))
]

join-blocks :
    (k : ℕ) (es : List MidiOutEvent) → length es ≤ k * block_events → join (blocks k es) ≡ es
join-blocks zero [] h = refl
join-blocks zero (e ∷ es) h = absurd (omega arith)
join-blocks (suc k) es h =
    ap (◌++◌ (take block_events es))
      (join-blocks k (drop block_events es) (omega (arith, length-drop block_events es)))
    ∙ take-append-drop block_events es

length-blocks : (k : ℕ) (es : List MidiOutEvent) → length (blocks k es) ≡ k
length-blocks zero es = refl
length-blocks (suc k) es = ap suc (length-blocks k (drop block_events es))

enough_events : (n l : ℕ) → l ≡ n → ((blocks_for n - 1) * block_events < l) ⊎ (blocks_for n ≡ 0)
enough_events n l h = elim (Bool-cases (n == 0)) [
  | inl empty ↦ inr (ground (arith, empty))
  | inr more ↦ inl (ground (arith, more, h))
]

-- A block that holds something, and at most seven events.
abbrev pub IsBlock : MidiEventBlock → Type 0
IsBlock b = (0 < length b) × (length b ≤ block_events)

blocks-IsBlock :
    (k : ℕ) (es : List MidiOutEvent)
    → (k - 1) * block_events < length es ⊎ (k ≡ 0)
    → All IsBlock (blocks k es)
blocks-IsBlock zero es h = tt
blocks-IsBlock (suc k) es h = (
  omega (arith, length-take block_events es, h),
  blocks-IsBlock k (drop block_events es) (ground (arith, length-drop block_events es, h)),
)

minus_zero : (n : ℕ) → n - 0 ≡ n
minus_zero n = omega arith

zero_plus : (n : ℕ) → 0 + n ≡ n
zero_plus n = omega arith

-- `flush_to` on a valid collector and queue ends. It cuts the collected events, in order, into blocks of at most
-- seven with none empty, pushes each, and returns their number, which counts the blocks that the queue has no room for too.
pub flush_to_lem :
    (c : EventCollector) (q : SpscQueue MidiEventBlock)
    → IsCapacity midi_queue_capacity
    → IsCollector c
    → IsValid midi_queue_capacity q
    → (bs : List MidiEventBlock) × (q' : SpscQueue MidiEventBlock) × (flush_to c q
        ≡ some (length bs, q'))
      × (join bs ≡ collected c)
      × All IsBlock bs
      × IsValid midi_queue_capacity q'
      × (contents [] midi_queue_capacity q'
          ≡ take (midi_queue_capacity - 1) (contents [] midi_queue_capacity q ++ bs))
unfolding flush_to
flush_to_lem c q two v w =
    let k = blocks_for c.count in
    let bs = blocks k (collected c) in
    let held = length-collected c v in
    let r = push_all-contents [] midi_queue_capacity two bs q w in
    (
      bs,
      push_all [] midi_queue_capacity bs q,
      flush_from_lem (suc max_events) c 0 0 q v (omega arith) (omega (arith, v.counted))
          ∙ ap
              (λ n. some (
                0 + blocks_for n,
                push_all [] midi_queue_capacity (blocks (blocks_for n) (collected c)) q,
              ))
              (minus_zero c.count)
          ∙ ap (λ n. some (n, push_all [] midi_queue_capacity bs q))
              (zero_plus k ∙ sym (length-blocks k (collected c))),
      join-blocks k (collected c) (omega (arith, held)),
      blocks-IsBlock k (collected c) (enough_events c.count (length (collected c)) held),
      r.0,
      r.1,
    )
