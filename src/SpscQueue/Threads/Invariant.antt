-- ===== src/SpscQueue/Threads/Invariant.antt =====
-- Under every interleaving of the two threads the ring buffer is a first-in first-out queue.
use nomos_rt.Common.{
  ℕ, suc, ◌-◌, ◌<◌, true, List, [], ◌∷◌, ◌++◌, get_or, set, length-set, get_or-set_self,
  get_or-set_ne, ◌≡◌, ◌≢◌, refl, ap, sym, ◌∙◌, arith, append_assoc, some,
}
use nomos_rt.SpscQueue.{SpscQueue, next_index, push, pop}
use nomos_rt.SpscQueue.Capacity.{IsCapacity, next_index_lem}
use nomos_rt.SpscQueue.Refine.{
  IsValid, contents, held, held-set, place, between, fresh-IsValid, head_place, nonempty_front,
}
use nomos_rt.SpscQueue.Threads.{
  Producer, idle, storing, publishing, Consumer, resting, reading, leaving, State, Move, produce,
  consume, producer_step, consumer_step, step, interleave, start,
}

module _ {A : Type 0} (blank : A) (cap : ℕ) where
  -- What a thread has made sure of where it stands.
  abbrev HasRoom : Producer A → SpscQueue A → Type 0
  HasRoom idle q = Unit
  HasRoom (storing x) q = between cap q.tail q.head < cap - 1
  HasRoom (publishing x) q =
      (between cap q.tail q.head < cap - 1) × (get_or q.slots q.head blank ≡ x)

  abbrev HasItem : Consumer A → SpscQueue A → Type 0
  HasItem resting q = Unit
  HasItem reading q = q.tail ≢ q.head
  HasItem (leaving x) q = (q.tail ≢ q.head) × (get_or q.slots q.tail blank ≡ x)

  pub record Inv (s : State A) : Type 0 where
    pub valid : IsValid cap s.queue
    pub room : HasRoom s.producer s.queue
    pub item : HasItem s.consumer s.queue
    pub history : s.sent ≡ s.received ++ contents blank cap s.queue

module _ {A : Type 0} (blank : A) {cap : ℕ} (c : IsCapacity cap) where
  start-Inv : Inv blank cap (start blank cap)
  unfolding start
  start-Inv = ground (arith, fresh-IsValid blank c, c.two_slots)

  -- The slot that the producer writes is not the slot that the consumer reads.
  pub slots_apart :
      {s : State A} → Inv blank cap s → s.consumer ≢ resting → s.queue.tail ≢ s.queue.head
  slots_apart {s} v h = go s.consumer v.item h
    where
      go :
          (k : Consumer A) → HasItem blank cap k s.queue → k ≢ resting → s.queue.tail ≢ s.queue.head
      go resting i h = absurd (h refl)
      go reading i h = i
      go (leaving x) i h = i.0

  contents-store :
      (x : A) (q : SpscQueue A)
      → IsValid cap q
      → contents blank cap (record q { slots = set q.slots q.head x }) ≡ contents blank cap q
  contents-store x q v =
      let n = between cap q.tail q.head in
      let write : List A = set q.slots (place cap q.tail n) x in
      ap (λ k. held blank cap (set q.slots k x) q.tail n) (head_place blank c v)
      ∙ held-set blank cap q.slots q.tail n n x v.tail_in (omega arith) (ground arith)

  contents-publish :
      (q : SpscQueue A)
      → IsValid cap q
      → between cap q.tail q.head < cap - 1
      → contents blank cap (record q { head = next_index cap q.head })
        ≡ contents blank cap q ++ get_or q.slots q.head blank ∷ []
  contents-publish q v h =
      ap (held blank cap q.slots q.tail) (grown q v h)
      ∙ ap (λ k. contents blank cap q ++ get_or q.slots k blank ∷ []) (sym (head_place blank c v))
    where
      grown :
          (q : SpscQueue A)
          → IsValid cap q
          → between cap q.tail q.head < cap - 1
          → between cap q.tail (next_index cap q.head) ≡ suc (between cap q.tail q.head)
      grown q v h = ground (arith, next_index_lem c q.head)

  contents-release :
      (q : SpscQueue A)
      → IsValid cap q
      → q.tail ≢ q.head
      → contents blank cap q
        ≡ get_or q.slots q.tail blank
          ∷ contents blank cap (record q { tail = next_index cap q.tail })
  contents-release q v ne = ground (arith, next_index_lem c q.tail, nonempty_front blank c v ne)

  begin_push-Inv :
      (x : A) {s : State A}
      → s.producer ≡ idle
      → Inv blank cap s
      → Inv blank cap (producer_step blank cap x idle s)
  unfolding producer_step
  begin_push-Inv x {s} e v = ground (arith, next_index_lem c s.queue.head, c.two_slots)

  store_item-Inv :
      (x y : A) {s : State A}
      → s.producer ≡ storing x
      → Inv blank cap s
      → Inv blank cap (producer_step blank cap y (storing x) s)
  unfolding producer_step
  store_item-Inv x y {s} e v = record {
    valid = ground (arith, length-set s.queue.slots s.queue.head x);
    room = ground (arith, get_or-set_self s.queue.slots s.queue.head x blank);
    item = kept s.consumer v.item;
    history = v.history ∙ ap (◌++◌ s.received) (sym (contents-store x s.queue v.valid));
  }
    where
      kept :
          (k : Consumer A)
          → HasItem blank cap k s.queue
          → HasItem blank cap k (record (s.queue) { slots = set s.queue.slots s.queue.head x })
      kept resting i = tt
      kept reading i = i
      kept (leaving y) i = (
        i.0,
        get_or-set_ne s.queue.slots s.queue.head s.queue.tail x blank (λ e. i.0 (sym e)) ∙ i.1,
      )

  publish-Inv :
      (x y : A) {s : State A}
      → s.producer ≡ publishing x
      → Inv blank cap s
      → Inv blank cap (producer_step blank cap y (publishing x) s)
  unfolding producer_step
  publish-Inv x y {s} e v = record {
    valid = ground (arith, next_index_lem c s.queue.head);
    room = tt;
    item = kept s.consumer v.item;
    history =
        let r : HasRoom blank cap (publishing x) s.queue = rw e at v.room in
        ground (
          arith,
          contents-publish s.queue v.valid r.0,
          append_assoc s.received (contents blank cap s.queue) (x ∷ []),
        );
  }
    where
      kept :
          (k : Consumer A)
          → HasItem blank cap k s.queue
          → HasItem blank cap k (record (s.queue) { head = next_index cap s.queue.head })
      kept resting i = tt
      kept reading i = ground (arith, next_index_lem c s.queue.head)
      kept (leaving y) i = ground (arith, next_index_lem c s.queue.head)

  begin_pop-Inv :
      {s : State A}
      → s.consumer ≡ resting
      → Inv blank cap s
      → Inv blank cap (consumer_step blank cap resting s)
  unfolding consumer_step
  begin_pop-Inv {s} e v = ground arith

  read_item-Inv :
      {s : State A}
      → s.consumer ≡ reading
      → Inv blank cap s
      → Inv blank cap (consumer_step blank cap reading s)
  unfolding consumer_step
  read_item-Inv {s} e v = record {
    valid = v.valid;
    room = v.room;
    item = let i : HasItem blank cap reading s.queue = rw e at v.item in (i, refl);
    history = v.history;
  }

  release-Inv :
      (x : A) {s : State A}
      → s.consumer ≡ leaving x
      → Inv blank cap s
      → Inv blank cap (consumer_step blank cap (leaving x) s)
  unfolding consumer_step
  release-Inv x {s} e v =
      let i : HasItem blank cap (leaving x) s.queue = rw e at v.item in
      record {
        valid = ground (arith, next_index_lem c s.queue.tail);
        room = kept i.0 s.producer v.room;
        item = tt;
        history = ground (
          arith,
          contents-release s.queue v.valid i.0,
          append_assoc s.received (x ∷ [])
              (contents blank cap (record (s.queue) { tail = next_index cap s.queue.tail })),
        );
      }
    where
      kept :
          s.queue.tail ≢ s.queue.head
          → (p : Producer A) → HasRoom blank cap p s.queue
          → HasRoom blank cap p (record (s.queue) { tail = next_index cap s.queue.tail })
      kept ne idle r = tt
      kept ne (storing y) r = ground (arith, next_index_lem c s.queue.tail)
      kept ne (publishing y) r = (ground (arith, next_index_lem c s.queue.tail), r.1)

  -- Each access of either thread keeps the invariant.
  pub step-Inv : (m : Move A) {s : State A} → Inv blank cap s → Inv blank cap (step blank cap m s)
  unfolding step
  step-Inv (produce x) {s} v = go s.producer refl
    where
      go : (p : Producer A) → s.producer ≡ p → Inv blank cap (producer_step blank cap x p s)
      go idle e = begin_push-Inv x e v
      go (storing y) e = store_item-Inv y x e v
      go (publishing y) e = publish-Inv y x e v
  step-Inv consume {s} v = go s.consumer refl
    where
      go : (k : Consumer A) → s.consumer ≡ k → Inv blank cap (consumer_step blank cap k s)
      go resting e = begin_pop-Inv e v
      go reading e = read_item-Inv e v
      go (leaving y) e = release-Inv y e v

  interleave-Inv :
      (ms : List (Move A)) {s : State A}
      → Inv blank cap s
      → Inv blank cap (interleave blank cap ms s)
  unfolding interleave
  interleave-Inv [] v = v
  interleave-Inv (m ∷ ms) v = interleave-Inv ms (step-Inv m v)

  -- Under every interleaving of the two threads' accesses, what has been received is what has been
  -- sent, in order and with nothing lost or repeated, but for the items still in the queue.
  pub interleave_history :
      (ms : List (Move A))
      → let s = interleave blank cap ms (start blank cap) in
        s.sent ≡ s.received ++ contents blank cap s.queue
  interleave_history ms = (interleave-Inv ms start-Inv).history

  -- Under every interleaving, while the consumer is past its test for an empty queue, the slot that
  -- it reads is not the slot at `head_`, the only one that the producer writes.
  pub interleave_apart :
      (ms : List (Move A))
      → (interleave blank cap ms (start blank cap)).consumer ≢ resting
      → let q = (interleave blank cap ms (start blank cap)).queue in q.tail ≢ q.head
  interleave_apart ms h = slots_apart (interleave-Inv ms start-Inv) h

module _ {A : Type 0} (blank : A) (cap : ℕ) where
  -- The three moves of a producer that nothing interrupts, on a queue with room, are a call of
  -- `push` that succeeds: the same queue is left, and the item is added to those sent.
  pub solo_push :
      (x : A) (s : State A)
      → s.producer ≡ idle
      → next_index cap s.queue.head ≢ s.queue.tail
      → let t = interleave blank cap (produce x ∷ produce x ∷ produce x ∷ []) s in
        (push blank cap x s.queue ≡ (true, t.queue)) × (t.sent ≡ s.sent ++ x ∷ [])
  unfolding interleave producer_step push
  solo_push x s e room = ground arith

  -- The three moves of a consumer that nothing interrupts, on a queue with an item, are a call of
  -- `pop` that returns the item: the same queue is left, and the item is added to those received.
  pub solo_pop :
      (s : State A)
      → s.consumer ≡ resting
      → s.queue.tail ≢ s.queue.head
      → let t = interleave blank cap (consume ∷ consume ∷ consume ∷ []) s in
        let y = get_or s.queue.slots s.queue.tail blank in
        (pop blank cap s.queue ≡ (some y, t.queue)) × (t.received ≡ s.received ++ y ∷ [])
  unfolding interleave consumer_step pop
  solo_pop s e some_item = ground arith
