-- ===== src/SpscQueue/Threads.antt =====
-- `push` and `pop` as two threads run them: each step is one access of the shared fields, and a
-- schedule says whose step comes next. The producer alone writes `head_` and the consumer alone
-- `tail_`, so each thread's copy of its own index is the field. The acquire and release orders make
-- the accesses of the two indices take effect in the order written.
pub mod Invariant
use nomos_rt.Common.{
  ℕ, zero, suc, ◌+◌, ◌-◌, ◌≤◌, ◌<◌, Bool, true, false, ◌==◌, ltb, leb, if◌then◌else◌, List, [], ◌∷◌,
  ◌++◌, get_or, set, length-set, get_or-set_self, get_or-set_ne, ◌≡◌, ◌≢◌, refl, ap, sym, ◌∙◌,
  arith, append_assoc,
}
use nomos_rt.SpscQueue.{SpscQueue, next_index, fresh, push, pop}
use nomos_rt.SpscQueue.Capacity.{IsCapacity, next_index_lem}
use nomos_rt.SpscQueue.Refine.{
  IsValid, contents, held, held-set, held_front_ne, place, between, fresh-IsValid, head_place,
  nonempty_front,
}

-- Where a call of `push` stands: before its test, before its write of the slot, before its store of
-- `head_`.
pub data Producer (A : Type 0) : Type 0 where
  idle : Producer A
  storing : A → Producer A
  publishing : A → Producer A

-- Where a call of `pop` stands: before its test, before its read of the slot, before its store of
-- `tail_`.
pub data Consumer (A : Type 0) : Type 0 where
  resting : Consumer A
  reading : Consumer A
  leaving : A → Consumer A

-- `sent` and `received` list the items of the calls that have succeeded, in order.
pub record State (A : Type 0) : Type 0 where
  pub queue : SpscQueue A
  pub producer : Producer A
  pub consumer : Consumer A
  pub sent : List A
  pub received : List A

-- The thread that moves next; a producer that starts a call takes the item with it.
pub data Move (A : Type 0) : Type 0 where
  produce : A → Move A
  consume : Move A

module _ {A : Type 0} (blank : A) (cap : ℕ) where
  pub producer_step : A → Producer A → State A → State A
  producer_step item idle s =
      if next_index cap s.queue.head == s.queue.tail
      then s
      else record s { producer = storing item }
  producer_step item (storing x) s = record s {
    queue = record (s.queue) { slots = set s.queue.slots s.queue.head x };
    producer = publishing x;
  }
  producer_step item (publishing x) s = record s {
    queue = record (s.queue) { head = next_index cap s.queue.head };
    producer = idle;
    sent = s.sent ++ x ∷ [];
  }

  pub consumer_step : Consumer A → State A → State A
  consumer_step resting s =
      if s.queue.tail == s.queue.head then s else record s { consumer = reading }
  consumer_step reading s = record s {
    consumer = leaving (get_or s.queue.slots s.queue.tail blank);
  }
  consumer_step (leaving x) s = record s {
    queue = record (s.queue) { tail = next_index cap s.queue.tail };
    consumer = resting;
    received = s.received ++ x ∷ [];
  }

  pub step : Move A → State A → State A
  unfolding producer_step consumer_step
  step (produce x) s = producer_step x s.producer s
  step consume s = consumer_step s.consumer s

  unfoldable pub interleave : List (Move A) → State A → State A
  unfolding step
  interleave [] s = s
  interleave (m ∷ ms) s = interleave ms (step m s)

  unfoldable pub start : State A
  unfolding fresh
  start = record {
    queue = fresh blank cap;
    producer = idle;
    consumer = resting;
    sent = [];
    received = [];
  }
