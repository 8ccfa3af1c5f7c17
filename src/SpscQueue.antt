-- ===== src/SpscQueue.antt =====
-- include/nomos/rt/spsc_queue.hpp: the single-producer single-consumer ring buffer. `size_t` is 64
-- bits wide; `blank` is the value that the slots start with.
pub mod Capacity
pub mod Fifo
pub mod Refine
pub mod Bursts
pub mod Threads
mod Tests
use nomos_rt.Common.{
  ℕ, ◌+◌, ◌-◌, ◌%◌, ◌^◌, bit_and, Bool, true, false, ◌==◌, if◌then◌else◌, Option, none, some, List,
  [], ◌∷◌, replicate, get_or, set,
}

pub record SpscQueue {ℓ} (A : Type ℓ) : Type ℓ where
  pub head : ℕ
  pub tail : ℕ
  pub slots : List A

abbrev pub size_mod : ℕ
size_mod = 2 ^ 64

module _ (capacity : ℕ) where
  abbrev pub mask : ℕ
  mask = capacity - 1

  -- `(i + 1) & mask_`
  unfoldable pub next_index : ℕ → ℕ
  next_index i = bit_and ((i + 1) % size_mod) mask

module _ {ℓ} {A : Type ℓ} (blank : A) (capacity : ℕ) where
  pub fresh : SpscQueue A
  fresh = record { head = 0; tail = 0; slots = replicate capacity blank }

  unfoldable pub push : A → SpscQueue A → Bool × SpscQueue A
  push item q =
      if next_index capacity q.head == q.tail
      then (false, q)
      else (true, record q { head = next_index capacity q.head; slots = set q.slots q.head item })

  unfoldable pub pop : SpscQueue A → Option A × SpscQueue A
  pop q =
      if q.tail == q.head
      then (none, q)
      else (some (get_or q.slots q.tail blank), record q { tail = next_index capacity q.tail })

  pub is_empty : SpscQueue A → Bool
  is_empty q = q.head == q.tail

  -- `(h - t) & mask_`, the subtraction wrapping.
  pub size : SpscQueue A → ℕ
  size q = bit_and ((q.head + size_mod - q.tail) % size_mod) (mask capacity)

-- A client's calls in order, with what each returns.
pub data Call {ℓ} (A : Type ℓ) : Type ℓ where
  pushes : A → Call A
  pops : Call A

pub data Reply {ℓ} (A : Type ℓ) : Type ℓ where
  pushed : Bool → Reply A
  popped : Option A → Reply A

module _ {ℓ} {A : Type ℓ} (blank : A) (capacity : ℕ) where
  pub run : SpscQueue A → List (Call A) → List (Reply A)
  run q [] = []
  run q (pushes x ∷ cs) = let (b, q') = push blank capacity x q in pushed b ∷ run q' cs
  run q (pops ∷ cs) = let (o, q') = pop blank capacity q in popped o ∷ run q' cs
