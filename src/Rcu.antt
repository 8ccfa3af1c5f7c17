-- ===== src/Rcu.antt =====
-- include/nomos/rt/rcu.hpp: `rcu_managed`, the pointer that one thread replaces while others read. An object is the
-- number of its allocation. Each operation is cut into its accesses of what is shared; liburcu is not in the repository,
-- and of it a retired node keeps the guards that were open at the call of `call_rcu`. The acquire and release orders make
-- the accesses take effect in the order written.
pub mod Steps
pub mod Invariant
pub mod Safety
pub mod Drain
pub mod Objects
mod Tests
use nomos_rt.Common.{
  ℕ, zero, suc, ◌==◌, Bool, true, false, if◌then◌else◌, Option, none, some, List, [], ◌∷◌, ◌++◌,
  map,
}

-- A `reader_guard`: not there, between `read_lock` and the load of the pointer, and open.
pub data Reader : Type 0 where
  outside : Reader
  locked : Reader
  guarded : Option ℕ → Reader

-- A call of `store`: between the exchange and `call_rcu` it holds the outgoing pointer.
pub data Writer : Type 0 where
  resting : Writer
  retiring : ℕ → Writer

-- A `retire_node` that `call_rcu` has been given, and the guards that it has to wait for.
pub record RetireNode : Type 0 where
  pub ptr : ℕ
  pub waits_for : ℕ → Bool

-- The pointer, the number of objects made so far, the objects that exist, the guards by their numbers, the writer, and the
-- nodes whose callbacks have not run.
pub record RcuManaged (T : Type 0) : Type 0 where
  pub ptr : Option ℕ
  pub made : ℕ
  pub object : ℕ → Option T
  pub readers : ℕ → Reader
  pub writer : Writer
  pub pending : List RetireNode

abbrev pub update : {A : Type 0} → (ℕ → A) → ℕ → A → ℕ → A
update f i a j = if i == j then a else f j

abbrev pub in_section : Reader → Bool
in_section outside = false
in_section locked = true
in_section (guarded p) = true

abbrev pub left_by : ℕ → RetireNode → RetireNode
left_by i node = record node { waits_for = update node.waits_for i false }

-- After the exchange there is nothing to do if the outgoing pointer is null.
unfoldable pub after_exchange : Option ℕ → Writer
after_exchange none = resting
after_exchange (some outgoing) = retiring outgoing

module _ {T : Type 0} where
  -- The constructor takes an object, or none.
  unfoldable pub make_rcu_managed : Option T → RcuManaged T
  make_rcu_managed none = record {
    ptr = none;
    made = 0;
    object = λ a. none;
    readers = λ i. outside;
    writer = resting;
    pending = [];
  }
  make_rcu_managed (some v) = record {
    ptr = some 0;
    made = 1;
    object = update (λ a. none) 0 (some v);
    readers = λ i. outside;
    writer = resting;
    pending = [];
  }

  -- The constructor of a guard, and its destructor.
  unfoldable pub read_lock : ℕ → RcuManaged T → RcuManaged T
  read_lock i s = record s { readers = update s.readers i locked }

  unfoldable pub load_ptr : ℕ → RcuManaged T → RcuManaged T
  load_ptr i s = record s { readers = update s.readers i (guarded s.ptr) }

  unfoldable pub read_unlock : ℕ → RcuManaged T → RcuManaged T
  read_unlock i s = record s {
    readers = update s.readers i outside;
    pending = map (left_by i) s.pending;
  }

  -- What a guard points at, as an object.
  unfoldable pub deref : ℕ → RcuManaged T → Option T
  deref a s = s.object a

  -- `unsafe_get`, with the object behind it.
  abbrev pub object_at : Option ℕ → RcuManaged T → Option T
  object_at none s = none
  object_at (some a) s = s.object a

  abbrev pub unsafe_get : RcuManaged T → Option T
  unsafe_get s = object_at s.ptr s

  -- `store`: the exchange, and then `call_rcu`.
  unfoldable pub exchange : Option T → RcuManaged T → RcuManaged T
  unfolding after_exchange
  exchange none s = record s { ptr = none; writer = after_exchange s.ptr }
  exchange (some v) s = record s {
    ptr = some s.made;
    made = suc s.made;
    object = update s.object s.made (some v);
    writer = after_exchange s.ptr;
  }

  unfoldable pub retire : ℕ → RcuManaged T → RcuManaged T
  retire outgoing s = record s {
    writer = resting;
    pending = record { ptr = outgoing; waits_for = λ i. in_section (s.readers i) } ∷ s.pending;
  }

  -- The callback of a node between two lists of others.
  unfoldable pub retire_cb :
      List RetireNode → RetireNode → List RetireNode → RcuManaged T → RcuManaged T
  retire_cb before node after s = record s {
    object = update s.object node.ptr none;
    pending = before ++ after;
  }

  -- The destructor: `synchronize` waits for the guards, and then the object is deleted.
  abbrev pub deleted : Option ℕ → (ℕ → Option T) → ℕ → Option T
  deleted none object = object
  deleted (some a) object = update object a none

  unfoldable pub destroy : RcuManaged T → RcuManaged T
  destroy s = record s { ptr = none; object = deleted s.ptr s.object }
