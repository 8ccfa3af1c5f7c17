-- ===== src/Rcu/Invariant.antt =====
-- Each object that exists has one owner, and an open guard keeps its object.
use nomos_rt.Common.{
  ℕ, ◌+◌, ◌≤◌, ◌==◌, Bool, true, false, ◌&&◌, ◌||◌, if◌then◌else◌, Option, none, some, List, [],
  ◌∷◌, ◌++◌, map, ◌≡◌, refl, ap, arith,
}
use nomos_rt.Rcu.{
  guarded, Writer, resting, retiring, RetireNode, RcuManaged, update, left_by, make_rcu_managed,
  read_lock, load_ptr, read_unlock, after_exchange, exchange, retire, retire_cb,
}
use nomos_rt.Rcu.Steps.{
  HasGracePeriod, Step, lock, load, unlock, swap, call, run, Steps, here, later, Reach,
}

abbrev pub points_at : ℕ → Option ℕ → Bool
points_at a none = false
points_at a (some b) = b == a

abbrev pub retires : ℕ → Writer → Bool
retires a resting = false
retires a (retiring b) = b == a

abbrev pub as_number : Bool → ℕ
as_number b = if b then 1 else 0

-- How many nodes will delete the object, and whether one of them waits for the guard.
abbrev pub nodes_of : ℕ → List RetireNode → ℕ
nodes_of a [] = 0
nodes_of a (node ∷ nodes) = as_number (node.ptr == a) + nodes_of a nodes

abbrev pub waiting : ℕ → ℕ → List RetireNode → Bool
waiting i a [] = false
waiting i a (node ∷ nodes) = (node.ptr == a && node.waits_for i) || waiting i a nodes

abbrev pub exists_of : {T : Type 0} → Option T → ℕ
exists_of none = 0
exists_of (some v) = 1

nodes_of-append :
    (a : ℕ) (xs ys : List RetireNode) → nodes_of a (xs ++ ys) ≡ nodes_of a xs + nodes_of a ys
nodes_of-append a [] ys = omega arith
nodes_of-append a (x ∷ xs) ys = omega (arith, nodes_of-append a xs ys)

nodes_of-left_by :
    (i a : ℕ) (xs : List RetireNode) → nodes_of a (map (left_by i) xs) ≡ nodes_of a xs
nodes_of-left_by i a [] = refl
nodes_of-left_by i a (x ∷ xs) = ap (λ n. as_number (x.ptr == a) + n) (nodes_of-left_by i a xs)

waiting-left_by :
    (i j a : ℕ) (xs : List RetireNode)
    → (i == j) ≡ false
    → waiting j a (map (left_by i) xs) ≡ waiting j a xs
waiting-left_by i j a [] ne = refl
waiting-left_by i j a (x ∷ xs) ne = ground (arith, waiting-left_by i j a xs ne)

-- A node whose callback may run keeps no guard waiting.
waiting-grace :
    (j a : ℕ) (before : List RetireNode) (node : RetireNode) (after : List RetireNode)
    → HasGracePeriod node
    → waiting j a (before ++ node ∷ after) ≡ waiting j a (before ++ after)
waiting-grace j a [] node after grace = ground (arith, grace j)
waiting-grace j a (x ∷ xs) node after grace =
    ap (λ b. (x.ptr == a && x.waits_for j) || b) (waiting-grace j a xs node after grace)

retires-after : (a : ℕ) (p : Option ℕ) → retires a (after_exchange p) ≡ points_at a p
unfolding after_exchange
retires-after a none = refl
retires-after a (some b) = refl

-- What stays of the nodes when one of them goes.
nodes_without :
    (a : ℕ) (before : List RetireNode) (node : RetireNode) (after nodes : List RetireNode)
    → nodes ≡ before ++ node ∷ after
    → nodes_of a nodes ≡ as_number (node.ptr == a) + nodes_of a (before ++ after)
nodes_without a before node after nodes e = omega (
  arith,
  ap (nodes_of a) e,
  nodes_of-append a before (node ∷ after),
  nodes_of-append a before after,
)

pub exists_of-le : {T : Type 0} (o : Option T) → exists_of o ≤ 1
exists_of-le none = omega arith
exists_of-le (some v) = omega arith

module _ {T : Type 0} where
  -- The owners of an object: the pointer, a call of `store`, and the nodes.
  abbrev pub owners : ℕ → RcuManaged T → ℕ
  owners a s = as_number (points_at a s.ptr) + as_number (retires a s.writer) + nodes_of a s.pending

  abbrev pub keeps : ℕ → ℕ → RcuManaged T → Bool
  keeps i a s = points_at a s.ptr || retires a s.writer || waiting i a s.pending

  pub record IsOwned (s : RcuManaged T) : Type 0 where
    pub fresh : (a : ℕ) → s.made ≤ a → s.object a ≡ none
    pub owned : (a : ℕ) → owners a s ≡ exists_of (s.object a)
    pub kept : (i a : ℕ) → s.readers i ≡ guarded (some a) → keeps i a s ≡ true

  lock-IsOwned : (i : ℕ) (s : RcuManaged T) → IsOwned s → IsOwned (read_lock i s)
  unfolding read_lock
  lock-IsOwned i s v = record {
    fresh = v.fresh;
    owned = v.owned;
    kept = λ j a opened. ground (arith, v.kept j a);
  }

  load_kept :
      (i j a : ℕ) (s : RcuManaged T)
      → (s.readers j ≡ guarded (some a) → keeps j a s ≡ true)
      → update s.readers i (guarded s.ptr) j ≡ guarded (some a)
      → keeps j a s ≡ true
  load_kept i j a s old opened = ground arith

  load-IsOwned : (i : ℕ) (s : RcuManaged T) → IsOwned s → IsOwned (load_ptr i s)
  unfolding load_ptr
  load-IsOwned i s v = record {
    fresh = v.fresh;
    owned = v.owned;
    kept = λ j a opened. load_kept i j a s (v.kept j a) opened;
  }

  retire-IsOwned :
      (outgoing : ℕ) (s : RcuManaged T)
      → s.writer ≡ retiring outgoing
      → IsOwned s
      → IsOwned (retire outgoing s)
  unfolding retire
  retire-IsOwned outgoing s held v = record {
    fresh = v.fresh;
    owned = λ a. ground (arith, v.owned a, held);
    kept = λ j a opened. ground (arith, v.kept j a opened, held, opened);
  }

  unlock-IsOwned : (i : ℕ) (s : RcuManaged T) → IsOwned s → IsOwned (read_unlock i s)
  unfolding read_unlock
  unlock-IsOwned i s v = record {
    fresh = v.fresh;
    owned = λ a. omega (arith, v.owned a, nodes_of-left_by i a s.pending);
    kept = λ j a opened. ground (arith, v.kept j a, waiting-left_by i j a s.pending, opened);
  }

  run-IsOwned :
      (before : List RetireNode) (node : RetireNode) (after : List RetireNode) (s : RcuManaged T)
      → s.pending ≡ before ++ node ∷ after
      → HasGracePeriod node
      → IsOwned s
      → IsOwned (retire_cb before node after s)
  unfolding retire_cb
  run-IsOwned before node after s e grace v = record {
    fresh = λ a h. ground (arith, v.fresh a h);
    owned = λ a. ground (
      arith,
      v.owned a,
      exists_of-le (s.object a),
      nodes_without a before node after s.pending e,
    );
    kept = λ j a opened.
        ground
          (arith, v.kept j a opened, ap (waiting j a) e, waiting-grace j a before node after grace);
  }

  swap-IsOwned :
      (next : Option T) (s : RcuManaged T)
      → s.writer ≡ resting
      → IsOwned s
      → IsOwned (exchange next s)
  unfolding exchange
  swap-IsOwned none s rests v = record {
    fresh = v.fresh;
    owned = λ a. ground (arith, v.owned a, rests, retires-after a s.ptr);
    kept = λ j a opened. ground (arith, v.kept j a opened, rests, retires-after a s.ptr);
  }
  swap-IsOwned (some x) s rests v = record {
    fresh = λ a h. ground (arith, v.fresh a);
    owned = λ a. ground (arith, v.owned a, v.fresh a, rests, retires-after a s.ptr);
    kept = λ j a opened. ground (arith, v.kept j a opened, rests, retires-after a s.ptr);
  }

  make_rcu_managed-IsOwned : (initial : Option T) → IsOwned (make_rcu_managed initial)
  unfolding make_rcu_managed
  make_rcu_managed-IsOwned none = record {
    fresh = λ a h. refl;
    owned = λ a. refl;
    kept = λ i a opened. cc;
  }
  make_rcu_managed-IsOwned (some v) = record {
    fresh = λ a h. ground (arith, h);
    owned = λ a. ground arith;
    kept = λ i a opened. cc;
  }

  module _ {Publish : RcuManaged T → Option T → Type 0} where
    pub Step-IsOwned : {s t : RcuManaged T} → Step Publish s t → IsOwned s → IsOwned t
    Step-IsOwned {s} (lock i e) v = lock-IsOwned i s v
    Step-IsOwned {s} (load i e) v = load-IsOwned i s v
    Step-IsOwned {s} (unlock i p e) v = unlock-IsOwned i s v
    Step-IsOwned {s} (swap next allowed e) v = swap-IsOwned next s e v
    Step-IsOwned {s} (call outgoing e) v = retire-IsOwned outgoing s e v
    Step-IsOwned {s} (run before node after e grace) v = run-IsOwned before node after s e grace v

    pub Steps-IsOwned : {s t : RcuManaged T} → Steps Publish s t → IsOwned s → IsOwned t
    Steps-IsOwned here v = v
    Steps-IsOwned (later steps step) v = Step-IsOwned step (Steps-IsOwned steps v)

    pub Reach-IsOwned :
        (initial : Option T) {s : RcuManaged T} → Reach Publish initial s → IsOwned s
    Reach-IsOwned initial steps = Steps-IsOwned steps (make_rcu_managed-IsOwned initial)
