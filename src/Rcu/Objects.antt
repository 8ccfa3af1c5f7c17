-- ===== src/Rcu/Objects.antt =====
-- What all stored objects have in common.
use nomos_rt.Common.{ℕ, ◌==◌, Bool-cases, inl, inr, Option, none, some, ◌≡◌, refl, subst, arith}
use mathlib.Core.Option.{some_inj}
use nomos_rt.Rcu.{
  RcuManaged, update, make_rcu_managed, read_lock, load_ptr, read_unlock, exchange, retire,
  retire_cb, object_at, unsafe_get,
}
use nomos_rt.Rcu.Steps.{Step, lock, load, unlock, swap, call, run, here, later, Reach}

module _ {T : Type 0} (P : T → Type 0) where
  abbrev pub AllObjects : RcuManaged T → Type 0
  AllObjects s = (a : ℕ) (v : T) → s.object a ≡ some v → P v

  pub AllObjects-unsafe_get :
      (s : RcuManaged T) → AllObjects s → (v : T) → unsafe_get s ≡ some v → P v
  AllObjects-unsafe_get s h v e = at s.ptr e
    where
      at : (p : Option ℕ) → object_at p s ≡ some v → P v
      at none e = cc
      at (some a) e = h a v e

  added :
      (object : ℕ → Option T) (b : ℕ) (x : T)
      → ((a : ℕ) (v : T) → object a ≡ some v → P v)
      → P x
      → (a : ℕ) (v : T) → update object b (some x) a ≡ some v
      → P v
  added object b x h new a v e = elim (Bool-cases (b == a)) [
    | inl at ↦ subst P (some_inj.0 (ground (arith, e, at))) new
    | inr other ↦ h a v (ground (arith, e, other))
  ]

  module _ {Publish : RcuManaged T → Option T → Type 0}
      (next : (s : RcuManaged T) → AllObjects s → (v : T) → Publish s (some v) → P v) where
    Step-AllObjects : {s t : RcuManaged T} → Step Publish s t → AllObjects s → AllObjects t
    unfolding read_lock load_ptr read_unlock exchange retire retire_cb
    Step-AllObjects (lock i e) h = h
    Step-AllObjects (load i e) h = h
    Step-AllObjects (unlock i p e) h = h
    Step-AllObjects (swap none allowed e) h = h
    Step-AllObjects {s} (swap (some x) allowed e) h = added s.object s.made x h (next s h x allowed)
    Step-AllObjects (call outgoing e) h = h
    Step-AllObjects (run before node after e grace) h = λ a v there. h a v (ground (arith, there))

    pub Reach-AllObjects :
        (initial : Option T) {s : RcuManaged T}
        → ((v : T) → initial ≡ some v → P v)
        → Reach Publish initial s
        → AllObjects s
    unfolding make_rcu_managed
    Reach-AllObjects none first here = λ a v e. cc
    Reach-AllObjects (some x) first here = added (λ a. none) 0 x (λ a v e. cc) (first x refl)
    Reach-AllObjects initial first (later steps step) =
        Step-AllObjects step (Reach-AllObjects initial first steps)
