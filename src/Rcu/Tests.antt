-- ===== src/Rcu/Tests.antt =====
-- A guard that is open while the object behind it is replaced.
use nomos_rt.Common.{ℕ, Option, none, some, [], ◌≡◌, refl, arith}
use nomos_rt.Rcu.{
  outside, RcuManaged, make_rcu_managed, read_lock, load_ptr, read_unlock, deref, exchange,
  after_exchange, retire, destroy,
}
use nomos_rt.Rcu.Steps.{
  lock, load, unlock, swap, call, Steps, here, later, Reach, While, opened, kept_open,
}
use nomos_rt.Rcu.Invariant.{as_number, points_at, exists_of}
use nomos_rt.Rcu.Safety.{guard_stable}
use nomos_rt.Rcu.Drain.{nothing_lost}

abbrev Anything : RcuManaged ℕ → Option ℕ → Type 0
Anything s next = Unit

abbrev guard_open : RcuManaged ℕ
guard_open = load_ptr 3 (read_lock 3 (make_rcu_managed (some 7)))

abbrev replaced : RcuManaged ℕ
replaced = retire 0 (exchange (some 8) guard_open)

abbrev guard_closed : RcuManaged ℕ
guard_closed = read_unlock 3 replaced

guard_open-Reach : Reach Anything (some 7) guard_open
unfolding make_rcu_managed read_lock
guard_open-Reach = later (later here (lock 3 refl)) (load 3 refl)

replaced-While : While Anything 3 0 guard_open replaced
unfolding make_rcu_managed read_lock load_ptr exchange after_exchange retire
replaced-While = kept_open (kept_open (opened refl) (swap (some 8) tt refl) refl) (call 0 refl) refl

replaced-Reach : Reach Anything (some 7) replaced
unfolding make_rcu_managed read_lock load_ptr exchange after_exchange
replaced-Reach = later (later guard_open-Reach (swap (some 8) tt refl)) (call 0 refl)

guard_closed-Reach : Reach Anything (some 7) guard_closed
unfolding make_rcu_managed read_lock load_ptr exchange after_exchange retire
guard_closed-Reach = later replaced-Reach (unlock 3 (some 0) refl)

closed_everywhere : (i : ℕ) → guard_closed.readers i ≡ outside
unfolding make_rcu_managed read_lock load_ptr exchange after_exchange retire read_unlock
closed_everywhere i = ground arith

guard_stable_example : (v : ℕ) × (deref 0 guard_open ≡ some v) × (deref 0 replaced ≡ some v)
guard_stable_example = guard_stable (some 7) 3 0 guard_open-Reach replaced-While

nothing_lost_example :
    (t : RcuManaged ℕ) × Steps Anything guard_closed t
    × (t.pending ≡ [])
    × (t.ptr ≡ guard_closed.ptr)
    × ((a : ℕ) → exists_of (t.object a) ≡ as_number (points_at a guard_closed.ptr))
    × ((a : ℕ) → (destroy t).object a ≡ none)
unfolding make_rcu_managed read_lock load_ptr exchange after_exchange retire read_unlock
nothing_lost_example = nothing_lost (some 7) guard_closed-Reach closed_everywhere refl
