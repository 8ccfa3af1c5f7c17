-- ===== src/Rcu/Steps.antt =====
-- The steps that the threads and liburcu can take, in any order.
use nomos_rt.Common.{ℕ, false, Option, some, List, ◌∷◌, ◌++◌, ◌≡◌}
use nomos_rt.Rcu.{
  outside, locked, guarded, resting, retiring, RetireNode, RcuManaged, make_rcu_managed, read_lock,
  load_ptr, read_unlock, exchange, retire, retire_cb,
}

-- What liburcu promises of a callback: it runs after the sections that were open at the call of `call_rcu` have ended.
abbrev pub HasGracePeriod : RetireNode → Type 0
HasGracePeriod node = (i : ℕ) → node.waits_for i ≡ false

-- `Publish` says what the writer may store in which state.
module _ {T : Type 0} (Publish : RcuManaged T → Option T → Type 0) where
  pub data Step (s : RcuManaged T) : RcuManaged T → Type 0 where
    lock : (i : ℕ) → s.readers i ≡ outside → Step s (read_lock i s)
    load : (i : ℕ) → s.readers i ≡ locked → Step s (load_ptr i s)
    unlock : (i : ℕ) (p : Option ℕ) → s.readers i ≡ guarded p → Step s (read_unlock i s)
    swap : (next : Option T) → Publish s next → s.writer ≡ resting → Step s (exchange next s)
    call : (outgoing : ℕ) → s.writer ≡ retiring outgoing → Step s (retire outgoing s)
    run :
        (before : List RetireNode) (node : RetireNode) (after : List RetireNode)
        → s.pending ≡ before ++ node ∷ after
        → HasGracePeriod node
        → Step s (retire_cb before node after s)

  pub data Steps (s : RcuManaged T) : RcuManaged T → Type 0 where
    here : Steps s s
    later : {t u : RcuManaged T} → Steps s t → Step t u → Steps s u

  abbrev pub Reach : Option T → RcuManaged T → Type 0
  Reach initial = Steps (make_rcu_managed initial)

  -- Steps during which the guard `i` stays open on the object `a`.
  pub data While (i a : ℕ) (s : RcuManaged T) : RcuManaged T → Type 0 where
    opened : s.readers i ≡ guarded (some a) → While i a s s
    kept_open :
        {t u : RcuManaged T}
        → While i a s t
        → Step t u
        → u.readers i ≡ guarded (some a)
        → While i a s u
