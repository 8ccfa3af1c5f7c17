-- ===== src/Rcu/Drain.antt =====
-- The callbacks come to an end.
use nomos_rt.Common.{
  ℕ, ◌==◌, true, Bool-cases, inl, inr, Option, none, some, List, [], ◌∷◌, ◌++◌, map, All, ◌≡◌, refl,
  ap, ◌∙◌, subst, arith,
}
use nomos_rt.Rcu.{
  Reader, outside, locked, guarded, resting, RetireNode, RcuManaged, update, in_section, left_by,
  make_rcu_managed, read_lock, load_ptr, read_unlock, exchange, retire, retire_cb, destroy, deleted,
}
use nomos_rt.Rcu.Steps.{
  HasGracePeriod, Step, lock, load, unlock, swap, call, run, Steps, here, later, Reach,
}
use nomos_rt.Rcu.Invariant.{points_at, as_number, exists_of, IsOwned, Steps-IsOwned, Reach-IsOwned}

-- A node waits only for guards that are in their sections.
abbrev Waits : (ℕ → Reader) → RetireNode → Type 0
Waits readers node = (i : ℕ) → node.waits_for i ≡ true → in_section (readers i) ≡ true

Waits-entered :
    (i : ℕ) (r : Reader) (readers : ℕ → Reader) (nodes : List RetireNode)
    → in_section r ≡ true
    → All (Waits readers) nodes
    → All (Waits (update readers i r)) nodes
Waits-entered i r readers [] e v = tt
Waits-entered i r readers (x ∷ xs) e (v, vs) =
    (λ j w. ground (arith, e, v j w), Waits-entered i r readers xs e vs)

Waits-left :
    (i : ℕ) (readers : ℕ → Reader) (nodes : List RetireNode)
    → All (Waits readers) nodes
    → All (Waits (update readers i outside)) (map (left_by i) nodes)
Waits-left i readers [] v = tt
Waits-left i readers (x ∷ xs) (v, vs) = (λ j w. ground (arith, v j, w), Waits-left i readers xs vs)

Waits-without :
    (readers : ℕ → Reader) (before : List RetireNode) (node : RetireNode) (after : List RetireNode)
    → All (Waits readers) (before ++ node ∷ after)
    → All (Waits readers) (before ++ after)
Waits-without readers [] node after (v, vs) = vs
Waits-without readers (x ∷ xs) node after (v, vs) = (v, Waits-without readers xs node after vs)

grace_of_quiet :
    (readers : ℕ → Reader) (nodes : List RetireNode)
    → ((i : ℕ) → readers i ≡ outside)
    → All (Waits readers) nodes
    → All HasGracePeriod nodes
grace_of_quiet readers [] quiet v = tt
grace_of_quiet readers (x ∷ xs) quiet (v, vs) =
    (λ i. ground (arith, v i, quiet i), grace_of_quiet readers xs quiet vs)

exists_none : {T : Type 0} (o : Option T) → exists_of o ≡ 0 → o ≡ none
exists_none none h = refl
exists_none (some v) h = absurd (omega (arith, h))

module _ {T : Type 0} where
  sole_owner :
      (a : ℕ) (t : RcuManaged T)
      → IsOwned t
      → t.pending ≡ []
      → t.writer ≡ resting
      → exists_of (t.object a) ≡ as_number (points_at a t.ptr)
  sole_owner a t v empty rests = ground (arith, v.owned a, empty, rests)

  destroyed :
      (a : ℕ) (t : RcuManaged T)
      → ((b : ℕ) → exists_of (t.object b) ≡ as_number (points_at b t.ptr))
      → (destroy t).object a ≡ none
  unfolding destroy
  destroyed a t one = deleted_lem t.ptr (one a)
    where
      deleted_lem :
          (p : Option ℕ)
          → exists_of (t.object a) ≡ as_number (points_at a p)
          → deleted p t.object a ≡ none
      deleted_lem none e = exists_none (t.object a) e
      deleted_lem (some b) e = elim (Bool-cases (b == a)) [
        | inl at ↦ rw at refl
        | inr other ↦ rw other (exists_none (t.object a) (ground (arith, e, other)))
      ]

  module _ {Publish : RcuManaged T → Option T → Type 0} where
    Step-Waits :
        {s t : RcuManaged T}
        → Step Publish s t
        → All (Waits s.readers) s.pending
        → All (Waits t.readers) t.pending
    unfolding read_lock load_ptr read_unlock exchange retire retire_cb
    Step-Waits {s} (lock i e) v = Waits-entered i locked s.readers s.pending refl v
    Step-Waits {s} (load i e) v = Waits-entered i (guarded s.ptr) s.readers s.pending refl v
    Step-Waits {s} (unlock i p e) v = Waits-left i s.readers s.pending v
    Step-Waits (swap none allowed e) v = v
    Step-Waits (swap (some x) allowed e) v = v
    Step-Waits (call outgoing e) v = (λ i w. w, v)
    Step-Waits {s} (run before node after e grace) v =
        Waits-without s.readers before node after (subst (All (Waits s.readers)) e v)

    Steps-Waits :
        {s t : RcuManaged T}
        → Steps Publish s t
        → All (Waits s.readers) s.pending
        → All (Waits t.readers) t.pending
    Steps-Waits here v = v
    Steps-Waits (later steps step) v = Step-Waits step (Steps-Waits steps v)

    Reach-Waits :
        (initial : Option T) {s : RcuManaged T}
        → Reach Publish initial s
        → All (Waits s.readers) s.pending
    unfolding make_rcu_managed
    Reach-Waits none steps = Steps-Waits steps tt
    Reach-Waits (some v) steps = Steps-Waits steps tt

    run_each :
        (nodes : List RetireNode) (s t : RcuManaged T)
        → Steps Publish s t
        → t.pending ≡ nodes
        → All HasGracePeriod nodes
        → (u : RcuManaged T) × Steps Publish s u
          × (u.pending ≡ [])
          × (u.ptr ≡ t.ptr)
          × (u.writer ≡ t.writer)
    unfolding retire_cb
    run_each [] s t steps e grace = (t, steps, e, refl, refl)
    run_each (x ∷ xs) s t steps e (g, gs) =
        run_each xs s (retire_cb [] x xs t) (later steps (run [] x xs e g)) refl gs

    -- With all guards closed and no call of `store` under way, the callbacks that are left can run one after the other; then
    -- no object exists but the one that the pointer had and still has, and after the destructor none.
    pub nothing_lost :
        (initial : Option T) {s : RcuManaged T}
        → Reach Publish initial s
        → ((i : ℕ) → s.readers i ≡ outside)
        → s.writer ≡ resting
        → (t : RcuManaged T) × Steps Publish s t
          × (t.pending ≡ [])
          × (t.ptr ≡ s.ptr)
          × ((a : ℕ) → exists_of (t.object a) ≡ as_number (points_at a s.ptr))
          × ((a : ℕ) → (destroy t).object a ≡ none)
    nothing_lost initial {s} reach quiet rests =
        let grace = grace_of_quiet s.readers s.pending quiet (Reach-Waits initial reach) in
        let (t, steps, empty, same, idle) = run_each s.pending s s here refl grace in
        let v = Steps-IsOwned steps (Reach-IsOwned initial reach) in
        let one : (a : ℕ) → exists_of (t.object a) ≡ as_number (points_at a t.ptr) =
          λ a. sole_owner a t v empty (idle ∙ rests) in
        (
          t,
          steps,
          empty,
          same,
          λ a. one a ∙ ap (λ p. as_number (points_at a p)) same,
          λ a. destroyed a t one,
        )
