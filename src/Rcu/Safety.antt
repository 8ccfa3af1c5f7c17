-- ===== src/Rcu/Safety.antt =====
-- What a guard can rely on, and what is deleted.
use nomos_rt.Common.{ℕ, ◌≤◌, true, Option, none, some, List, [], ◌∷◌, ◌≡◌, refl, ◌∙◌, arith}
use nomos_rt.Rcu.{
  guarded, RetireNode, RcuManaged, read_lock, load_ptr, read_unlock, deref, exchange, retire,
  retire_cb,
}
use nomos_rt.Rcu.Steps.{
  Step, lock, load, unlock, swap, call, run, later, Reach, While, opened, kept_open,
}
use nomos_rt.Rcu.Invariant.{
  waiting, nodes_of, exists_of, exists_of-le, owners, IsOwned, Step-IsOwned, Reach-IsOwned,
}

waiting-nodes_of :
    (i a : ℕ) (nodes : List RetireNode) → waiting i a nodes ≡ true → 1 ≤ nodes_of a nodes
waiting-nodes_of i a [] h = cc
waiting-nodes_of i a (x ∷ xs) h = ground (arith, waiting-nodes_of i a xs)

exists_some : {T : Type 0} (o : Option T) → 1 ≤ exists_of o → (v : T) × (o ≡ some v)
exists_some none h = absurd (omega arith)
exists_some (some v) h = (v, refl)

module _ {T : Type 0} where
  kept-exists :
      (i a : ℕ) (s : RcuManaged T)
      → IsOwned s
      → s.readers i ≡ guarded (some a)
      → (v : T) × (s.object a ≡ some v)
  kept-exists i a s v at =
      exists_some (s.object a)
        (ground (arith, v.owned a, v.kept i a at, waiting-nodes_of i a s.pending))

  module _ {Publish : RcuManaged T → Option T → Type 0} where
    Step-object :
        {s t : RcuManaged T} (i a : ℕ)
        → Step Publish s t
        → IsOwned s
        → IsOwned t
        → s.readers i ≡ guarded (some a)
        → t.readers i ≡ guarded (some a)
        → t.object a ≡ s.object a
    unfolding read_lock load_ptr read_unlock exchange retire retire_cb
    Step-object i a (lock j e) v w at at' = refl
    Step-object i a (load j e) v w at at' = refl
    Step-object i a (unlock j p e) v w at at' = refl
    Step-object i a (swap none allowed e) v w at at' = refl
    Step-object {s} i a (swap (some x) allowed e) v w at at' =
        let (y, there) = kept-exists i a s v at in ground (arith, v.fresh a, there)
    Step-object i a (call outgoing e) v w at at' = refl
    Step-object {t} i a (run before node after e grace) v w at at' =
        let (y, there) = kept-exists i a t w at' in ground (arith, there)

    While-object :
        (initial : Option T) (i a : ℕ) {s t : RcuManaged T}
        → Reach Publish initial s
        → While Publish i a s t
        → Reach Publish initial t
          × (s.readers i ≡ guarded (some a))
          × (t.readers i ≡ guarded (some a))
          × (t.object a ≡ s.object a)
    While-object initial i a reach (opened at) = (reach, at, at, refl)
    While-object initial i a reach (kept_open steps step at) =
        let (reach', first, at', same) = While-object initial i a reach steps in
        let v = Reach-IsOwned initial reach' in
        (later reach' step, first, at, Step-object i a step v (Step-IsOwned step v) at' at ∙ same)

    -- While a guard is open on an object, whatever the other guards, the writer and the callbacks do, the object exists and
    -- stays what it was.
    pub guard_stable :
        (initial : Option T) (i a : ℕ) {s t : RcuManaged T}
        → Reach Publish initial s
        → While Publish i a s t
        → (v : T) × (deref a s ≡ some v) × (deref a t ≡ some v)
    unfolding deref
    guard_stable initial i a {s} reach steps =
        let (reach', first, at, same) = While-object initial i a reach steps in
        let (v, there) = kept-exists i a s (Reach-IsOwned initial reach) first in
        (v, there, same ∙ there)

    -- An object exists exactly as long as it has an owner, of which it never has two: the pointer, a call of `store` that
    -- has taken it out, or a node. So each is deleted at most once, and none is lost.
    pub one_owner :
        (initial : Option T) {s : RcuManaged T}
        → Reach Publish initial s
        → (a : ℕ) → (owners a s ≡ exists_of (s.object a)) × (owners a s ≤ 1)
    one_owner initial {s} reach a =
        let e = (Reach-IsOwned initial reach).owned a in
        (e, omega (arith, e, exists_of-le (s.object a)))
