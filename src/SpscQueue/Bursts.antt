-- ===== src/SpscQueue/Bursts.antt =====
-- Several pushes or pops in a row, as the clients of the queue make them.
use nomos_rt.Common.{
  ℕ, ◌-◌, ◌≤◌, ◌==◌, ==_iff, List, [], ◌∷◌, ◌++◌, length, take, take-length, take-all, append_assoc,
  append-nil, Bool-cases, inl, inr, ◌≡◌, ap, sym, ◌∙◌, arith,
}
use nomos_rt.SpscQueue.{SpscQueue, push}
use nomos_rt.SpscQueue.Capacity.{IsCapacity}
use nomos_rt.SpscQueue.Fifo
use nomos_rt.SpscQueue.Refine.{between, length-held, IsValid, contents, push-IsValid, push_refines}

-- A push into a queue of at most `limit` items, seen with what will be pushed after it.
pub push-take :
    {A : Type 0} (limit : ℕ) (x : A) (xs ys : List A)
    → length xs ≤ limit
    → take limit ((Fifo.push limit x xs).1 ++ ys) ≡ take limit (xs ++ x ∷ ys)
unfolding Fifo.push
push-take limit x xs ys h = elim (Bool-cases (length xs == limit)) [
  | inl full ↦ rw full (
      ap (λ n. take n (xs ++ ys)) (sym ((==_iff (length xs) limit).0 full))
      ∙ take-length xs ys
      ∙ sym (take-length xs (x ∷ ys))
      ∙ ap (λ n. take n (xs ++ x ∷ ys)) ((==_iff (length xs) limit).0 full))
  | inr room ↦ rw room (ap (take limit) (append_assoc xs (x ∷ []) ys))
]

pub contents_limit :
    {A : Type 0} (blank : A) {cap : ℕ} (c : IsCapacity cap) {q : SpscQueue A}
    → IsValid cap q
    → length (contents blank cap q) ≤ cap - 1
contents_limit blank {cap} c {q} v =
    ground (arith, length-held blank cap q.slots q.tail (between cap q.tail q.head))

module _ {A : Type 0} (blank : A) (cap : ℕ) where
  -- The queue after a push of each item, whatever the pushes return.
  abbrev pub push_all : List A → SpscQueue A → SpscQueue A
  push_all [] q = q
  push_all (x ∷ xs) q = push_all xs (push blank cap x q).1

  -- The items that there is room for are taken, in order, and the others are lost.
  pub push_all-contents :
      (c : IsCapacity cap) (xs : List A) (q : SpscQueue A)
      → IsValid cap q
      → IsValid cap (push_all xs q)
        × (contents blank cap (push_all xs q) ≡ take (cap - 1) (contents blank cap q ++ xs))
  push_all-contents c [] q v = (
    v,
    sym (take-all (cap - 1) (contents blank cap q) (contents_limit blank c v))
        ∙ ap (take (cap - 1)) (sym (append-nil (contents blank cap q))),
  )
  push_all-contents c (x ∷ xs) q v =
      let r = push_all-contents c xs _ (push-IsValid blank c x v) in
      (
        r.0,
        r.1
            ∙ ap (λ ys. take (cap - 1) (ys ++ xs)) (ap (λ p. p.1) (push_refines blank c x v))
            ∙ push-take (cap - 1) x _ xs (contents_limit blank c v),
      )
