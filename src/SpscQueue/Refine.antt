-- ===== src/SpscQueue/Refine.antt =====
-- A valid ring buffer behaves as the bounded queue of the items that it holds.
use nomos_rt.Common.{
  ℕ, zero, suc, ◌+◌, ◌-◌, ◌%◌, ◌≤◌, ◌<◌, ◌==◌, ltb, leb, if◌then◌else◌, List, [], ◌∷◌, ◌++◌, length,
  length-append, get_or, set, length-set, length-replicate, get_or-set_self, get_or-set_ne, ◌≡◌,
  ◌≢◌, refl, ap, ap₂, sym, ◌∙◌, arith,
}
use native.Mathlib.Decide.{ℕ_discrete}
use nomos_rt.SpscQueue.{
  SpscQueue, size_mod, fresh, push, pop, is_empty, size, run, Call, pushes, pops,
}
use nomos_rt.SpscQueue.Fifo
use nomos_rt.SpscQueue.Capacity.{IsCapacity, next_index_lem, and_mask, difference_mod}

-- The slot `n` places on from `t`, and how many places lie between two slots.
abbrev pub place : ℕ → ℕ → ℕ → ℕ
place cap t n = if ltb (t + n) cap then t + n else t + n - cap

abbrev pub between : ℕ → ℕ → ℕ → ℕ
between cap t h = if leb t h then h - t else h + cap - t

suc_minus_one : (n : ℕ) → n ≡ suc n - 1
suc_minus_one n = omega arith

-- Both indices name a slot.
pub record IsValid {ℓ} {A : Type ℓ} (cap : ℕ) (q : SpscQueue A) : Type 0 where
  pub storage : length q.slots ≡ cap
  pub head_in : q.head < cap
  pub tail_in : q.tail < cap

module _ {A : Type 0} (blank : A) (cap : ℕ) where
  -- The `n` items from slot `t` on.
  abbrev pub held : List A → ℕ → ℕ → List A
  held slots t zero = []
  held slots t (suc n) = held slots t n ++ get_or slots (place cap t n) blank ∷ []

  abbrev pub contents : SpscQueue A → List A
  contents q = held q.slots q.tail (between cap q.tail q.head)

  pub length-held : (slots : List A) (t n : ℕ) → length (held slots t n) ≡ n
  length-held slots t zero = refl
  length-held slots t (suc n) = omega (
    arith,
    length-append (held slots t n) (get_or slots (place cap t n) blank ∷ []),
    length-held slots t n,
  )

  place-suc : (t n : ℕ) → t < cap → n < cap → place cap (place cap t 1) n ≡ place cap t (suc n)
  place-suc t n ht hn = ground arith

  -- The oldest item comes off the front.
  pub held_front :
      (slots : List A) (t n : ℕ)
      → t < cap
      → n < cap
      → held slots t (suc n) ≡ get_or slots t blank ∷ held slots (place cap t 1) n
  held_front slots t zero ht hn = ap (λ k. get_or slots k blank ∷ []) (ground arith)
  held_front slots t (suc n) ht hn =
      ap₂ (λ xs k. xs ++ get_or slots k blank ∷ []) (held_front slots t n ht (omega arith))
        (sym (place-suc t n ht (omega arith)))

  pub held_front_ne :
      (slots : List A) (t n : ℕ)
      → t < cap
      → n ≤ cap
      → n ≢ 0
      → held slots t n ≡ get_or slots t blank ∷ held slots (place cap t 1) (n - 1)
  held_front_ne slots t zero ht hn ne = absurd (ne refl)
  held_front_ne slots t (suc n) ht hn ne =
      held_front slots t n ht hn
      ∙ ap (λ k. get_or slots t blank ∷ held slots (place cap t 1) k) (suc_minus_one n)

  place_ne : (t m n : ℕ) → t < cap → m < n → n < cap → place cap t n ≢ place cap t m
  place_ne t m n ht hm hn = ground arith

  -- A write past the items leaves them alone.
  pub held-set :
      (slots : List A) (t m n : ℕ) (x : A)
      → t < cap
      → m ≤ n
      → n < cap
      → held (set slots (place cap t n) x) t m ≡ held slots t m
  held-set slots t zero n x ht hm hn = refl
  held-set slots t (suc m) n x ht hm hn =
      ap₂ (λ xs y. xs ++ y ∷ []) (held-set slots t m n x ht (omega arith) hn)
        (get_or-set_ne slots (place cap t n) (place cap t m) x blank (place_ne t m n ht hm hn))

  -- A write at the end of the items adds one.
  pub held-set_end :
      (slots : List A) (t n : ℕ) (x : A)
      → length slots ≡ cap
      → t < cap
      → n < cap
      → held (set slots (place cap t n) x) t (suc n) ≡ held slots t n ++ x ∷ []
  held-set_end slots t n x hs ht hn =
      ap₂ (λ xs y. xs ++ y ∷ []) (held-set slots t n n x ht (omega arith) hn)
        (get_or-set_self slots (place cap t n) x blank (ground arith))

module _ {A : Type 0} (blank : A) {cap : ℕ} (c : IsCapacity cap) where
  -- A queue starts empty.
  pub fresh-IsValid : IsValid cap (fresh blank cap) × (contents blank cap (fresh blank cap) ≡ [])
  unfolding fresh
  fresh-IsValid = ground (arith, length-replicate cap blank, c.two_slots)

  pub push-IsValid : (x : A) {q : SpscQueue A} → IsValid cap q → IsValid cap (push blank cap x q).1
  unfolding push
  push-IsValid x {q} v =
      ground (arith, next_index_lem c q.head, length-set q.slots q.head x, c.two_slots)

  pub pop-IsValid : {q : SpscQueue A} → IsValid cap q → IsValid cap (pop blank cap q).1
  unfolding pop
  pop-IsValid {q} v = ground (arith, next_index_lem c q.tail, c.two_slots)

  -- The head stands just past the items.
  pub head_place :
      {q : SpscQueue A} → IsValid cap q → q.head ≡ place cap q.tail (between cap q.tail q.head)
  head_place v = ground arith

  pub nonempty_front :
      {q : SpscQueue A}
      → IsValid cap q
      → q.tail ≢ q.head
      → contents blank cap q
        ≡ get_or q.slots q.tail blank
          ∷ held blank cap q.slots (place cap q.tail 1) (between cap q.tail q.head - 1)
  nonempty_front {q} v ne =
      held_front_ne blank cap q.slots q.tail (between cap q.tail q.head) v.tail_in (ground arith)
        (ground arith)

  -- `push` returns what a queue of at most `Capacity - 1` items returns, and holds its items.
  pub push_refines :
      (x : A) {q : SpscQueue A}
      → IsValid cap q
      → let (done, q') = push blank cap x q in
        (done, contents blank cap q') ≡ Fifo.push (cap - 1) x (contents blank cap q)
  unfolding push Fifo.push
  push_refines x {q} v =
      let n = between cap q.tail q.head in
      ground (
        arith,
        next_index_lem c q.head,
        length-held blank cap q.slots q.tail n,
        head_place v,
        held-set_end blank cap q.slots q.tail n x,
        c.two_slots,
      )

  -- `pop` returns what the queue of the items returns, and holds the rest.
  pub pop_refines :
      {q : SpscQueue A}
      → IsValid cap q
      → let (out, q') = pop blank cap q in
        (out, contents blank cap q') ≡ Fifo.pop (contents blank cap q)
  unfolding pop Fifo.pop
  pop_refines {q} v = elim (ℕ_discrete q.tail q.head) [
    | yes e ↦ ground arith
    | no ne ↦ ground (arith, next_index_lem c q.tail, nonempty_front v ne, c.two_slots)
  ]

  -- `size` is the number of items, and `empty` says whether there are none.
  pub size_lem :
      {q : SpscQueue A}
      → IsValid cap q
      → (size blank cap q ≡ length (contents blank cap q))
        × (is_empty blank cap q ≡ (length (contents blank cap q) == 0))
  unfolding size is_empty
  size_lem {q} v = ground (
    arith,
    length-held blank cap q.slots q.tail (between cap q.tail q.head),
    and_mask c ((q.head + size_mod - q.tail) % size_mod),
    difference_mod c q.head q.tail,
  )

  -- Over any sequence of calls a valid ring buffer of `Capacity` slots answers as the first-in
  -- first-out queue of at most `Capacity - 1` items that starts with the buffer's items.
  pub run_refines :
      (cs : List (Call A)) {q : SpscQueue A}
      → IsValid cap q
      → run blank cap q cs ≡ Fifo.run (cap - 1) (contents blank cap q) cs
  unfolding run Fifo.run
  run_refines [] v = refl
  run_refines (pushes x ∷ cs) v = rw (run_refines cs (push-IsValid x v), ← push_refines x v)
  run_refines (pops ∷ cs) v = rw (run_refines cs (pop-IsValid v), ← pop_refines v)
