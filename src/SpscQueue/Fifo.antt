-- ===== src/SpscQueue/Fifo.antt =====
-- What a queue promises: a first-in first-out list of at most `limit` items, oldest first.
use nomos_rt.Common.{
  ℕ, Bool, true, false, ◌==◌, if◌then◌else◌, Option, none, some, List, [], ◌∷◌, ◌++◌, length,
}
use nomos_rt.SpscQueue.{Call, pushes, pops, Reply, pushed, popped}

module _ {ℓ} {A : Type ℓ} where
  unfoldable pub push : ℕ → A → List A → Bool × List A
  push limit x xs = if length xs == limit then (false, xs) else (true, xs ++ x ∷ [])

  unfoldable pub pop : List A → Option A × List A
  pop [] = (none, [])
  pop (x ∷ xs) = (some x, xs)

  unfoldable pub run : ℕ → List A → List (Call A) → List (Reply A)
  run limit xs [] = []
  run limit xs (pushes x ∷ cs) = let (b, ys) = push limit x xs in pushed b ∷ run limit ys cs
  run limit xs (pops ∷ cs) = let (o, ys) = pop xs in popped o ∷ run limit ys cs
