-- ===== src/Ipc/Transfer.antt =====
-- `read_exact` and `write_exact`: with enough fuel they end, having moved exactly the bytes asked for or
-- met the end or a failure.
use nomos_rt.Common.{
  ℕ, zero, suc, ◌+◌, ◌-◌, ◌≤◌, ◌<◌, Bool, true, false, ◌==◌, Option, none, some, List, [], ◌++◌,
  length, take, drop, length-append, length-drop, take-append-drop, append_assoc, append-nil,
  take-add, take-length, drop-length, ap₂, nil_of_length, ◌≡◌, ◌≢◌, refl, ap, sym, ◌∙◌, arith,
  ==_iff,
}
use nomos_rt.Ipc.Stream.{
  Source, Sink, ReadResult, got, interrupted, closed, failed, ReadStep, ReadLaw, NeverFails,
  WriteResult, took, write_interrupted, write_failed, WriteStep, WriteLaw,
}
use nomos_rt.Ipc.Channel.{Exact, filled, short, read_turn, read_exact, write_turn, write_exact}

module _ (src : Source) where
  -- How a read of `rem` more bytes ends that started at `s`: with the next `rem` bytes of the stream
  -- behind those that it had, or short, with `errno` 0 only if the stream held fewer.
  abbrev pub ReadOutcome : ℕ → List ℕ → src.S → Option (Exact × src.S) → Type 0
  ReadOutcome rem buf s none = ⊥
  ReadOutcome rem buf s (some (filled bs, t)) =
      (new : List ℕ) × (bs ≡ buf ++ new)
      × (length new ≡ rem)
      × (src.remaining s ≡ new ++ src.remaining t)
      × (src.signals t ≤ src.signals s)
  ReadOutcome rem buf s (some (short e, t)) =
      e ≡ 0 → (length (src.remaining s) < rem) × (src.remaining t ≡ [])

  got_more :
      (rem : ℕ) (buf bs : List ℕ) (s t : src.S) (o : Option (Exact × src.S))
      → length bs ≤ rem
      → src.remaining s ≡ bs ++ src.remaining t
      → src.signals t ≤ src.signals s
      → ReadOutcome (rem - length bs) (buf ++ bs) t o
      → ReadOutcome rem buf s o
  got_more rem buf bs s t none h e k r = r
  got_more rem buf bs s t (some (filled all, u)) h e k (new, p, q, m, l) = (
    bs ++ new,
    p ∙ append_assoc buf bs new,
    omega (arith, length-append bs new, q),
    e ∙ ap (◌++◌ bs) m ∙ sym (append_assoc bs new (src.remaining u)),
    omega arith,
  )
  got_more rem buf bs s t (some (short zero, u)) h e k r =
      λ z. (omega (arith, ap length e, length-append bs (src.remaining t), r z), (r z).1)
  got_more rem buf bs s t (some (short (suc c), u)) h e k r = λ z. absurd (omega (arith, z))

  interrupted_more :
      (rem : ℕ) (buf : List ℕ) (s t : src.S) (o : Option (Exact × src.S))
      → src.remaining t ≡ src.remaining s
      → src.signals t ≤ src.signals s
      → ReadOutcome rem buf t o
      → ReadOutcome rem buf s o
  interrupted_more rem buf s t none e k r = r
  interrupted_more rem buf s t (some (filled all, u)) e k (new, p, q, m, l) =
      (new, p, q, sym e ∙ m, omega arith)
  interrupted_more rem buf s t (some (short c, u)) e k r =
      λ z. (omega (arith, ap length e, r z), (r z).1)

  turn-ReadOutcome :
      (again : ℕ → List ℕ → src.S → Option (Exact × src.S)) (fuel rem : ℕ) (buf : List ℕ)
      (s : src.S)
      → ((m : ℕ) (b : List ℕ) (t : src.S)
          → m + src.signals t < fuel
          → ReadOutcome m b t (again m b t))
      → rem + src.signals s < suc fuel
      → 0 < rem
      → (r : ReadResult) (t : src.S) → ReadStep src rem s (r, t)
      → ReadOutcome rem buf s (read_turn src again rem buf r t)
  unfolding read_turn
  turn-ReadOutcome again fuel rem buf s ih enough more (got bs) t (h, k, e, l) =
      got_more rem buf bs s t _ k e l (ih (rem - length bs) (buf ++ bs) t (omega arith))
  turn-ReadOutcome again fuel rem buf s ih enough more interrupted t (e, l) =
      interrupted_more rem buf s t _ e (omega arith) (ih rem buf t (omega arith))
  turn-ReadOutcome again fuel rem buf s ih enough more closed t e =
      λ z. (omega (arith, ap length e.0), e.1)
  turn-ReadOutcome again fuel rem buf s ih enough more (failed c) t ne = λ z. absurd (ne z)

  -- With more fuel than bytes to come and interruptions, `read_exact` ends.
  pub read_exact-ReadOutcome :
      (fuel rem : ℕ) (buf : List ℕ) (s : src.S)
      → ReadLaw src
      → rem + src.signals s < fuel
      → ReadOutcome rem buf s (read_exact src fuel rem buf s)
  unfolding read_exact
  read_exact-ReadOutcome zero rem buf s law enough = absurd (omega arith)
  read_exact-ReadOutcome (suc fuel) rem buf s law enough =
      go (λ m b t. read_exact-ReadOutcome fuel m b t law) (rem == 0) refl
    where
      go :
          ((m : ℕ) (b : List ℕ) (t : src.S)
            → m + src.signals t < fuel
            → ReadOutcome m b t (read_exact src fuel m b t))
          → (z : Bool) → (rem == 0) ≡ z
          → ReadOutcome rem buf s (elim z [
            | true ↦ some (filled buf, s)
            | false ↦
                read_turn src (read_exact src fuel) rem buf (src.read rem s).0 (src.read rem s).1
          ])
      go ih true e = ([], sym (append-nil buf), sym ((==_iff rem 0).0 e), refl, omega arith)
      go ih false e =
          let more : 0 < rem = ground arith in
          turn-ReadOutcome (read_exact src fuel) fuel rem buf s ih enough more (src.read rem s).0
            (src.read rem s).1 (law rem s more)

module _ (snk : Sink) where
  -- How a write of the bytes `bs` ends that started at `s`: the stream has taken them all, or the
  -- call failed with some of them taken.
  abbrev pub WriteOutcome : List ℕ → snk.S → Option (Bool × snk.S) → Type 0
  WriteOutcome bs s none = ⊥
  WriteOutcome bs s (some (true, t)) =
      (snk.written t ≡ snk.written s ++ bs) × (snk.signals t ≤ snk.signals s)
  WriteOutcome bs s (some (false, t)) = (k : ℕ) × (snk.written t ≡ snk.written s ++ take k bs)

  took_more :
      (k : ℕ) (bs : List ℕ) (s t : snk.S) (o : Option (Bool × snk.S))
      → snk.written t ≡ snk.written s ++ take k bs
      → snk.signals t ≤ snk.signals s
      → WriteOutcome (drop k bs) t o
      → WriteOutcome bs s o
  took_more k bs s t none e l r = r
  took_more k bs s t (some (true, u)) e l (p, m) = (
    p
        ∙ ap (λ w. w ++ drop k bs) e
        ∙ append_assoc (snk.written s) (take k bs) (drop k bs)
        ∙ ap (◌++◌ (snk.written s)) (take-append-drop k bs),
    omega arith,
  )
  took_more k bs s t (some (false, u)) e l (j, p) = (
    k + j,
    p
        ∙ ap (λ w. w ++ take j (drop k bs)) e
        ∙ append_assoc (snk.written s) (take k bs) (take j (drop k bs))
        ∙ ap (◌++◌ (snk.written s)) (take-add k j bs),
  )

  turn-WriteOutcome :
      (again : List ℕ → snk.S → Option (Bool × snk.S)) (fuel : ℕ) (bs : List ℕ) (s : snk.S)
      → ((b : List ℕ) (t : snk.S) → length b + snk.signals t < fuel → WriteOutcome b t (again b t))
      → length bs + snk.signals s < suc fuel
      → 0 < length bs
      → (r : WriteResult) (t : snk.S) → WriteStep snk bs s (r, t)
      → WriteOutcome bs s (write_turn snk again bs r t)
  unfolding write_turn
  turn-WriteOutcome again fuel bs s ih enough more (took zero) t (h, e, l) = (0, e)
  turn-WriteOutcome again fuel bs s ih enough more (took (suc k)) t (h, e, l) =
      took_more (suc k) bs s t _ e l
        (ih (drop (suc k) bs) t (omega (arith, length-drop (suc k) bs)))
  turn-WriteOutcome again fuel bs s ih enough more write_interrupted t (e, l) =
      took_more 0 bs s t _ (e ∙ sym (append-nil (snk.written s))) (omega arith)
        (ih bs t (omega arith))
  turn-WriteOutcome again fuel bs s ih enough more (write_failed c) t e =
      (0, e ∙ sym (append-nil (snk.written s)))

  -- With more fuel than bytes to go and interruptions, `write_exact` ends.
  pub write_exact-WriteOutcome :
      (fuel : ℕ) (bs : List ℕ) (s : snk.S)
      → WriteLaw snk
      → length bs + snk.signals s < fuel
      → WriteOutcome bs s (write_exact snk fuel bs s)
  unfolding write_exact
  write_exact-WriteOutcome zero bs s law enough = absurd (omega arith)
  write_exact-WriteOutcome (suc fuel) bs s law enough =
      go (λ b t. write_exact-WriteOutcome fuel b t law) (length bs == 0) refl
    where
      go :
          ((b : List ℕ) (t : snk.S)
            → length b + snk.signals t < fuel
            → WriteOutcome b t (write_exact snk fuel b t))
          → (z : Bool) → (length bs == 0) ≡ z
          → WriteOutcome bs s (elim z [
            | true ↦ some (true, s)
            | false ↦ write_turn snk (write_exact snk fuel) bs (snk.write bs s).0 (snk.write bs s).1
          ])
      go ih true e = (
        sym (append-nil (snk.written s))
            ∙ ap (◌++◌ (snk.written s)) (sym (nil_of_length bs ((==_iff (length bs) 0).0 e))),
        omega arith,
      )
      go ih false e =
          let more : 0 < length bs = ground arith in
          turn-WriteOutcome (write_exact snk fuel) fuel bs s ih enough more (snk.write bs s).0
            (snk.write bs s).1 (law bs s more)

-- A read that is short because the stream ended, not because a call failed.
abbrev pub EndsCleanly : {S : Type 0} → Option (Exact × S) → Type 0
EndsCleanly none = Unit
EndsCleanly (some (filled bs, t)) = Unit
EndsCleanly (some (short e, t)) = e ≡ 0

module _ (src : Source) (sound : NeverFails src) where
  turn-EndsCleanly :
      (again : ℕ → List ℕ → src.S → Option (Exact × src.S)) (rem : ℕ) (buf : List ℕ)
      → ((m : ℕ) (b : List ℕ) (t : src.S) → EndsCleanly (again m b t))
      → (r : ReadResult) (t : src.S) → ((e : ℕ) → r ≢ failed e)
      → EndsCleanly (read_turn src again rem buf r t)
  unfolding read_turn
  turn-EndsCleanly again rem buf ih (got bs) t ne = ih (rem - length bs) (buf ++ bs) t
  turn-EndsCleanly again rem buf ih interrupted t ne = ih rem buf t
  turn-EndsCleanly again rem buf ih closed t ne = refl
  turn-EndsCleanly again rem buf ih (failed e) t ne = absurd (ne e refl)

  pub read_exact-EndsCleanly :
      (fuel rem : ℕ) (buf : List ℕ) (s : src.S) → EndsCleanly (read_exact src fuel rem buf s)
  unfolding read_exact
  read_exact-EndsCleanly zero rem buf s = tt
  read_exact-EndsCleanly (suc fuel) rem buf s = go (read_exact-EndsCleanly fuel) (rem == 0)
    where
      go :
          ((m : ℕ) (b : List ℕ) (t : src.S) → EndsCleanly (read_exact src fuel m b t))
          → (z : Bool)
          → EndsCleanly (elim z [
            | true ↦ some (filled buf, s)
            | false ↦
                read_turn src (read_exact src fuel) rem buf (src.read rem s).0 (src.read rem s).1
          ])
      go ih true = tt
      go ih false =
          turn-EndsCleanly (read_exact src fuel) rem buf ih (src.read rem s).0 (src.read rem s).1
            (sound rem s)

-- On a stream that does not fail, `read_exact` takes the next bytes if there are enough of them, and
-- otherwise reports the end.
abbrev pub Taken : (src : Source) → ℕ → src.S → Option (Exact × src.S) → Type 0
Taken src rem s none = ⊥
Taken src rem s (some (filled bs, t)) =
    (rem ≤ length (src.remaining s))
    × (bs ≡ take rem (src.remaining s))
    × (src.remaining t ≡ drop rem (src.remaining s))
    × (src.signals t ≤ src.signals s)
Taken src rem s (some (short e, t)) =
    (e ≡ 0) × (length (src.remaining s) < rem) × (src.remaining t ≡ [])

Taken-of_outcome :
    (src : Source) (rem : ℕ) (s : src.S) (o : Option (Exact × src.S))
    → ReadOutcome src rem [] s o
    → EndsCleanly o
    → Taken src rem s o
Taken-of_outcome src rem s none r c = r
Taken-of_outcome src rem s (some (filled bs, t)) (new, p, q, m, l) c = (
  omega (arith, ap length m, length-append new (src.remaining t), q),
  p ∙ sym (take-length new (src.remaining t)) ∙ ap₂ take q (sym m),
  sym (drop-length new (src.remaining t)) ∙ ap₂ drop q (sym m),
  l,
)
Taken-of_outcome src rem s (some (short e, t)) r c = (c, (r c).0, (r c).1)

pub read_exact-Taken :
    (src : Source) (fuel rem : ℕ) (s : src.S)
    → ReadLaw src
    → NeverFails src
    → rem + src.signals s < fuel
    → Taken src rem s (read_exact src fuel rem [] s)
read_exact-Taken src fuel rem s law sound enough =
    Taken-of_outcome src rem s _ (read_exact-ReadOutcome src fuel rem [] s law enough)
      (read_exact-EndsCleanly src sound fuel rem [] s)
