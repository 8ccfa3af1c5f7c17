-- ===== src/Modulators/DivineCmos/Clocks.antt =====
-- The counters of the clocks count edges.
use nomos_rt.Common.{
  ℕ, ◌+◌, ◌%◌, Bool, false, not, ◌&&◌, if◌then◌else◌, List, [], ◌∷◌, ◌++◌, ◌≡◌, refl, sym, ap, ap₂,
  ◌∙◌, bit_and, bit_xor, arith,
}
use nomos_rt.Common.Bits.{bit_and_mask, bit_xor_bounds}
use native.Mathlib.Nat.{mod-eq_of_lt}
use nomos_rt.Edn.{Text}
use nomos_rt.Modulators.Floats.{Floats}
use nomos_rt.Modulators.Sources.{Engine, source_of, gate_or}
use nomos_rt.Modulators.DivineCmos.{
  Clock, counted, make_clock, DivineCmos, make_divine_cmos, read_gate, xor_bits, tick,
}

unfoldable edge_of : Bool → Bool → ℕ
edge_of gate prev = if gate && not prev then 1 else 0

counted-idle : (gate : Bool) (c : Clock) → c.pending ≡ false → (counted gate c).pending ≡ false
unfolding counted
counted-idle gate c idle = ground (arith, idle)

up : (n x : ℕ) → x ≡ n % 16 → bit_and (x + 1) 0x0f ≡ (n + 1) % 16
up n x e = bit_and_mask 4 (x + 1) ∙ (omega (arith, e))

counter-mod :
    (gate : Bool) (n : ℕ) (c : Clock)
    → c.counter ≡ n % 16
    → c.pending ≡ false
    → (counted gate c).counter ≡ (n + edge_of gate c.prev) % 16
unfolding counted edge_of
counter-mod gate n c e idle = ground (arith, e, idle, up n c.counter e)

module _ (fl : Floats) where
  open fl use {F}

  -- The rising edges that a source shows over the ticks, from a gate on; a source that shows nothing holds.
  unfoldable pub rises : Text → Bool → List (Engine fl × F) → ℕ
  unfolding edge_of
  rises src prev [] = 0
  rises src prev ((engine, rate) ∷ calls) =
      let gate = gate_or fl (source_of fl engine src) prev in
      edge_of gate prev + rises src gate calls

  unfoldable pub ticks : List (Engine fl × F) → DivineCmos fl → DivineCmos fl
  ticks [] s = s
  ticks ((engine, rate) ∷ calls) s = ticks calls (tick fl engine rate s).1

  abbrev run_clock : List (Engine fl × F) → Clock → Clock
  run_clock [] c = c
  run_clock ((engine, rate) ∷ calls) c = run_clock calls (counted (read_gate fl engine c) c)

  run_clock-counter :
      (calls : List (Engine fl × F)) (n : ℕ) (c : Clock)
      → c.counter ≡ n % 16
      → c.pending ≡ false
      → (run_clock calls c).counter ≡ (n + rises c.src c.prev calls) % 16
  unfolding rises read_gate counted
  run_clock-counter [] n c e idle = omega (arith, e)
  run_clock-counter ((engine, rate) ∷ calls) n c e idle =
      let gate = read_gate fl engine c in
      let rest =
        run_clock-counter calls (n + edge_of gate c.prev) (counted gate c)
          (counter-mod gate n c e idle) (counted-idle gate c idle) in
      rest ∙ ap (λ k. k % 16) (omega arith)

  run_clock-rises :
      (calls : List (Engine fl × F)) (src : Text)
      → (run_clock calls (make_clock src)).counter ≡ rises src false calls % 16
  run_clock-rises calls src =
      run_clock-counter calls 0 (make_clock src) refl refl ∙ ap (λ k. k % 16) (omega arith)

  ticks-clocks :
      (calls : List (Engine fl × F)) (s : DivineCmos fl)
      → ((ticks calls s).clock1 ≡ run_clock calls s.clock1)
        × ((ticks calls s).clock2 ≡ run_clock calls s.clock2)
  unfolding ticks tick
  ticks-clocks [] s = (refl, refl)
  ticks-clocks ((engine, rate) ∷ calls) s = ticks-clocks calls (tick fl engine rate s).1

  xor_bits-small : (a b : ℕ) → bit_and (bit_xor (a % 16) (b % 16)) 0x0f ≡ bit_xor (a % 16) (b % 16)
  xor_bits-small a b =
      bit_and_mask 4 (bit_xor (a % 16) (b % 16))
      ∙ mod-eq_of_lt (bit_xor_bounds 4 (a % 16) (b % 16) (omega arith) (omega arith))

  ticks-later :
      (calls : List (Engine fl × F)) (engine : Engine fl) (rate : F) (s : DivineCmos fl)
      → ticks (calls ++ (engine, rate) ∷ []) s ≡ (tick fl engine rate (ticks calls s)).1
  unfolding ticks
  ticks-later [] engine rate s = refl
  ticks-later ((e, r) ∷ calls) engine rate s = ticks-later calls engine rate (tick fl e r s).1

  -- From the start, without edges that are asked for, the state that a tick puts out is the exclusive or of the numbers of
  -- rising edges that the two sources have shown up to it, each modulo 16.
  pub counts_edges :
      (src1 src2 : Text) (calls : List (Engine fl × F)) (engine : Engine fl) (rate : F)
      → let all = calls ++ (engine, rate) ∷ [] in
        (tick fl engine rate (ticks calls (make_divine_cmos fl src1 src2))).0.state
        ≡ bit_xor (rises src1 false all % 16) (rises src2 false all % 16)
  unfolding tick xor_bits make_divine_cmos
  counts_edges src1 src2 calls engine rate =
      let all = calls ++ (engine, rate) ∷ [] in
      let start = make_divine_cmos fl src1 src2 in
      let later = ticks-later calls engine rate start in
      let both = ticks-clocks all start in
      let first =
        ap (λ s. s.clock1.counter) (sym later)
        ∙ ap (λ c. c.counter) both.0
        ∙ run_clock-rises all src1 in
      let second =
        ap (λ s. s.clock2.counter) (sym later)
        ∙ ap (λ c. c.counter) both.1
        ∙ run_clock-rises all src2 in
      ap₂ (λ a b. bit_and (bit_xor a b) 0x0f) first second
      ∙ xor_bits-small (rises src1 false all) (rises src2 false all)
