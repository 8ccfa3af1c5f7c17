-- ===== src/Modulators/DivineCmos.antt =====
-- src/divine_cmos_modulator.cpp: two counters of four bits, each with its clock, and the exclusive or of the two.
pub mod Clocks
use nomos_rt.Common.{
  ℕ, ◌+◌, Bool, true, false, not, bit_and, bit_xor, ◌&&◌, ◌||◌, ◌==◌, if◌then◌else◌, List, [], ◌∷◌,
  set, codes, bytes_eq,
}
use nomos_rt.Edn.{Text}
use nomos_rt.Modulators.Floats.{Floats, ModulatorOutput, blank_output, clamp}
use nomos_rt.Modulators.Sources.{Engine, source_of, gate_or, weighted, total, smoothed}

-- A clock: the source, the counter, the gate at the last tick, and an edge that has been asked for.
pub record Clock : Type 0 where
  pub src : Text
  pub counter : ℕ
  pub prev : Bool
  pub pending : Bool

unfoldable pub counted : Bool → Clock → Clock
counted gate c =
    let edge = (gate && not c.prev) || c.pending in
    record c {
      counter = if edge then bit_and (c.counter + 1) 0x0f else c.counter;
      pending = if edge then false else c.pending;
      prev = gate;
    }

abbrev pub make_clock : Text → Clock
make_clock src = record { src = src; counter = 0; prev = false; pending = false }

module _ (fl : Floats) where
  open fl use {F, lit, lt}

  pub record DivineCmos : Type 0 where
    pub clock1 : Clock
    pub clock2 : Clock
    pub gains : List F
    pub slew : F
    pub slew_state : F

  unfoldable pub make_divine_cmos : Text → Text → DivineCmos
  make_divine_cmos src1 src2 = record {
    clock1 = make_clock src1;
    clock2 = make_clock src2;
    gains = lit 1 1 ∷ lit 1 1 ∷ lit 1 1 ∷ lit 1 1 ∷ [];
    slew = lit 0 1;
    slew_state = lit 0 1;
  }

  -- Without a source the gate holds.
  unfoldable pub read_gate : Engine fl → Clock → Bool
  read_gate engine c = gate_or fl (source_of fl engine c.src) c.prev

  abbrev pub clocked : Engine fl → DivineCmos → DivineCmos
  clocked engine s = record s {
    clock1 = counted (read_gate engine s.clock1) s.clock1;
    clock2 = counted (read_gate engine s.clock2) s.clock2;
  }

  unfoldable pub xor_bits : DivineCmos → ℕ
  xor_bits s = bit_and (bit_xor s.clock1.counter s.clock2.counter) 0x0f

  unfoldable pub main_sum : ℕ → List F → F
  main_sum bits gains =
      let gain_sum = total fl gains (lit 0 1) in
      if lt (lit 0 1) gain_sum
      then fl.div (weighted fl bits (0 ∷ 1 ∷ 2 ∷ 3 ∷ []) gains (lit 0 1)) gain_sum
      else lit 0 1

  unfoldable pub tick : Engine fl → F → DivineCmos → ModulatorOutput F × DivineCmos
  unfolding main_sum
  tick engine rate s =
      let s' = clocked engine s in
      let bits = xor_bits s' in
      let main = main_sum bits s'.gains in
      let slewed = smoothed fl s'.slew rate s'.slew_state main in
      (
        record (blank_output fl) {
          cv = main;
          aux = slewed;
          gate = not (bit_and bits 0x1 == 0);
          gate2 = not (bit_and bits 0x2 == 0);
          state = bits;
        },
        record s' { slew_state = slewed },
      )

  unfoldable pub update : Text → F → DivineCmos → DivineCmos
  update key value s =
      if bytes_eq key (codes "gain0")
      then record s { gains = set s.gains 0 (clamp fl value (lit 0 1) (lit 5 1)) }
      else if bytes_eq key (codes "gain1")
      then record s { gains = set s.gains 1 (clamp fl value (lit 0 1) (lit 5 1)) }
      else if bytes_eq key (codes "gain2")
      then record s { gains = set s.gains 2 (clamp fl value (lit 0 1) (lit 5 1)) }
      else if bytes_eq key (codes "gain3")
      then record s { gains = set s.gains 3 (clamp fl value (lit 0 1) (lit 5 1)) }
      else if bytes_eq key (codes "slew")
      then record s { slew = clamp fl value (lit 0 1) (lit 1 1) }
      else if bytes_eq key (codes "clock1_tick") && lt (lit 1 2) value
      then record s { clock1 = record (s.clock1) { pending = true } }
      else if bytes_eq key (codes "clock2_tick") && lt (lit 1 2) value
      then record s { clock2 = record (s.clock2) { pending = true } }
      else s
