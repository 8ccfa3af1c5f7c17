-- ===== src/Modulators/Cipher.antt =====
-- src/cipher_modulator.cpp: a shift register of 8 bits behind an output register that a strobe freezes.
pub mod Strobe
use nomos_rt.Common.{
  ℕ, ◌+◌, ◌*◌, ◌%◌, ◌^◌, Bool, true, false, not, xor, bit_or, ◌&&◌, ◌||◌, if◌then◌else◌, List, [],
  ◌∷◌, map, set, codes, bytes_eq,
}
use nomos_rt.Edn.{Text}
use nomos_rt.Modulators.Floats.{Floats, ModulatorOutput, blank_output}
use nomos_rt.Modulators.Sources.{Engine, source_of, gate_or, weighted, total, bit_at, fill_outputs}

abbrev pub cv_bits : List (List ℕ)
cv_bits =
    (0 ∷ 3 ∷ 4 ∷ 7 ∷ []) ∷ (0 ∷ 1 ∷ 4 ∷ 5 ∷ []) ∷ (1 ∷ 2 ∷ 5 ∷ 6 ∷ []) ∷ (2 ∷ 3 ∷ 6 ∷ 7 ∷ []) ∷ []

abbrev pub is_set : Text → Bool
is_set [] = false
is_set (c ∷ src) = true

module _ (fl : Floats) where
  open fl use {F, lit, lt, le}

  pub record Cipher : Type 0 where
    pub clock_src : Text
    pub data1_src : Text
    pub data2_src : Text
    pub strobe_src : Text
    pub inner_reg : ℕ
    pub output_reg : ℕ
    pub clock_prev : Bool
    pub clock_pending : Bool
    pub serial_out : Bool
    pub data1 : F
    pub data2 : F
    pub strobe : F

  unfoldable pub make_cipher : Text → Text → Text → Text → Cipher
  make_cipher clock_src data1_src data2_src strobe_src = record {
    clock_src = clock_src;
    data1_src = data1_src;
    data2_src = data2_src;
    strobe_src = strobe_src;
    inner_reg = 0;
    output_reg = 0;
    clock_prev = false;
    clock_pending = false;
    serial_out = false;
    data1 = lit 0 1;
    data2 = fl.neg (lit 1 1);
    strobe = lit 0 1;
  }

  unfoldable pub read_gate_src : Engine fl → Text → Bool
  read_gate_src engine src = gate_or fl (source_of fl engine src) false

  unfoldable pub read_gate_level : Engine fl → Text → F → Bool
  read_gate_level engine src fallback = gate_or fl (source_of fl engine src) (lt (lit 1 2) fallback)

  abbrev pub cv_weights : List F
  cv_weights = lit 5 100 ∷ lit 11 100 ∷ lit 25 100 ∷ lit 53 100 ∷ []

  -- `kWeightSum`
  abbrev pub weight_sum : F
  weight_sum = fl.add (fl.add (fl.add (lit 5 100) (lit 11 100)) (lit 25 100)) (lit 53 100)

  unfoldable pub project_cv : ℕ → List ℕ → F
  project_cv output_reg bits = fl.div (weighted fl output_reg bits cv_weights (lit 0 1)) weight_sum

  unfoldable pub bit_in : Engine fl → Cipher → Bool
  bit_in engine s =
      let d1 = read_gate_level engine s.data1_src s.data1 in
      if is_set s.data2_src || le (lit 0 1) s.data2
      then d1
        || (if is_set s.data2_src then read_gate_src engine s.data2_src else lt (lit 1 2) s.data2)
      else xor (bit_at s.inner_reg 7) (bit_at s.inner_reg 0) || d1

  -- The clock and the inner register.
  unfoldable pub shifted : Engine fl → Cipher → Cipher
  unfolding bit_in
  shifted engine s =
      let clk = if is_set s.clock_src then read_gate_src engine s.clock_src else false in
      let edge = (clk && not s.clock_prev) || s.clock_pending in
      record s {
        clock_prev = clk;
        clock_pending = false;
        serial_out = if edge then bit_at s.inner_reg 7 else false;
        inner_reg =
            if edge
            then bit_or (s.inner_reg * 2) (if bit_in engine s then 1 else 0) % 2 ^ 8
            else s.inner_reg;
      }

  unfoldable pub strobed : Bool → Cipher → Cipher
  strobed active s = record s { output_reg = if active then s.output_reg else s.inner_reg }

  unfoldable pub tick : Engine fl → Cipher → ModulatorOutput F × Cipher
  unfolding shifted strobed
  tick engine s =
      let active = read_gate_level engine s.strobe_src s.strobe in
      let s' = strobed active (shifted engine s) in
      let cv = project_cv s'.output_reg in
      (
        record (blank_output fl) {
          cv = cv (0 ∷ 3 ∷ 4 ∷ 7 ∷ []);
          aux = cv (0 ∷ 1 ∷ 4 ∷ 5 ∷ []);
          gate = s'.serial_out;
          gate2 = active;
          state = s'.output_reg;
          outputs = fill_outputs fl (map cv cv_bits) 0 (blank_output fl).outputs;
        },
        s',
      )

  unfoldable pub update : Text → F → Cipher → Cipher
  update key value s =
      if bytes_eq key (codes "data1")
      then record s { data1 = value }
      else if bytes_eq key (codes "data2")
      then record s { data2 = value }
      else if bytes_eq key (codes "strobe")
      then record s { strobe = value }
      else if bytes_eq key (codes "clock_tick") && lt (lit 1 2) value
      then record s { clock_pending = true }
      else if bytes_eq key (codes "data2_enable")
      then record s { data2 = if lt (lit 1 2) value then lit 0 1 else fl.neg (lit 1 1) }
      else s
