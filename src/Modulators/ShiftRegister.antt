-- ===== src/Modulators/ShiftRegister.antt =====
-- src/shift_register_modulator.cpp: a shift register with feedback. A uint32_t is a number below 2 ^ 32; the lengths of
-- the constructor are integers.
pub mod Alive
use nomos_rt.Common.{
  ℕ, ◌+◌, ◌-◌, ◌*◌, ◌/◌, ◌%◌, ◌^◌, Bool, true, false, not, xor, ltb, ◌==◌, min, max, bit_and,
  bit_or, bit_xor, if◌then◌else◌, List, [], ◌∷◌, get_or, codes, bytes_eq,
}
use nomos_rt.Edn.{Text}
use nomos_rt.Numbers.{ℤ, pos, negsuc}
use nomos_rt.Modulators.Floats.{Floats, ModulatorOutput, blank_output, clamp}

-- `open` is a word of this language.
pub data ShiftMode : Type 0 where
  lfsr rungler turing open_mode : ShiftMode

abbrev pub lfsr_taps : List ℕ
lfsr_taps =
    0x00000000 ∷ 0x00000000 ∷ 0x00000003 ∷ 0x00000006 ∷ 0x0000000c ∷ 0x00000014 ∷ 0x00000030
    ∷ 0x00000060 ∷ 0x000000b8 ∷ 0x00000110 ∷ 0x00000240 ∷ 0x00000500 ∷ 0x00000e08 ∷ 0x00001c80
    ∷ 0x00003802 ∷ 0x00006000 ∷ 0x0000d008 ∷ 0x00012000 ∷ 0x00020400 ∷ 0x00072000 ∷ 0x00090000
    ∷ 0x00140000 ∷ 0x00300000 ∷ 0x00420000 ∷ 0x00e10000 ∷ 0x01200000 ∷ 0x02000023 ∷ 0x04000013
    ∷ 0x09000000 ∷ 0x14000000 ∷ 0x20000029 ∷ 0x48000000 ∷ 0x80200003 ∷ []

-- `std::clamp` of an int between two numbers.
unfoldable pub clamp_int : ℕ → ℕ → ℤ → ℕ
clamp_int low high (pos n) = min (max n low) high
clamp_int low high (negsuc n) = low

-- `(length_ < 32) ? ((1u << length_) - 1u) : 0xFFFF'FFFFu`
unfoldable pub mask_of : ℕ → ℕ
mask_of length = if ltb length 32 then 2 ^ length - 1 else 0xffffffff

-- `x ^= x >> n`
abbrev pub folded : ℕ → ℕ → ℕ
folded n x = bit_xor x (x / 2 ^ n)

unfoldable pub lfsr_new_bit : ℕ → ℕ → Bool
lfsr_new_bit length reg =
    bit_and
      (folded 1
        (folded 2 (folded 4 (folded 8 (folded 16 (bit_and reg (get_or lfsr_taps length 0)))))))
      1
    == 1

-- `(reg_ >> (length_ - 1)) & 1u`
unfoldable pub top_bit : ℕ → ℕ → Bool
top_bit length reg = bit_and (reg / 2 ^ (length - 1)) 1 == 1

unfoldable pub shift_in : ℕ → Bool → ℕ → ℕ
unfolding mask_of
shift_in length new_bit reg =
    bit_and (bit_or (reg * 2 % 2 ^ 32) (if new_bit then 1 else 0)) (mask_of length)

module _ (fl : Floats) where
  open fl use {F, lit, of_word, lt, le}

  pub record ShiftRegister : Type 0 where
    pub mode : ShiftMode
    pub length : ℕ
    pub dac_bits : ℕ
    pub reg : ℕ
    pub gate_out : Bool
    pub clock_rate : F
    pub data_in : F
    pub param : F
    pub depth : F
    pub clock_phase : F
    pub rand_state : ℕ

  -- A register that is zero is set to one.
  unfoldable pub first_reg : ℕ → ℕ
  first_reg length = let reg = bit_and 0xace1 (mask_of length) in if reg == 0 then 1 else reg

  unfoldable pub make_shift_register : ShiftMode → ℤ → ℤ → ShiftRegister
  unfolding clamp_int first_reg
  make_shift_register mode length dac_bits =
      let n = clamp_int 2 32 length in
      record {
        mode = mode;
        length = n;
        dac_bits = clamp_int 1 (min n 8) dac_bits;
        reg = first_reg n;
        gate_out = false;
        clock_rate = lit 2 1;
        data_in = lit 1 2;
        param = lit 1 2;
        depth = lit 1 1;
        clock_phase = lit 0 1;
        rand_state = 0xace1;
      }

  unfoldable pub dac_raw : ShiftRegister → ℕ
  dac_raw s = bit_and (s.reg / 2 ^ (s.length - s.dac_bits)) (2 ^ s.dac_bits - 1)

  unfoldable pub dac_output : ShiftRegister → F
  unfolding dac_raw
  dac_output s =
      fl.sub (fl.mul (fl.div (of_word (dac_raw s)) (of_word (2 ^ s.dac_bits - 1))) (lit 2 1))
        (lit 1 1)

  unfoldable pub next_random : ℕ → F × ℕ
  next_random rand_state =
      let r = (rand_state * 1664525 + 1013904223) % 2 ^ 32 in
      (fl.mul (of_word (r / 2 ^ 8)) (lit 1 16777216), r)

  -- The bit that enters, and the state of the random numbers.
  unfoldable pub new_bit : ShiftMode → ShiftRegister → Bool × ℕ
  unfolding next_random top_bit
  new_bit lfsr s = (lfsr_new_bit s.length s.reg, s.rand_state)
  new_bit rungler s = (xor (lt s.param s.data_in) (top_bit s.length s.reg), s.rand_state)
  new_bit turing s =
      let (x, r) = next_random s.rand_state in
      let msb = top_bit s.length s.reg in (if lt x s.param then not msb else msb, r)
  new_bit open_mode s = (lt (lit 1 2) s.data_in, s.rand_state)

  -- The outputs without and with a clock edge.
  unfoldable pub held_output : ShiftRegister → ModulatorOutput F
  unfolding dac_output blank_output
  held_output s = record (blank_output fl) { cv = fl.mul (dac_output s) s.depth; state = s.reg }

  unfoldable pub clocked : Bool × ℕ → ShiftRegister → ShiftRegister
  clocked (bit, rand_state) s = record s {
    reg = shift_in s.length bit s.reg;
    gate_out = bit;
    rand_state = rand_state;
  }

  unfoldable pub edge : ShiftRegister → ModulatorOutput F × ShiftRegister
  unfolding held_output
  edge s =
      let s' = clocked (new_bit s.mode s) s in (record (held_output s') { gate = s'.gate_out }, s')

  unfoldable pub tick : F → F → ShiftRegister → ModulatorOutput F × ShiftRegister
  unfolding held_output
  tick beat rate s =
      if le rate (lit 0 1)
      then (held_output s, s)
      else (let phase = fl.add s.clock_phase (fl.div s.clock_rate rate) in
          if lt phase (lit 1 1)
          then (let waiting = record s { clock_phase = phase } in (held_output waiting, waiting))
          else edge (record s { clock_phase = fl.sub phase (lit 1 1) }))

  unfoldable pub update : Text → F → ShiftRegister → ShiftRegister
  update key value s =
      if bytes_eq key (codes "clock_rate")
      then record s { clock_rate = clamp fl value (lit 1 1000) (lit 1000 1) }
      else if bytes_eq key (codes "data")
      then record s { data_in = clamp fl value (lit 0 1) (lit 1 1) }
      else if bytes_eq key (codes "param")
      then record s { param = clamp fl value (lit 0 1) (lit 1 1) }
      else if bytes_eq key (codes "depth")
      then record s { depth = clamp fl value (lit 0 1) (lit 1 1) }
      else s
