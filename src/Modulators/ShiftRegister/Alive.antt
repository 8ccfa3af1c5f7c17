-- ===== src/Modulators/ShiftRegister/Alive.antt =====
-- The register keeps its width, and with linear feedback it never becomes zero.
use nomos_rt.Common.{
  ℕ, zero, suc, ◌+◌, ◌-◌, ◌*◌, ◌/◌, ◌%◌, ◌^◌, ◌≤◌, ◌<◌, Bool, true, false, ltb, ◌==◌, ◌≡◌, refl,
  sym, ap, ◌∙◌, subst, min, bit_and, bit_or, if◌then◌else◌, List, [], ◌∷◌, passes, test_of_passes,
  Bool-cases, inl, inr, arith,
}
use nomos_rt.Common.Bits.{bit_and_mask, bit_or-even, two_pow_pos, mod_halves}
use native.Mathlib.Decide.{ℕ_discrete}
use native.Mathlib.Nat.{pow-suc, mod-lt}
use nomos_rt.Numbers.{ℤ, pos, negsuc}
use nomos_rt.Modulators.Floats.{Floats}
use nomos_rt.Modulators.ShiftRegister.{
  ShiftMode, lfsr, rungler, turing, open_mode, lfsr_new_bit, mask_of, shift_in, first_reg,
  clamp_int, ShiftRegister, make_shift_register, dac_raw, new_bit, clocked, edge, tick,
}

two_pow_mono : (k n : ℕ) → k ≤ n → 2 ^ k ≤ 2 ^ n
two_pow_mono zero n h = omega (arith, two_pow_pos n)
two_pow_mono (suc k) zero h = absurd (omega arith)
two_pow_mono (suc k) (suc n) h =
    omega (arith, pow-suc 2 k, pow-suc 2 n, two_pow_mono k n (omega arith))

twice : (k : ℕ) → 2 ^ suc k ≡ 2 * 2 ^ k
twice k = omega (arith, pow-suc 2 k)

mask_of-pow : (k : ℕ) → k < 32 → mask_of (suc k) ≡ 2 ^ suc k - 1
unfolding mask_of
mask_of-pow k h = elim (ℕ_discrete k 31) [
  | yes e ↦
      subst (λ n. (if ltb (suc n) 32 then 2 ^ suc n - 1 else 0xffffffff) ≡ 2 ^ suc n - 1) (sym e)
        refl
  | no ne ↦ ground arith
]

abbrev bit_of : Bool → ℕ
bit_of b = if b then 1 else 0

bit_of-lt : (b : Bool) → bit_of b < 2
bit_of-lt true = omega arith
bit_of-lt false = omega arith

-- The register after a shift: `k` is one less than its length.
even_word : (reg : ℕ) → reg * 2 % 2 ^ 32 ≡ reg % 2 ^ 31 * 2
even_word reg = omega arith

word_of_short : (k reg : ℕ) → k < 31 → reg < 2 ^ suc k → reg % 2 ^ 31 ≡ reg
word_of_short k reg h small = omega (arith, two_pow_mono (suc k) 31 (omega arith))

low_of_word : (k reg : ℕ) → k < 32 → reg < 2 ^ suc k → reg % 2 ^ 31 % 2 ^ k ≡ reg % 2 ^ k
low_of_word k reg h small = elim (ℕ_discrete k 31) [
  | yes e ↦ subst (λ n. reg % 2 ^ 31 % 2 ^ n ≡ reg % 2 ^ n) (sym e) (omega arith)
  | no ne ↦ ap (λ x. x % 2 ^ k) (word_of_short k reg (omega arith) small)
]

double_mod : (x b m : ℕ) → b < 2 → 0 < m → (x * 2 + b) % (2 * m) ≡ 2 * (x % m) + b
double_mod x b m hb hm = mod_halves m (x * 2 + b) hm ∙ halves x b m hb
  where
    half_of : (x b : ℕ) → b < 2 → (x * 2 + b) / 2 ≡ x
    half_of x b hb = omega arith

    rest_of : (x b : ℕ) → b < 2 → (x * 2 + b) % 2 ≡ b
    rest_of x b hb = omega arith

    halves : (x b m : ℕ) → b < 2 → 2 * ((x * 2 + b) / 2 % m) + (x * 2 + b) % 2 ≡ 2 * (x % m) + b
    halves x b m hb = rw (half_of x b hb, rest_of x b hb)

shift_in-mod :
    (k reg : ℕ) (b : Bool)
    → k < 32
    → reg < 2 ^ suc k
    → shift_in (suc k) b reg ≡ 2 * (reg % 2 ^ k) + bit_of b
unfolding shift_in
shift_in-mod k reg b h small =
    ap (λ w. bit_and (bit_or w (bit_of b)) (mask_of (suc k))) (even_word reg)
    ∙ ap (λ w. bit_and w (mask_of (suc k))) (bit_or-even (reg % 2 ^ 31) (bit_of b) (bit_of-lt b))
    ∙ ap (λ m. bit_and (reg % 2 ^ 31 * 2 + bit_of b) m) (mask_of-pow k h)
    ∙ bit_and_mask (suc k) (reg % 2 ^ 31 * 2 + bit_of b)
    ∙ ap (λ m. (reg % 2 ^ 31 * 2 + bit_of b) % m) (twice k)
    ∙ double_mod (reg % 2 ^ 31) (bit_of b) (2 ^ k) (bit_of-lt b) (two_pow_pos k)
    ∙ ap (λ t. 2 * t + bit_of b) (low_of_word k reg h small)

shift_in-lt : (k reg : ℕ) (b : Bool) → k < 32 → reg < 2 ^ suc k → shift_in (suc k) b reg < 2 ^ suc k
shift_in-lt k reg b h small =
    let low : reg % 2 ^ k < 2 ^ k = mod-lt reg (two_pow_pos k) in
    omega (arith, shift_in-mod k reg b h small, bit_of-lt b, low, pow-suc 2 k)

-- The feedback of a register that holds its top bit only.
feeds_back : ℕ → Bool
feeds_back k = if k == 0 then true else lfsr_new_bit (suc k) (2 ^ k)

feedback_table : passes feeds_back 32 ≡ true
unfolding passes feeds_back lfsr_new_bit
feedback_table = refl

top_feeds_back : (k : ℕ) → 0 < k → k < 32 → lfsr_new_bit (suc k) (2 ^ k) ≡ true
unfolding feeds_back
top_feeds_back k h lt = ground (arith, test_of_passes feeds_back 32 feedback_table k lt)

top_only : (reg m : ℕ) → reg < 2 * m → 0 < reg → reg % m ≡ 0 → reg ≡ m
top_only reg m small h e = grind arith

shift_in-pos :
    (k reg : ℕ)
    → 0 < k
    → k < 32
    → reg < 2 ^ suc k
    → 0 < reg
    → 0 < shift_in (suc k) (lfsr_new_bit (suc k) reg) reg
shift_in-pos k reg hk h small alive =
    let e = shift_in-mod k reg (lfsr_new_bit (suc k) reg) h small in
    elim (ℕ_discrete (reg % 2 ^ k) 0) [
      | yes none_left ↦
          let top = top_only reg (2 ^ k) (omega (arith, pow-suc 2 k)) alive none_left in
          let one = ap (lfsr_new_bit (suc k)) top ∙ top_feeds_back k hk h in
          omega (arith, e, ap bit_of one)
      | no some_left ↦ omega (arith, e)
    ]

-- The same for a length that is a variable.
shift_in-fits : (n reg : ℕ) (b : Bool) → 2 ≤ n → n ≤ 32 → reg < 2 ^ n → shift_in n b reg < 2 ^ n
shift_in-fits zero reg b low high fits = absurd (omega arith)
shift_in-fits (suc k) reg b low high fits = shift_in-lt k reg b (omega arith) fits

shift_in-alive :
    (n reg : ℕ) → 2 ≤ n → n ≤ 32 → reg < 2 ^ n → 0 < reg → 0 < shift_in n (lfsr_new_bit n reg) reg
shift_in-alive zero reg low high fits alive = absurd (omega arith)
shift_in-alive (suc k) reg low high fits alive =
    shift_in-pos k reg (omega arith) (omega arith) fits alive

-- The first register of each length.
starts_well : ℕ → Bool
starts_well n =
    if ltb n 2
    then true
    else (let reg = bit_and 0xace1 (mask_of n) in
        let first = if reg == 0 then 1 else reg in if ltb 0 first then ltb first (2 ^ n) else false)

start_table : passes starts_well 33 ≡ true
unfolding passes starts_well mask_of
start_table = refl

module _ (fl : Floats) where
  open fl use {F, le, lt, lit}

  -- The bounds that the constructor sets; the register has no bit beyond its length, and with linear feedback it is not
  -- zero.
  pub record IsRegister (s : ShiftRegister fl) : Type 0 where
    pub length_low : 2 ≤ s.length
    pub length_high : s.length ≤ 32
    pub dac_low : 1 ≤ s.dac_bits
    pub dac_high : s.dac_bits ≤ min s.length 8
    pub fits : s.reg < 2 ^ s.length
    pub alive : s.mode ≡ lfsr → 0 < s.reg

  first_reg-bounds : (n : ℕ) → 2 ≤ n → n ≤ 32 → (0 < first_reg fl n) × (first_reg fl n < 2 ^ n)
  unfolding first_reg starts_well
  first_reg-bounds n low high =
      ground (arith, test_of_passes starts_well 33 start_table n (omega arith))

  clamp_int-bounds :
      (low high : ℕ) (i : ℤ)
      → low ≤ high
      → (low ≤ clamp_int low high i) × (clamp_int low high i ≤ high)
  unfolding clamp_int
  clamp_int-bounds low high (pos n) h = (omega arith, omega arith)
  clamp_int-bounds low high (negsuc n) h = (omega arith, h)

  make_shift_register-IsRegister :
      (mode : ShiftMode) (length dac_bits : ℤ)
      → IsRegister (make_shift_register fl mode length dac_bits)
  unfolding make_shift_register
  make_shift_register-IsRegister mode length dac_bits =
      let n = clamp_int-bounds 2 32 length (omega arith) in
      let d = clamp_int-bounds 1 (min (clamp_int 2 32 length) 8) dac_bits (omega (arith, n)) in
      let r = first_reg-bounds (clamp_int 2 32 length) n.0 n.1 in
      record {
        length_low = n.0;
        length_high = n.1;
        dac_low = d.0;
        dac_high = d.1;
        fits = r.1;
        alive = λ e. r.0;
      }

  -- The shift itself, for the bit that the mode gives.
  clocked-alive :
      (mode : ShiftMode) (s : ShiftRegister fl)
      → IsRegister s
      → s.mode ≡ mode
      → mode ≡ lfsr
      → 0 < shift_in s.length (new_bit fl mode s).0 s.reg
  unfolding new_bit
  clocked-alive lfsr s v m e =
      shift_in-alive s.length s.reg v.length_low v.length_high v.fits (v.alive m)
  clocked-alive rungler s v m e = absurd (cc)
  clocked-alive turing s v m e = absurd (cc)
  clocked-alive open_mode s v m e = absurd (cc)

  edge-IsRegister : (s : ShiftRegister fl) → IsRegister s → IsRegister (edge fl s).1
  unfolding edge clocked
  edge-IsRegister s v = record {
    length_low = v.length_low;
    length_high = v.length_high;
    dac_low = v.dac_low;
    dac_high = v.dac_high;
    fits = shift_in-fits s.length s.reg _ v.length_low v.length_high v.fits;
    alive = λ e. clocked-alive s.mode s v refl e;
  }

  with_phase :
      (phase : F) (s : ShiftRegister fl)
      → IsRegister s
      → IsRegister (record s { clock_phase = phase })
  with_phase phase s v = record {
    length_low = v.length_low;
    length_high = v.length_high;
    dac_low = v.dac_low;
    dac_high = v.dac_high;
    fits = v.fits;
    alive = v.alive;
  }

  tick-IsRegister :
      (beat rate : F) (s : ShiftRegister fl) → IsRegister s → IsRegister (tick fl beat rate s).1
  unfolding tick
  tick-IsRegister beat rate s v = elim (Bool-cases (le rate (lit 0 1))) [
    | inl stopped ↦ rw stopped v
    | inr runs ↦
        rw runs
          (elim (Bool-cases (lt (fl.add s.clock_phase (fl.div s.clock_rate rate)) (lit 1 1))) [
            | inl waits ↦ rw waits (with_phase _ s v)
            | inr turns ↦ rw turns (edge-IsRegister _ (with_phase _ s v))
          ])
  ]

  dac_raw-lt : (s : ShiftRegister fl) → dac_raw fl s < 2 ^ s.dac_bits
  unfolding dac_raw
  dac_raw-lt s =
      subst (λ n. n < 2 ^ s.dac_bits)
        (sym (bit_and_mask s.dac_bits (s.reg / 2 ^ (s.length - s.dac_bits))))
        (mod-lt (s.reg / 2 ^ (s.length - s.dac_bits)) (two_pow_pos s.dac_bits))

  -- Any number of ticks, each with its beat and rate.
  abbrev pub ticks : List (F × F) → ShiftRegister fl → ShiftRegister fl
  ticks [] s = s
  ticks ((beat, rate) ∷ later) s = ticks later (tick fl beat rate s).1

  ticks-IsRegister :
      (calls : List (F × F)) (s : ShiftRegister fl) → IsRegister s → IsRegister (ticks calls s)
  ticks-IsRegister [] s v = v
  ticks-IsRegister ((beat, rate) ∷ later) s v =
      ticks-IsRegister later _ (tick-IsRegister beat rate s v)

  -- Whatever lengths the constructor is given and however often the modulator ticks, the register has 2 to 32 bits and no
  -- bit beyond them, the DAC reads 1 to 8 of them, and a register with linear feedback is never zero, for each of the tap
  -- masks.
  pub ticks_from_start :
      (mode : ShiftMode) (length dac_bits : ℤ) (calls : List (F × F))
      → let s = ticks calls (make_shift_register fl mode length dac_bits) in
        IsRegister s × (dac_raw fl s < 2 ^ s.dac_bits)
  ticks_from_start mode length dac_bits calls = (
    ticks-IsRegister calls _ (make_shift_register-IsRegister mode length dac_bits),
    dac_raw-lt (ticks calls (make_shift_register fl mode length dac_bits)),
  )
