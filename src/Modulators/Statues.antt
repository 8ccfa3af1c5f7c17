-- ===== src/Modulators/Statues.antt =====
-- src/statues_modulator.cpp: eight slots that hold what was last written at their address.
pub mod Slots
use nomos_rt.Common.{
  ℕ, ◌+◌, Bool, true, false, not, min, bit_and, bit_or, ◌==◌, if◌then◌else◌, Option, none, some,
  List, [], ◌∷◌, replicate, set, get_or, codes, bytes_eq,
}
use nomos_rt.Edn.{Text}
use nomos_rt.Modulators.Floats.{Floats, ModulatorOutput, blank_output, clamp}
use nomos_rt.Modulators.ShiftRegister.{clamp_int}
use nomos_rt.Modulators.Sources.{Engine, Source, unread, read, source_of, cv_or, fill_outputs}

module _ (fl : Floats) where
  open fl use {F, lit, lt, neg, rounded}

  -- The address before the first tick is -1, which is `none`.
  pub record Statues : Type 0 where
    pub in_source_id : Text
    pub addr_source_id : Text
    pub slots : List F
    pub in_ : F
    pub addr : ℕ
    pub addr_bits : List Bool
    pub use_addr_bits : Bool
    pub prev_addr : Option ℕ

  unfoldable pub make_statues : Text → Text → Statues
  make_statues in_source_id addr_source_id = record {
    in_source_id = in_source_id;
    addr_source_id = addr_source_id;
    slots = replicate 8 (lit 0 1);
    in_ = lit 0 1;
    addr = 0;
    addr_bits = false ∷ false ∷ false ∷ [];
    use_addr_bits = false;
    prev_addr = none;
  }

  unfoldable pub address_of_bits : List Bool → ℕ
  address_of_bits bits =
      bit_or (bit_or (if get_or bits 0 false then 1 else 0) (if get_or bits 1 false then 2 else 0))
        (if get_or bits 2 false then 4 else 0)

  unfoldable pub address_from : Source F → Statues → ℕ
  unfolding address_of_bits
  address_from (read (some out)) s = bit_and out.state 7
  address_from (read none) s = s.addr
  address_from unread s = if s.use_addr_bits then address_of_bits s.addr_bits else s.addr

  unfoldable pub address : Engine fl → Statues → ℕ
  address engine s = min (address_from (source_of fl engine s.addr_source_id) s) 7

  unfoldable pub in_value : Engine fl → Statues → F
  in_value engine s = cv_or fl (source_of fl engine s.in_source_id) s.in_

  abbrev pub is_other : ℕ → Option ℕ → Bool
  is_other addr none = true
  is_other addr (some prev) = not (addr == prev)

  unfoldable pub tick : Engine fl → Statues → ModulatorOutput F × Statues
  tick engine s =
      let in_val = in_value engine s in
      let addr = address engine s in
      let slots = set s.slots addr in_val in
      (
        record (blank_output fl) {
          cv = get_or slots addr (lit 0 1);
          aux = in_val;
          gate = is_other addr s.prev_addr;
          state = addr;
          outputs = fill_outputs fl slots 0 (blank_output fl).outputs;
        },
        record s { slots = slots; prev_addr = some addr },
      )

  abbrev pub with_bit : ℕ → Bool → Statues → Statues
  with_bit i b s = record s { addr_bits = set s.addr_bits i b; use_addr_bits = true }

  unfoldable pub update : Text → F → Statues → Statues
  unfolding clamp_int
  update key value s =
      if bytes_eq key (codes "in")
      then record s { in_ = clamp fl value (neg (lit 1 1)) (lit 1 1) }
      else if bytes_eq key (codes "addr")
      then record s { addr = clamp_int 0 7 (rounded value); use_addr_bits = false }
      else if bytes_eq key (codes "addr0")
      then with_bit 0 (lt (lit 1 2) value) s
      else if bytes_eq key (codes "addr1")
      then with_bit 1 (lt (lit 1 2) value) s
      else if bytes_eq key (codes "addr2")
      then with_bit 2 (lt (lit 1 2) value) s
      else s
