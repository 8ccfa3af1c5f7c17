-- ===== src/Control/Host.antt =====
-- What the control thread is given: numbers, the EDN library, the database, the constructors of the modulators, the Lua
-- participant and the callback that swaps a WASM module. None of it is written in src/rt_control_thread.cpp.
use nomos_rt.Common.{ℕ, Bool, Option, List}
use nomos_rt.Numbers.{Doubles}
use nomos_rt.Edn.{Edn, Dictionary, Text}
use nomos_rt.Session.{LogEntry}
use nomos_rt.Modulators.Segment.{SegmentDef}
use nomos_rt.Modulators.CvDecoder.{SourceField}
use nomos_rt.Modulators.BoolsRing.{RingMode}
use nomos_rt.Modulators.ShiftRegister.{ShiftMode}
use nomos_rt.Modulators.Engine.{ModulatorId}

pub data SlothVariant : Type 0 where
  torpor apathy inertia triple : SlothVariant

-- The calls of constructors of modulators, with their arguments.
pub data Made (D F : Type 0) : Type 0 where
  slope : Made D F
  segment : List (SegmentDef F) → Made D F
  slew : Made D F
  shift_register : ShiftMode → ℕ → ℕ → Made D F
  fractal : Made D F
  stochastic : Made D F
  graph : Edn D → List (Text × F) → Made D F
  cv_channel_decoder : ℕ → Text → SourceField → Made D F
  divine_cmos : Text → Text → Made D F
  statues : Text → Text → Made D F
  cipher : Text → Text → Text → Text → Made D F
  bools_ring : RingMode → Text → Text → Text → Text → Text → Made D F
  sloth_chaos : SlothVariant → Text → Made D F
  squid_axon : Text → Text → Text → Text → Made D F
  genie : ℕ → Made D F
  lets_splosh : Text → Text → Text → Text → Made D F

pub record Host : Type 1 where
  pub num : Doubles
  -- Modulators and their outputs.
  pub M : Type 0
  pub O : Type 0
  pub make : Made num.D num.F → M
  pub update_of : Text → num.F → M → M
  pub tick_of : (ModulatorId → Option O) → num.D → num.F → M → O × M
  -- `ext_registry->make`; without a registry there is no function.
  pub registry : Option (Text → Option M)
  -- `edn::parse` and `find_kw`
  pub parse : List ℕ → Option (Edn num.D)
  pub find_kw : Dictionary num.D → Text → Option (Edn num.D)
  -- Whether the database opens, and a `txlog::entry` as it is constructed.
  pub opens : Bool
  pub blank_entry : LogEntry num.D
  -- `inet_pton` of an address.
  pub inet_pton : Text → Option ℕ
  -- `luajit_participant::eval`
  pub Lua : Type 0
  pub eval : Text → Lua → Text × Lua
  -- `wasm_swap_fn`
  pub Swap : Type 0
  pub swap : Text → Text → Swap → Bool × Swap
