-- ===== src/Modulators/Slew.antt =====
-- src/slew_modulator.cpp: a lag, and a generator of one rise and one fall.
pub mod Edges
mod Tests
use nomos_rt.Common.{ℕ, Bool, true, false, ◌&&◌, if◌then◌else◌, codes, bytes_eq}
use nomos_rt.Edn.{Text}
use nomos_rt.Modulators.Floats.{Floats, ModulatorOutput, blank_output, clamp}

pub data Stage : Type 0 where
  idle rising falling : Stage

abbrev pub is_idle : Stage → Bool
is_idle idle = true
is_idle rising = false
is_idle falling = false

module _ (fl : Floats) where
  open fl use {F, lit, lt, le}

  pub record SlewModulator : Type 0 where
    pub rise : F
    pub fall : F
    pub input : F
    pub depth : F
    pub cycle : Bool
    pub stage : Stage
    pub current : F
    pub trig_pending : Bool
    pub eor : Bool
    pub eoc : Bool

  unfoldable pub make_slew_modulator : SlewModulator
  make_slew_modulator = record {
    rise = lit 1 10;
    fall = lit 1 10;
    input = lit 0 1;
    depth = lit 1 1;
    cycle = false;
    stage = idle;
    current = lit 0 1;
    trig_pending = false;
    eor = false;
    eoc = false;
  }

  unfoldable pub coeff : F → F → F
  coeff time_s rate = fl.sub (lit 1 1) (fl.exp (fl.div (fl.neg (lit 22 10)) (fl.mul time_s rate)))

  abbrev pub approach : F → F → F → SlewModulator → SlewModulator
  approach target time_s rate s = record s {
    current = fl.add s.current (fl.mul (fl.sub target s.current) (coeff time_s rate));
  }

  -- The trigger, and the cycle.
  unfoldable pub triggered : SlewModulator → SlewModulator
  triggered s =
      if s.trig_pending
      then record s { trig_pending = false; current = fl.neg (lit 1 1); stage = rising }
      else s

  unfoldable pub cycled : SlewModulator → SlewModulator
  cycled s = if s.cycle && is_idle s.stage then record s { stage = rising } else s

  abbrev pub k_thresh : F
  k_thresh = lit 1 1000

  -- The end of the rise and of the fall.
  unfoldable pub turned : Stage → SlewModulator → SlewModulator
  turned idle s = s
  turned rising s =
      if le (fl.sub (lit 1 1) k_thresh) s.current
      then record s { current = lit 1 1; eor = true; stage = falling }
      else s
  turned falling s =
      if le s.current (fl.add (fl.neg (lit 1 1)) k_thresh)
      then record s { current = fl.neg (lit 1 1); eoc = true; stage = idle }
      else s

  unfoldable pub moved : F → Stage → SlewModulator → SlewModulator
  unfolding coeff turned
  moved rate idle s = approach s.input (if le s.current s.input then s.rise else s.fall) rate s
  moved rate rising s = turned rising (approach (lit 1 1) s.rise rate s)
  moved rate falling s = turned falling (approach (fl.neg (lit 1 1)) s.fall rate s)

  abbrev pub slewed_output : SlewModulator → ModulatorOutput F
  slewed_output s = record (blank_output fl) {
    cv = fl.mul s.current s.depth;
    gate = s.eor;
    gate2 = s.eoc;
  }

  abbrev pub quiet : SlewModulator → SlewModulator
  quiet s = record s { eor = false; eoc = false }

  -- `tick` behind its guard.
  unfoldable pub stepped : F → SlewModulator → SlewModulator
  unfolding triggered cycled moved
  stepped rate s = let t = cycled (triggered s) in moved rate t.stage t

  unfoldable pub tick : F → SlewModulator → ModulatorOutput F × SlewModulator
  unfolding stepped
  tick rate s =
      if le rate (lit 0 1)
      then (slewed_output (quiet s), quiet s)
      else (let t = stepped rate (quiet s) in (slewed_output t, t))

  unfoldable pub update : Text → F → SlewModulator → SlewModulator
  update key value s =
      if bytes_eq key (codes "rise")
      then record s { rise = clamp fl value (lit 1 1000) (lit 10 1) }
      else if bytes_eq key (codes "fall")
      then record s { fall = clamp fl value (lit 1 1000) (lit 10 1) }
      else if bytes_eq key (codes "input")
      then record s { input = clamp fl value (fl.neg (lit 1 1)) (lit 1 1) }
      else if bytes_eq key (codes "depth")
      then record s { depth = clamp fl value (lit 0 1) (lit 1 1) }
      else if bytes_eq key (codes "cycle")
      then record s { cycle = lt (lit 1 2) value }
      else if bytes_eq key (codes "trig") && lt (lit 1 2) value
      then record s { trig_pending = true }
      else s
