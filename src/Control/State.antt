-- ===== src/Control/State.antt =====
-- The state of the control thread and of what it is wired to (`config`), and the reading of fields of a message.
use nomos_rt.Common.{ℕ, if◌then◌else◌, Option, none, some, List, length, ◌==◌}
use nomos_rt.SpscQueue.{SpscQueue}
use nomos_rt.Events.{ClapEvent}
use nomos_rt.Edn.{Edn, int, double, Dictionary, Text, as_int, as_map, value_or}
use nomos_rt.Session.{Session}
use nomos_rt.Scheduler.{OscEvent, ScheduledEvent, blank_event}
use nomos_rt.Modulators.Engine.{ModulatorEngine}
use nomos_rt.Control.Host.{Host}

-- `param_event`; its time is the default one.
pub record ParamEvent (D : Type 0) : Type 0 where
  pub path : Edn D
  pub value : Edn D

abbrev pub param_queue_capacity : ℕ
param_queue_capacity = 512

module _ (h : Host) where
  -- A pointer of `config` that is null is `none`. `midi`, `osc`, `tty` and `replies` list what has been sent.
  pub record Control : Type 0 where
    pub session : Option (Session h.num.D)
    pub params : SpscQueue (ParamEvent h.num.D)
    pub inputs : SpscQueue (ClapEvent h.num.D)
    pub staging : Option (SpscQueue (ScheduledEvent h.num.D))
    pub engine : Option (ModulatorEngine h.M h.O)
    pub midi : Option (List (List ℕ))
    pub osc : Option (List OscEvent)
    pub lua : Option h.Lua
    pub tty : Option (List Text)
    pub swap : Option h.Swap
    pub replies : List (ℕ × Text)

  abbrev pub zero_double : h.num.D
  zero_double = h.num.lit 0 1

  abbrev pub blank_input : ClapEvent h.num.D
  blank_input = (blank_event zero_double).event

  abbrev pub blank_scheduled : ScheduledEvent h.num.D
  blank_scheduled = blank_event zero_double

  -- The payload as a map: `none` if it is empty, does not parse or is not a map.
  unfoldable pub payload_map : List ℕ → Option (Dictionary h.num.D)
  payload_map payload = if length payload == 0 then none else as_map (h.parse payload)

  -- `get_i`, `get_dbl` and `get_f`
  unfoldable pub get_int : Dictionary h.num.D → Text → ℕ → ℕ
  get_int m kw default = value_or (as_int (h.find_kw m kw)) default

  unfoldable pub double_or : Option (Edn h.num.D) → h.num.D → h.num.D
  double_or (some (double x)) default = x
  double_or (some (int n)) default = h.num.of_int64 n
  double_or o default = default

  unfoldable pub get_double : Dictionary h.num.D → Text → h.num.D → h.num.D
  get_double m kw default = double_or (h.find_kw m kw) default

  unfoldable pub as_float : Option (Edn h.num.D) → Option h.num.F
  as_float (some (double x)) = some (h.num.to_float x)
  as_float (some (int n)) = some (h.num.float_of_int64 n)
  as_float o = none

  unfoldable pub get_float : Dictionary h.num.D → Text → h.num.F → h.num.F
  get_float m kw default = value_or (as_float (h.find_kw m kw)) default
