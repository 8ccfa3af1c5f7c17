-- ===== src/Events.antt =====
-- The CLAP events that the runtime moves: the members of `clap_event_union`
-- (include/nomos/rt/input_event.hpp) that the code reads and writes. CLAP itself is a third-party
-- header. A signed field of w bits is its bit pattern below 2 ^ w; `V` is the type of doubles.
use nomos_rt.Common.{ℕ}

pub record Note (V : Type 0) : Type 0 where
  pub time : ℕ
  pub note_id : ℕ
  pub port_index : ℕ
  pub channel : ℕ
  pub key : ℕ
  pub velocity : V

pub record Midi : Type 0 where
  pub time : ℕ
  pub port_index : ℕ
  pub data0 : ℕ
  pub data1 : ℕ
  pub data2 : ℕ

-- By `header.type`; `other` is any type that the code does not name.
pub data ClapEvent (V : Type 0) : Type 0 where
  note_on : Note V → ClapEvent V
  note_off : Note V → ClapEvent V
  midi : Midi → ClapEvent V
  other : ℕ → ClapEvent V
