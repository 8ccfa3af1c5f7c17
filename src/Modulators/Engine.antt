-- ===== src/Modulators/Engine.antt =====
-- include/nomos/rt/modulator_engine.hpp and src/modulator_engine.cpp. A modulator is a state `M` with its two virtual
-- functions as parameters: `tick_of` may read the last outputs of all modulators, as a graph modulator does, and gives
-- an output `O`. The table behind the RCU pointer is always there, since the constructor stores one. Writers and the
-- tick thread take their turns in this model.
pub mod Maps
pub mod Table
pub mod Ticks
pub mod Shared
mod Tests
use nomos_rt.Common.{
  ℕ, Bool, true, false, not, if◌then◌else◌, Option, none, some, List, [], ◌∷◌, ◌++◌, length,
  bytes_eq,
}

abbrev pub ModulatorId : Type 0
ModulatorId = List ℕ

-- A map from ids: `find`, `operator[]` with an assignment, and `erase`.
unfoldable pub find : {A : Type 0} → ModulatorId → List (ModulatorId × A) → Option A
find id [] = none
find id ((key, a) ∷ rest) = if bytes_eq key id then some a else find id rest

unfoldable pub assign :
    {A : Type 0} → ModulatorId → A → List (ModulatorId × A) → List (ModulatorId × A)
assign id a [] = (id, a) ∷ []
assign id a ((key, b) ∷ rest) =
    if bytes_eq key id then (key, a) ∷ rest else (key, b) ∷ assign id a rest

unfoldable pub erase : {A : Type 0} → ModulatorId → List (ModulatorId × A) → List (ModulatorId × A)
erase id [] = []
erase id ((key, a) ∷ rest) =
    let rest' = erase id rest in if bytes_eq key id then rest' else (key, a) ∷ rest'

-- `std::remove` and `erase` on the vector of ids.
unfoldable pub remove : ModulatorId → List ModulatorId → List ModulatorId
remove id [] = []
remove id (key ∷ rest) =
    let rest' = remove id rest in if bytes_eq key id then rest' else key ∷ rest'

pub record ModulatorEngine (M O : Type 0) : Type 0 where
  pub mods : List (ModulatorId × M)
  pub tick_order : List ModulatorId
  pub last_outputs : List (ModulatorId × O)

module _ {M O V B : Type 0} (update_of : List ℕ → V → M → M)
    (tick_of : (ModulatorId → Option O) → B → V → M → O × M) where
  unfoldable pub appended : Option M → ModulatorId → List ModulatorId → List ModulatorId
  appended none id order = order ++ id ∷ []
  appended (some m) id order = order

  unfoldable pub start : ModulatorId → M → ModulatorEngine M O → ModulatorEngine M O
  start id modulator e = record e {
    mods = assign id modulator e.mods;
    tick_order = appended (find id e.mods) id e.tick_order;
  }

  unfoldable pub stop : ModulatorId → ModulatorEngine M O → ModulatorEngine M O
  stop id e = record e { mods = erase id e.mods; tick_order = remove id e.tick_order }

  unfoldable pub update_mods :
      ModulatorId → (M → M) → Option M → List (ModulatorId × M) → List (ModulatorId × M)
  update_mods id change none mods = mods
  update_mods id change (some m) mods = assign id (change m) mods

  unfoldable pub update_param : ModulatorId → List ℕ → V → ModulatorEngine M O → ModulatorEngine M O
  update_param id key value e = record e {
    mods = update_mods id (update_of key value) (find id e.mods) e.mods;
  }

  unfoldable pub last_output : ModulatorId → ModulatorEngine M O → Option O
  last_output id e = find id e.last_outputs

  unfoldable pub size : ModulatorEngine M O → ℕ
  size e = length e.mods

  -- One turn of the loop of `tick`: the outputs given to the callback, and the engine.
  unfoldable pub tick_one :
      B
      → V
      → ModulatorId
      → Option M
      → ModulatorEngine M O
      → List (ModulatorId × O) × ModulatorEngine M O
  tick_one beat rate id none e = ([], e)
  tick_one beat rate id (some m) e =
      let (out, m') = tick_of (λ other. last_output other e) beat rate m in
      (
        (id, out) ∷ [],
        record e { mods = assign id m' e.mods; last_outputs = assign id out e.last_outputs },
      )

  unfoldable pub tick_each :
      B → V → List ModulatorId → ModulatorEngine M O → List (ModulatorId × O) × ModulatorEngine M O
  tick_each beat rate [] e = ([], e)
  tick_each beat rate (id ∷ ids) e =
      let (outs, e') = tick_one beat rate id (find id e.mods) e in
      let (more, e'') = tick_each beat rate ids e' in (outs ++ more, e'')

  unfoldable pub tick : B → V → ModulatorEngine M O → List (ModulatorId × O) × ModulatorEngine M O
  tick beat rate e = tick_each beat rate e.tick_order e
