-- ===== src/Modulators/Engine/Tests.antt =====
-- A run of the engine with counters: an output is the count and the first byte of the id.
use nomos_rt.Common.{ℕ, some, ◌+◌, Option, List, [], ◌∷◌, ◌≡◌, refl}
use nomos_rt.Rcu.{RcuManaged, make_rcu_managed, read_lock, load_ptr, exchange, deref}
use nomos_rt.Rcu.Steps.{lock, load, swap, here, later, Reach, While, opened, kept_open}
use nomos_rt.Modulators.Engine.Shared.{
  Table, empty_table, start_call, table_of, stored, IsStored, IsTable, tick_sees_table,
}
use nomos_rt.Modulators.Engine.{
  ModulatorId, find, assign, ModulatorEngine, appended, start, last_output, tick_one, tick_each,
  tick,
}
use nomos_rt.Modulators.Engine.Table.{IsListed, control-IsListed}
use nomos_rt.Modulators.Engine.Ticks.{latest, tick-last_output}

abbrev update : List ℕ → ℕ → ℕ → ℕ
update key value m = value

abbrev counter : (ModulatorId → Option ℕ) → ℕ → ℕ → ℕ → ℕ × ℕ
counter outputs beat rate m = (m + 1, m + 1)

abbrev empty_engine : ModulatorEngine ℕ ℕ
empty_engine = record { mods = []; tick_order = []; last_outputs = [] }

empty-IsListed : IsListed empty_engine
unfolding find
empty-IsListed id = refl

abbrev lfo : ModulatorId
lfo = 108 ∷ []

abbrev env : ModulatorId
env = 101 ∷ []

abbrev engine : ModulatorEngine ℕ ℕ
engine = start update counter env 5 (start update counter lfo 0 empty_engine)

lfo-IsListed : IsListed (start update counter lfo 0 empty_engine)
lfo-IsListed = (control-IsListed update counter lfo 0 [] 3 empty_engine empty-IsListed).0

engine-IsListed : IsListed engine
engine-IsListed =
    (control-IsListed update counter env 5 [] 3 (start update counter lfo 0 empty_engine)
      lfo-IsListed).0

-- The outputs come in the order of the starts.
first_tick : (tick update counter 0 1 engine).0 ≡ (lfo, 1) ∷ (env, 6) ∷ []
unfolding tick tick_each tick_one start appended find assign
first_tick = refl

tick-last_output_example :
    let (outs, e') = tick update counter 0 1 engine in
    last_output update counter lfo e'
    ≡ latest update counter lfo outs (last_output update counter lfo engine)
tick-last_output_example = tick-last_output update counter 0 1 lfo engine

-- A tick that has its guard while a modulator is started.
abbrev started_table : Table ℕ
started_table = table_of update counter (start update counter lfo 0 empty_engine)

abbrev in_tick : RcuManaged (Table ℕ)
in_tick = load_ptr 0 (read_lock 0 (make_rcu_managed (some empty_table)))

in_tick-Reach : Reach (IsStored update counter) (some empty_table) in_tick
unfolding make_rcu_managed read_lock
in_tick-Reach = later (later here (lock 0 refl)) (load 0 refl)

start_under_tick :
    While (IsStored update counter) 0 0 in_tick (exchange (some started_table) in_tick)
unfolding make_rcu_managed read_lock load_ptr exchange stored
start_under_tick =
    kept_open (opened refl)
      (swap (some started_table) (start_call lfo 0, started_table, refl, refl) refl) refl

tick_sees_table_example :
    (seen : Table ℕ) × (deref 0 in_tick ≡ some seen)
    × (deref 0 (exchange (some started_table) in_tick) ≡ some seen)
    × IsTable update counter seen
tick_sees_table_example = tick_sees_table update counter 0 0 in_tick-Reach start_under_tick
