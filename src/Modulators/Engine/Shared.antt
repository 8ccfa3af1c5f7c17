-- ===== src/Modulators/Engine/Shared.antt =====
-- The table of the engine behind its RCU pointer: what `start` and `stop` copy, change and store while the tick thread reads.
-- The write mutex makes the calls of writers follow one another. A modulator is behind a shared pointer, which is `M`.
use nomos_rt.Common.{ℕ, Option, none, some, List, [], ◌≡◌, refl, subst, sym}
use mathlib.Core.Option.{some_inj}
use nomos_rt.Rcu.{RcuManaged, unsafe_get, deref}
use nomos_rt.Rcu.Steps.{Reach, While}
use nomos_rt.Rcu.Objects.{AllObjects, AllObjects-unsafe_get, Reach-AllObjects}
use nomos_rt.Rcu.Safety.{guard_stable}
use nomos_rt.Modulators.Engine.{ModulatorId, find, ModulatorEngine, start, stop}
use nomos_rt.Modulators.Engine.Table.{IsListed, start-IsListed, stop-IsListed}

-- `table_t`
pub record Table (M : Type 0) : Type 0 where
  pub mods : List (ModulatorId × M)
  pub tick_order : List ModulatorId

abbrev pub empty_table : {M : Type 0} → Table M
empty_table = record { mods = []; tick_order = [] }

-- The calls that store a table.
pub data Call (M : Type 0) : Type 0 where
  start_call : ModulatorId → M → Call M
  stop_call : ModulatorId → Call M

module _ {M O V B : Type 0} (update_of : List ℕ → V → M → M)
    (tick_of : (ModulatorId → Option O) → B → V → M → O × M) where
  -- A table as an engine that has recorded no outputs, on which `start` and `stop` change the table only.
  abbrev pub engine_of : Table M → ModulatorEngine M O
  engine_of t = record { mods = t.mods; tick_order = t.tick_order; last_outputs = [] }

  abbrev pub table_of : ModulatorEngine M O → Table M
  table_of e = record { mods = e.mods; tick_order = e.tick_order }

  -- The table that is stored, from the one behind the pointer: a copy with the change. Without a table `stop` returns.
  unfoldable pub stored : Call M → Option (Table M) → Option (Table M)
  stored (start_call id m) none =
      some (table_of (start update_of tick_of id m (engine_of empty_table)))
  stored (start_call id m) (some t) = some (table_of (start update_of tick_of id m (engine_of t)))
  stored (stop_call id) none = none
  stored (stop_call id) (some t) = some (table_of (stop update_of tick_of id (engine_of t)))

  -- What a writer may store: the result of some call on the table that is there.
  abbrev pub IsStored : RcuManaged (Table M) → Option (Table M) → Type 0
  IsStored s next =
      (c : Call M) × (t : Table M) × (stored c (unsafe_get s) ≡ some t) × (next ≡ some t)

  abbrev pub IsTable : Table M → Type 0
  IsTable t = IsListed (engine_of t)

  stored-IsTable :
      (c : Call M) (old : Option (Table M)) (t : Table M)
      → ((o : Table M) → old ≡ some o → IsTable o)
      → stored c old ≡ some t
      → IsTable t
  unfolding stored find
  stored-IsTable (start_call id m) none t h e =
      subst IsTable (some_inj.0 e)
        (start-IsListed update_of tick_of id m (engine_of empty_table) (λ i. refl))
  stored-IsTable (start_call id m) (some o) t h e =
      subst IsTable (some_inj.0 e) (start-IsListed update_of tick_of id m (engine_of o) (h o refl))
  stored-IsTable (stop_call id) none t h e = cc
  stored-IsTable (stop_call id) (some o) t h e =
      subst IsTable (some_inj.0 e) (stop-IsListed update_of tick_of id (engine_of o) (h o refl))

  -- While a tick has its guard, whatever is started, stopped, read and deleted, it goes through one and the same table, whose
  -- tick order lists each of its modulators once.
  pub tick_sees_table :
      (i a : ℕ) {s t : RcuManaged (Table M)}
      → Reach IsStored (some empty_table) s
      → While IsStored i a s t
      → (seen : Table M) × (deref a s ≡ some seen) × (deref a t ≡ some seen) × IsTable seen
  unfolding deref find
  tick_sees_table i a {s} reach steps =
      let (seen, before, now) = guard_stable (some empty_table) i a reach steps in
      let tables = Reach-AllObjects IsTable next (some empty_table) first reach in
      (seen, before, now, tables a seen before)
    where
      first : (v : Table M) → some empty_table ≡ some v → IsTable v
      first v e = subst IsTable (some_inj.0 e) (λ id. refl)

      next :
          (s : RcuManaged (Table M))
          → AllObjects IsTable s
          → (v : Table M) → IsStored s (some v)
          → IsTable v
      next s h v (c, t, made, same) =
          subst IsTable (sym (some_inj.0 same))
            (stored-IsTable c (unsafe_get s) t (AllObjects-unsafe_get IsTable s h) made)
