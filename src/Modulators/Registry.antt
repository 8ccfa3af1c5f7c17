-- ===== src/Modulators/Registry.antt =====
-- include/nomos/rt/modulator_registry.hpp: the constructors of further types of modulators, by their names.
use nomos_rt.Common.{Bool, true, false, Option, none, some, List, ◌≡◌, ◌≢◌, ap}
use nomos_rt.Modulators.Engine.{ModulatorId, find, assign}
use nomos_rt.Modulators.Engine.Maps.{find-assign, find-assign_ne}

-- A factory makes a new modulator at each call.
abbrev pub ModulatorFactory : Type 0 → Type 0
ModulatorFactory M = Unit {0} → M

abbrev pub ModulatorRegistry : Type 0 → Type 0
ModulatorRegistry M = List (ModulatorId × ModulatorFactory M)

module _ {M : Type 0} where
  unfoldable pub register_type :
      ModulatorId → ModulatorFactory M → ModulatorRegistry M → ModulatorRegistry M
  register_type name factory r = assign name factory r

  abbrev made : Option (ModulatorFactory M) → Option M
  made none = none
  made (some factory) = some (factory tt)

  unfoldable pub make : ModulatorId → ModulatorRegistry M → Option M
  make name r = made (find name r)

  abbrev is_there : Option (ModulatorFactory M) → Bool
  is_there none = false
  is_there (some factory) = true

  unfoldable pub contains : ModulatorId → ModulatorRegistry M → Bool
  contains name r = is_there (find name r)

  -- A registered name is made by its last factory, and the other names are made as before.
  pub register_type_lem :
      (name other : ModulatorId) (factory : ModulatorFactory M) (r : ModulatorRegistry M)
      → name ≢ other
      → (make name (register_type name factory r) ≡ some (factory tt))
        × (contains name (register_type name factory r) ≡ true)
        × (make other (register_type name factory r) ≡ make other r)
  unfolding make contains register_type
  register_type_lem name other factory r ne = (
    ap made (find-assign name factory r),
    ap is_there (find-assign name factory r),
    ap made (find-assign_ne name other factory r ne),
  )
