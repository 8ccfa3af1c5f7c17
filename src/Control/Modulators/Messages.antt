-- ===== src/Control/Modulators/Messages.antt =====
-- src/rt_control_thread.cpp: `modulator_start`, `modulator_stop` and `modulator_update`.
use nomos_rt.Common.{
  ℕ, ◌||◌, if◌then◌else◌, Option, none, some, List, [], ◌∷◌, ◌++◌, codes, bytes_eq,
}
use nomos_rt.Edn.{Edn, keyword, Dictionary, Text, value_or}
use nomos_rt.Modulators.Engine as Engine
use nomos_rt.Modulators.Engine.{ModulatorEngine}
use nomos_rt.Control.Host.{Host}
use nomos_rt.Control.State.{Control, payload_map, as_float}
use nomos_rt.Control.Modulators.{name_in, keyword_or_empty, updated}
use nomos_rt.Control.Modulators.Types.{
  make_slope, make_segment, make_slew, make_shift_register, make_fractal, make_stochastic,
  make_graph, make_cv_channel_decoder, make_divine_cmos, make_statues, make_cipher, make_bools_ring,
  make_sloth_chaos, make_squid_axon, make_genie, make_lets_splosh,
}

module _ (h : Host) where
  open h use {num, M, O, find_kw}

  -- The types of the library itself, in the order of the tests.
  abbrev pub built_in : List (Text × (Dictionary num.D → Option M))
  built_in =
      (codes "slope", make_slope h)
      ∷ (codes "segment", make_segment h)
      ∷ (codes "slew", make_slew h)
      ∷ (codes "shift-register", make_shift_register h)
      ∷ (codes "fractal", make_fractal h)
      ∷ (codes "stochastic", make_stochastic h)
      ∷ (codes "graph", make_graph h)
      ∷ (codes "cv-channel-decoder", make_cv_channel_decoder h)
      ∷ (codes "divine-cmos", make_divine_cmos h)
      ∷ (codes "statues", make_statues h)
      ∷ (codes "cipher", make_cipher h)
      ∷ (codes "bools-ring", make_bools_ring h)
      ∷ (codes "sloth-chaos", make_sloth_chaos h)
      ∷ (codes "squid-axon", make_squid_axon h)
      ∷ (codes "genie", make_genie h)
      ∷ (codes "lets-splosh", make_lets_splosh h)
      ∷ []

  -- The parameters of an extension: every entry with a keyword and a number, but `id` and `type`.
  unfoldable pub extension_param : Text → Option num.F → List (Text × num.F)
  extension_param key none = []
  extension_param key (some value) =
      if bytes_eq key (codes "id") || bytes_eq key (codes "type") then [] else (key, value) ∷ []

  unfoldable pub extension_params : Dictionary num.D → List (Text × num.F)
  unfolding extension_param as_float
  extension_params [] = []
  extension_params ((keyword key, v) ∷ es) =
      extension_param key (as_float h (some v)) ++ extension_params es
  extension_params ((k, v) ∷ es) = extension_params es

  unfoldable pub make_extension : Text → Dictionary num.D → Option M
  unfolding extension_params updated
  make_extension type_name m = elim (h.registry) [
    | none ↦ none
    | some factories ↦ elim (factories type_name) [
      | none ↦ none
      | some modulator ↦ some (updated h (extension_params m) modulator)
    ]
  ]

  -- The chain of `else if`.
  unfoldable pub made_by :
      List (Text × (Dictionary num.D → Option M)) → Text → Dictionary num.D → Option M
  unfolding make_extension
  made_by [] type_name m = make_extension type_name m
  made_by ((name, made) ∷ types) type_name m =
      if bytes_eq type_name name then made m else made_by types type_name m

  unfoldable pub make_modulator : Text → Dictionary num.D → Option M
  unfolding made_by
  make_modulator type_name m = made_by built_in type_name m

  abbrev pub start : Text → M → ModulatorEngine M O → ModulatorEngine M O
  start = Engine.start h.update_of h.tick_of

  abbrev pub stop : Text → ModulatorEngine M O → ModulatorEngine M O
  stop = Engine.stop h.update_of h.tick_of

  abbrev pub update_param : Text → Text → num.F → ModulatorEngine M O → ModulatorEngine M O
  update_param = Engine.update_param h.update_of h.tick_of

  unfoldable pub start_made : Text → Option M → ModulatorEngine M O → ModulatorEngine M O
  start_made id none e = e
  start_made id (some modulator) e = start id modulator e

  -- `id.empty()` ends each of the handlers.
  unfoldable pub start_named :
      Text → Edn num.D → Dictionary num.D → ModulatorEngine M O → ModulatorEngine M O
  unfolding start_made
  start_named [] type_v m e = e
  start_named (b ∷ id) type_v m e =
      start_made (b ∷ id) (make_modulator (keyword_or_empty (some type_v)) m) e

  unfoldable pub start_checked :
      Option (Edn num.D)
      → Option (Edn num.D)
      → Dictionary num.D
      → ModulatorEngine M O
      → ModulatorEngine M O
  unfolding start_named name_in
  start_checked (some id_v) (some type_v) m e = start_named (name_in id_v) type_v m e
  start_checked id_v type_v m e = e

  unfoldable pub modulator_start : Dictionary num.D → ModulatorEngine M O → ModulatorEngine M O
  unfolding start_checked
  modulator_start m e = start_checked (find_kw m (codes "id")) (find_kw m (codes "type")) m e

  unfoldable pub stop_named : Text → ModulatorEngine M O → ModulatorEngine M O
  stop_named [] e = e
  stop_named (b ∷ id) e = stop (b ∷ id) e

  unfoldable pub stop_checked : Option (Edn num.D) → ModulatorEngine M O → ModulatorEngine M O
  unfolding stop_named name_in
  stop_checked none e = e
  stop_checked (some id_v) e = stop_named (name_in id_v) e

  unfoldable pub modulator_stop : Dictionary num.D → ModulatorEngine M O → ModulatorEngine M O
  unfolding stop_checked
  modulator_stop m e = stop_checked (find_kw m (codes "id")) e

  unfoldable pub update_named : Text → Text → num.F → ModulatorEngine M O → ModulatorEngine M O
  update_named [] key value e = e
  update_named (b ∷ id) [] value e = e
  update_named (b ∷ id) (k ∷ key) value e = update_param (b ∷ id) (k ∷ key) value e

  unfoldable pub update_checked :
      Option (Edn num.D)
      → Option (Edn num.D)
      → Option (Edn num.D)
      → ModulatorEngine M O
      → ModulatorEngine M O
  unfolding update_named name_in as_float
  update_checked (some id_v) (some key_v) (some value_v) e =
      update_named (name_in id_v) (name_in key_v)
        (value_or (as_float h (some value_v)) (num.float_lit 0 1)) e
  update_checked id_v key_v value_v e = e

  unfoldable pub modulator_update : Dictionary num.D → ModulatorEngine M O → ModulatorEngine M O
  unfolding update_checked
  modulator_update m e =
      update_checked (find_kw m (codes "id")) (find_kw m (codes "key")) (find_kw m (codes "value"))
        e

  -- A handler for the engine, if there is one.
  unfoldable pub engine_payload :
      (Dictionary num.D → ModulatorEngine M O → ModulatorEngine M O)
      → Option (Dictionary num.D)
      → Option (ModulatorEngine M O)
      → Control h
      → Control h
  engine_payload handle none o c = c
  engine_payload handle (some m) none c = c
  engine_payload handle (some m) (some e) c = record c { engine = some (handle m e) }

  unfoldable pub engine_message :
      (Dictionary num.D → ModulatorEngine M O → ModulatorEngine M O)
      → List ℕ
      → Control h
      → Control h
  unfolding engine_payload
  engine_message handle payload c = engine_payload handle (payload_map h payload) c.engine c
