-- ===== src/Control/Modulators.antt =====
-- src/rt_control_thread.cpp: the messages for the modulator engine. The tables of keywords and the readers of fields are
-- here, the types of modulators in `Types`, and what is done with them in `Messages`.
pub mod Types
pub mod Messages
pub mod Isolation
use nomos_rt.Common.{
  ℕ, ◌+◌, Option, none, some, List, [], ◌∷◌, ◌++◌, codes, bytes_eq, get_elem?, if◌then◌else◌,
}
use nomos_rt.Edn.{Edn, string, keyword, Dictionary, Text, as_keyword, as_map, as_vector, value_or}
use nomos_rt.Control.Host.{Host}
use nomos_rt.Control.State.{get_float}

-- `find` in a table of keywords, with the value that stays if there is no entry.
unfoldable pub from_table : {A : Type 0} → List (Text × A) → Option Text → A → A
from_table table none default = default
from_table [] (some name) default = default
from_table ((key, a) ∷ table) (some name) default =
    if bytes_eq key name then a else from_table table (some name) default

-- The name in a keyword or in a string; empty for anything else.
unfoldable pub name_in : {D : Type 0} → Edn D → Text
name_in (keyword name) = name
name_in (string name) = name
name_in e = []

-- The name of a keyword, or nothing.
abbrev pub keyword_or_empty : {D : Type 0} → Option (Edn D) → Text
keyword_or_empty e = value_or (as_keyword e) []

-- A prefix and `char('0' + i)`.
abbrev pub numbered : Text → ℕ → Text
numbered prefix i = prefix ++ (b'0' + i) ∷ []

module _ (h : Host) where
  -- `mod->update(key, value)` for each entry in turn.
  unfoldable pub updated : List (Text × h.num.F) → h.M → h.M
  updated [] m = m
  updated ((key, value) ∷ params) m = updated params (h.update_of key value m)

  -- `{kw, get_f(kw, n / d)}`
  unfoldable pub field : Dictionary h.num.D → Text → ℕ → ℕ → Text × h.num.F
  unfolding get_float
  field m kw n d = (kw, get_float h m kw (h.num.float_lit n d))

  -- `get_src`, `get_sloth_src` and `get_squid_src`: the keyword in front of a vector.
  unfoldable pub first_keyword : Option (Edn h.num.D) → Text
  first_keyword v = keyword_or_empty (get_elem? (value_or (as_vector v) []) 0)

  unfoldable pub get_src : Dictionary h.num.D → Text → Text
  unfolding first_keyword
  get_src m kw = first_keyword (h.find_kw m kw)

  -- `get_in_src` and `get_ins_src`
  unfoldable pub get_in_src : Dictionary h.num.D → Text → Text
  unfolding first_keyword
  get_in_src m kw = elim (as_map (h.find_kw m (codes "ins"))) [
    | none ↦ []
    | some ins ↦ first_keyword (h.find_kw ins kw)
  ]
