-- ===== src/Edn.antt =====
-- The values of the EDN library that the code takes apart with `is` and `get`. The library is third-party; its parser
-- and its lookup of a keyword in a map are parameters (`Control.Host`). An integer is its pattern of 64 bits, a text
-- its bytes, and `D` the type of doubles.
use nomos_rt.Common.{ℕ, Bool, Option, none, some, List, [], ◌∷◌}

abbrev pub Text : Type 0
Text = List ℕ

-- A keyword is its `name`. `untagged` is a tagged value without a value behind the tag, and `other` any
-- alternative that the code does not name.
mutual
  pub data Edn (D : Type 0) : Type 0 where
    nil : Edn D
    bool : Bool → Edn D
    int : ℕ → Edn D
    double : D → Edn D
    string : Text → Edn D
    keyword : Text → Edn D
    vector : Items D → Edn D
    dictionary : Entries D → Edn D
    tagged : Text → Edn D → Edn D
    untagged : Text → Edn D
    other : ℕ → Edn D

  pub data Items (D : Type 0) : Type 0 where
    end : Items D
    item : Edn D → Items D → Items D

  pub data Entries (D : Type 0) : Type 0 where
    last : Entries D
    entry : Edn D → Edn D → Entries D → Entries D

-- A map as its entries.
abbrev pub Dictionary : Type 0 → Type 0
Dictionary D = List (Edn D × Edn D)

module _ {D : Type 0} where
  abbrev pub items : Items D → List (Edn D)
  items end = []
  items (item e es) = e ∷ items es

  abbrev pub entries : Entries D → Dictionary D
  entries last = []
  entries (entry k v es) = (k, v) ∷ entries es

  -- `v && v->is<T>() ? v->get<T>() : …` for each alternative.
  abbrev pub as_int : Option (Edn D) → Option ℕ
  as_int (some (int n)) = some n
  as_int o = none

  abbrev pub as_string : Option (Edn D) → Option Text
  as_string (some (string s)) = some s
  as_string o = none

  abbrev pub as_keyword : Option (Edn D) → Option Text
  as_keyword (some (keyword k)) = some k
  as_keyword o = none

  abbrev pub as_vector : Option (Edn D) → Option (List (Edn D))
  as_vector (some (vector v)) = some (items v)
  as_vector o = none

  abbrev pub as_map : Option (Edn D) → Option (Dictionary D)
  as_map (some (dictionary m)) = some (entries m)
  as_map o = none

  -- `!v->is_nil()`
  abbrev pub present : Option (Edn D) → Option (Edn D)
  present (some nil) = none
  present o = o

-- `o ? *o : d`
abbrev pub value_or : {A : Type 0} → Option A → A → A
value_or (some a) d = a
value_or none d = d
