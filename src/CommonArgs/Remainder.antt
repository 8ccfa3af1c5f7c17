-- ===== src/CommonArgs/Remainder.antt =====
-- How a command line is divided: which tokens the shared reader takes, and which it leaves.
use nomos_rt.Common.{
  All, ℕ, ◌==◌, ◌&&◌, not, Bool, true, false, Bool-cases, if_cases, inl, inr, if◌then◌else◌, Option,
  none, some, List, [], ◌∷◌, ◌++◌, get_or, bytes_eq, codes, append_assoc, append-nil, ◌≡◌, refl, ap,
  ap₂, sym, ◌∙◌,
}
use nomos_rt.CommonArgs.{
  Text, CommonArgs, with_value, alone, last_token, next_token, parse_tokens, parse_common_args,
}

-- The flags that take a value, and those that do not.
abbrev pub value_flags : List Text
value_flags =
    codes "--socket"
    ∷ codes "--db"
    ∷ codes "--bpm"
    ∷ codes "--midi-port"
    ∷ codes "--midi-in-port"
    ∷ codes "--osc-port"
    ∷ codes "--audio-device"
    ∷ codes "--audio-out-ch"
    ∷ codes "--audio-in-ch"
    ∷ codes "--block-size"
    ∷ codes "--heartbeat-ms"
    ∷ []

abbrev pub switches : List Text
switches = codes "--no-audio" ∷ codes "--list-audio-devices" ∷ codes "--version" ∷ []

unfoldable pub is_among : Text → List Text → Bool
is_among a [] = false
is_among a (x ∷ xs) = if bytes_eq a x then true else is_among a xs

abbrev pub is_unknown : Text → Bool
is_unknown a = not (is_among a value_flags) && not (is_among a switches)

abbrev pub looks_like_flag : Text → Bool
looks_like_flag v = get_or v 0 0 == b'-'

-- A setting, a switch, and a token that is not known, by itself or with its value.
pub data Item : Type 0 where
  setting : Text → Text → Item
  switch : Text → Item
  foreign : Text → Item
  foreign_pair : Text → Text → Item

unfoldable pub spelled : List Item → List Text
spelled [] = []
spelled (setting a v ∷ items) = a ∷ v ∷ spelled items
spelled (switch a ∷ items) = a ∷ spelled items
spelled (foreign a ∷ items) = a ∷ spelled items
spelled (foreign_pair a v ∷ items) = a ∷ v ∷ spelled items

unfoldable pub left_over : List Item → List Text
left_over [] = []
left_over (setting a v ∷ items) = left_over items
left_over (switch a ∷ items) = left_over items
left_over (foreign a ∷ items) = a ∷ left_over items
left_over (foreign_pair a v ∷ items) = a ∷ v ∷ left_over items

-- A token that is left by itself stands before one that looks like a flag, or at the end, where a flag that takes a value
-- has none.
abbrev pub stands_alone : Text → List Text → Bool
stands_alone a [] = not (is_among a switches)
stands_alone a (b ∷ rest) = is_unknown a && looks_like_flag b

-- Whether each item is what it may be where it stands.
unfoldable pub is_reading : List Item → Bool
is_reading [] = true
is_reading (setting a v ∷ items) = is_among a value_flags && is_reading items
is_reading (switch a ∷ items) = is_among a switches && is_reading items
is_reading (foreign a ∷ items) = stands_alone a (spelled items) && is_reading items
is_reading (foreign_pair a v ∷ items) =
    (is_unknown a && not (looks_like_flag v)) && is_reading items

unfoldable is_some : {A : Type 0} → Option A → Bool
is_some none = false
is_some (some a) = true

-- One flag of a chain of tests.
is_some-if :
    {A : Type 0} (b : Bool) (a : A) (o : Option A)
    → is_some (if b then some a else o) ≡ (if b then true else is_some o)
unfolding is_some
is_some-if true a o = refl
is_some-if false a o = refl

is_some-none : (A : Type 0) → is_some {A = A} none ≡ false
unfolding is_some
is_some-none A = refl

ruleset flag_rules = (is_some-if, is_some-none)

unfoldable pub value_of : {A : Type 0} → Option A → A → A
value_of none d = d
value_of (some a) d = a

module _ {V : Type 0} (atof : Text → V) (atoi : Text → ℕ) (whole_number : Text → Option ℕ) where
  with_value-among :
      (a v : Text) (args : CommonArgs V)
      → is_some (with_value atof atoi whole_number a v args) ≡ is_among a value_flags
  unfolding with_value is_among
  with_value-among a v args = simp flag_rules refl

  alone-among :
      (a : Text) (args : CommonArgs V)
      → is_some (alone atof atoi whole_number a args) ≡ is_among a switches
  unfolding alone is_among
  alone-among a args = simp flag_rules refl

  -- The arguments behind the settings and the switches, in their order.
  unfoldable pub configured : List Item → CommonArgs V → CommonArgs V
  configured [] args = args
  configured (setting a v ∷ items) args =
      configured items (value_of (with_value atof atoi whole_number a v args) args)
  configured (switch a ∷ items) args =
      configured items (value_of (alone atof atoi whole_number a args) args)
  configured (foreign a ∷ items) args = configured items args
  configured (foreign_pair a v ∷ items) args = configured items args

  -- What a result says of the tokens, with `rem` before what they leave.
  abbrev IsRead : List Text → CommonArgs V → List Text → CommonArgs V × List Text → Type 0
  IsRead tokens args rem r =
      (items : List Item) × (is_reading items ≡ true)
      × (spelled items ≡ tokens)
      × (r ≡ (configured items args, rem ++ left_over items))

  with_value_unknown :
      (a v : Text) (args : CommonArgs V)
      → with_value atof atoi whole_number a v args ≡ none
      → is_among a value_flags ≡ false
  unfolding is_some
  with_value_unknown a v args e = sym (with_value-among a v args) ∙ ap is_some e

  alone_unknown :
      (a : Text) (args : CommonArgs V)
      → alone atof atoi whole_number a args ≡ none
      → is_among a switches ≡ false
  unfolding is_some
  alone_unknown a args e = sym (alone-among a args) ∙ ap is_some e

  last_token-IsRead :
      (a : Text) (o : Option (CommonArgs V)) (args : CommonArgs V) (rem : List Text)
      → alone atof atoi whole_number a args ≡ o
      → IsRead (a ∷ []) args rem (last_token atof atoi whole_number a o args rem)
  unfolding last_token is_reading spelled left_over configured value_of is_some
  last_token-IsRead a (some args') args rem e = (
    switch a ∷ [],
    ap (λ b. b && true) (sym (alone-among a args) ∙ ap is_some e),
    refl,
    ap₂ (λ x y. (x, y)) (ap (λ o. value_of o args) (sym e)) (sym (append-nil rem)),
  )
  last_token-IsRead a none args rem e =
      (foreign a ∷ [], ap (λ b. not b && true) (alone_unknown a args e), refl, refl)

  next_token-IsRead :
      (one two : CommonArgs V → List Text → CommonArgs V × List Text) (a b : Text)
      (rest : List Text) (v f : Option (CommonArgs V)) (args : CommonArgs V) (rem : List Text)
      → with_value atof atoi whole_number a b args ≡ v
      → alone atof atoi whole_number a args ≡ f
      → ((args : CommonArgs V) (rem : List Text) → IsRead (b ∷ rest) args rem (one args rem))
      → ((args : CommonArgs V) (rem : List Text) → IsRead rest args rem (two args rem))
      → IsRead (a ∷ b ∷ rest) args rem (next_token atof atoi whole_number one two a b v f args rem)
  unfolding next_token is_reading spelled left_over configured value_of is_some
  next_token-IsRead one two a b rest (some args') f args rem ev ef h k =
      let (items, r, s, e) = k args' rem in
      (
        setting a b ∷ items,
        ap₂ ◌&&◌ (sym (with_value-among a b args) ∙ ap is_some ev) r,
        ap (λ ts. a ∷ b ∷ ts) s,
        e ∙ ap (λ o. (configured items (value_of o args), rem ++ left_over items)) (sym ev),
      )
  next_token-IsRead one two a b rest none (some args') args rem ev ef h k =
      let (items, r, s, e) = h args' rem in
      (
        switch a ∷ items,
        ap₂ ◌&&◌ (sym (alone-among a args) ∙ ap is_some ef) r,
        ap (λ ts. a ∷ ts) s,
        e ∙ ap (λ o. (configured items (value_of o args), rem ++ left_over items)) (sym ef),
      )
  next_token-IsRead one two a b rest none none args rem ev ef h k =
      let unknown : is_unknown a ≡ true =
        ap₂ (λ x y. not x && not y) (with_value_unknown a b args ev) (alone_unknown a args ef) in
      if_cases (IsRead (a ∷ b ∷ rest) args rem) (get_or b 0 0 == b'-')
        (λ flag.
          let (items, r, s, e) = h args (rem ++ a ∷ []) in
          (
            foreign a ∷ items,
            ap₂ ◌&&◌ (ap (stands_alone a) s ∙ ap₂ ◌&&◌ unknown flag) r,
            ap (λ ts. a ∷ ts) s,
            e ∙ ap (λ l. (configured items args, l)) (append_assoc rem (a ∷ []) (left_over items)),
          ))
        (λ value.
          let (items, r, s, e) = k args (rem ++ a ∷ b ∷ []) in
          (
            foreign_pair a b ∷ items,
            ap₂ ◌&&◌ (ap₂ (λ x y. x && not y) unknown value) r,
            ap (λ ts. a ∷ b ∷ ts) s,
            e
                ∙ ap (λ l. (configured items args, l))
                    (append_assoc rem (a ∷ b ∷ []) (left_over items)),
          ))

  parse_tokens-IsRead :
      (tokens : List Text) (args : CommonArgs V) (rem : List Text)
      → IsRead tokens args rem (parse_tokens atof atoi whole_number tokens args rem)
  unfolding parse_tokens is_reading spelled left_over configured
  parse_tokens-IsRead [] args rem = ([], refl, refl, ap (λ l. (args, l)) (sym (append-nil rem)))
  parse_tokens-IsRead (a ∷ []) args rem = last_token-IsRead a _ args rem refl
  parse_tokens-IsRead (a ∷ b ∷ rest) args rem =
      next_token-IsRead _ _ a b rest _ _ args rem refl refl (parse_tokens-IsRead (b ∷ rest))
        (parse_tokens-IsRead rest)

  -- Every command line is divided into settings (a flag that takes a value, and its value), switches, and tokens that
  -- are not known: one with the value behind it where that does not start with a dash, and by itself before a token that
  -- does, or at the end, where it may be a flag without its value. The remainder is the unknown tokens with their
  -- values, all of them and in their order, and the settings and switches are applied in their order.
  pub parse_common_args_divides :
      (argv : List Text) (args : CommonArgs V)
      → (items : List Item) × (is_reading items ≡ true)
        × (spelled items ≡ argv)
        × (parse_common_args atof atoi whole_number argv args
            ≡ (configured items args, left_over items))
  unfolding parse_common_args
  parse_common_args_divides argv args = parse_tokens-IsRead argv args []

  -- A token that the shared reader does not know as a flag.
  abbrev pub IsForeign : Text → Type 0
  IsForeign a =
      ((v : Text) (args : CommonArgs V) → with_value atof atoi whole_number a v args ≡ none)
      × ((args : CommonArgs V) → alone atof atoi whole_number a args ≡ none)

  parse_tokens-foreign :
      (tokens : List Text) (args : CommonArgs V) (rem : List Text)
      → All IsForeign tokens
      → parse_tokens atof atoi whole_number tokens args rem ≡ (args, rem ++ tokens)
  unfolding parse_tokens last_token next_token
  parse_tokens-foreign [] args rem h = ap (λ r. (args, r)) (sym (append-nil rem))
  parse_tokens-foreign (a ∷ []) args rem ((v, f), h) = rw (f args) refl
  parse_tokens-foreign (a ∷ b ∷ rest) args rem ((v, f), (h, hs)) =
      rw (v b args, f args)
        (elim (Bool-cases (get_or b 0 0 == b'-')) [
          | inl flag ↦ rw flag (
              parse_tokens-foreign (b ∷ rest) args (rem ++ a ∷ []) (h, hs)
              ∙ ap (λ r. (args, r)) (append_assoc rem (a ∷ []) (b ∷ rest)))
          | inr value ↦ rw value (
              parse_tokens-foreign rest args (rem ++ a ∷ b ∷ []) hs
              ∙ ap (λ r. (args, r)) (append_assoc rem (a ∷ b ∷ []) rest))
        ])

  -- A command line without any shared flag is left as it is, and nothing is set.
  pub parse_common_args-foreign :
      (argv : List Text) (args : CommonArgs V)
      → All IsForeign argv
      → parse_common_args atof atoi whole_number argv args ≡ (args, argv)
  unfolding parse_common_args
  parse_common_args-foreign argv args h = parse_tokens-foreign argv args [] h
