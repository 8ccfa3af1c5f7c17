-- ===== src/Osc/Wire.antt =====
-- The wire layout of an OSC message, written down by itself: an address, a type-tag string and the
-- arguments, each a multiple of four bytes long.
use nomos_rt.Common.{
  ℕ, ◌-◌, ◌/◌, ◌%◌, ◌^◌, ◌==◌, if◌then◌else◌, Option, none, some, List, [], ◌∷◌, ◌++◌, length,
  replicate, ◌≡◌, arith, length-append, length-replicate,
}
use nomos_rt.Osc.Encode.{Arg, tags, padded_length}

-- At least one null byte, and as many as make the length a multiple of four.
unfoldable pub padded : List ℕ → List ℕ
padded s = s ++ replicate (4 - length s % 4) 0

abbrev pub u32_be : ℕ → List ℕ
u32_be v = v / 2 ^ 24 % 2 ^ 8 ∷ v / 2 ^ 16 % 2 ^ 8 ∷ v / 2 ^ 8 % 2 ^ 8 ∷ v % 2 ^ 8 ∷ []

-- `none` stands for a message that the protocol does not have.
abbrev pub join : Option (List ℕ) → Option (List ℕ) → Option (List ℕ)
join none o = none
join (some bs) none = none
join (some bs) (some cs) = some (bs ++ cs)

unfoldable pub arg_wire : Arg → Option (List ℕ)
arg_wire a =
    if a.tag == b'i'
    then some (u32_be a.i)
    else if a.tag == b'f'
    then some (u32_be a.f)
    else if a.tag == b's'
    then some (padded a.s)
    else none

unfoldable pub args_wire : List Arg → Option (List ℕ)
args_wire [] = some []
args_wire (a ∷ args) = join (arg_wire a) (args_wire args)

unfoldable pub wire : List ℕ → List Arg → Option (List ℕ)
wire address args =
    join (some (padded address)) (join (some (padded (b',' ∷ tags args))) (args_wire args))

-- `none`, or a multiple of four bytes.
abbrev pub IsAligned : Option (List ℕ) → Type 0
IsAligned none = Unit
IsAligned (some bs) = length bs % 4 ≡ 0

join-IsAligned : (o p : Option (List ℕ)) → IsAligned o → IsAligned p → IsAligned (join o p)
join-IsAligned none p h k = tt
join-IsAligned (some bs) none h k = tt
join-IsAligned (some bs) (some cs) h k = omega (arith, length-append bs cs)

pub length-padded : (s : List ℕ) → length (padded s) ≡ padded_length (length s)
unfolding padded padded_length
length-padded s = omega (
  arith,
  length-append s (replicate (4 - length s % 4) 0),
  length-replicate {A = ℕ} (4 - length s % 4) 0,
)

padded-IsAligned : (s : List ℕ) → length (padded s) % 4 ≡ 0
unfolding padded_length
padded-IsAligned s = omega (arith, length-padded s)

arg_wire-IsAligned : (a : Arg) → IsAligned (arg_wire a)
unfolding arg_wire
arg_wire-IsAligned a = ground (arith, padded-IsAligned a.s)

args_wire-IsAligned : (args : List Arg) → IsAligned (args_wire args)
unfolding args_wire
args_wire-IsAligned [] = omega arith
args_wire-IsAligned (a ∷ args) =
    join-IsAligned (arg_wire a) (args_wire args) (arg_wire-IsAligned a) (args_wire-IsAligned args)

pub wire-IsAligned : (address : List ℕ) (args : List Arg) → IsAligned (wire address args)
unfolding wire
wire-IsAligned address args = join-IsAligned (some (padded address)) _ (padded-IsAligned address) (
    join-IsAligned (some (padded (b',' ∷ tags args))) (args_wire args)
      (padded-IsAligned (b',' ∷ tags args)) (args_wire-IsAligned args))
