-- ===== src/Modulators/Tests.antt =====
-- Runs of single modulators with numbers in steps of 1/24.
use nomos_rt.Common.{
  ℕ, Bool, true, false, bit_xor, get_or, ◌%◌, ◌^◌, ◌<◌, Option, none, some, List, [], ◌∷◌, length,
  ◌≡◌, refl, codes, bytes_eq, if◌then◌else◌,
}
use nomos_rt.Numbers.{pos, negsuc}
use nomos_rt.Edn.{Edn, int, keyword, vector, dictionary, end, item, last, entry, Dictionary, Text}
use nomos_rt.Modulators.Floats.{ModulatorOutput, blank_output}
use nomos_rt.Modulators.Steps.{steps}
use nomos_rt.Modulators.Graph.{
  ControlGraph, parse_control_graph, parse_node, missing_all, operator_node, leaf_of, operator_in,
}
use nomos_rt.Modulators.Graph.Order.{IsOrdered, parse_control_graph-IsOrdered}
use nomos_rt.Modulators.Graph.Eval
use nomos_rt.Modulators.Graph.Eval.{GraphModulator}
use nomos_rt.Modulators.Graph.Fresh.{tick-IsOrdered}
use nomos_rt.Modulators.Sources.{Engine, gate_or, source_of}
use nomos_rt.Modulators.DivineCmos
use nomos_rt.Modulators.DivineCmos.{make_divine_cmos}
use nomos_rt.Modulators.DivineCmos.Clocks
use nomos_rt.Modulators.DivineCmos.Clocks.{rises, counts_edges}
use nomos_rt.Modulators.Cipher
use nomos_rt.Modulators.Cipher.{make_cipher, read_gate_level, shifted, read_gate_src, bit_in}
use nomos_rt.Modulators.Cipher.Strobe
use nomos_rt.Modulators.Cipher.Strobe.{shifts, IsHeld, none_left, held, strobe_freezes}
use nomos_rt.Modulators.Statues
use nomos_rt.Modulators.Statues.{make_statues}
use nomos_rt.Modulators.Statues.Slots.{Call, ticked, updated, run, writes, latest, slots_hold}
use nomos_rt.Modulators.ShiftRegister.{lfsr, make_shift_register, dac_raw}
use nomos_rt.Modulators.ShiftRegister.Alive.{IsRegister, ticks, ticks_from_start}

abbrev find_entry : Dictionary ℕ → Text → Option (Edn ℕ)
find_entry [] kw = none
find_entry ((keyword k, v) ∷ es) kw = if bytes_eq k kw then some v else find_entry es kw
find_entry ((k, v) ∷ es) kw = find_entry es kw

-- `[op]`, `[op a]` and `[op a b]`
abbrev op0 : Text → Edn ℕ
op0 name = vector (item (keyword name) end)

abbrev op1 : Text → Edn ℕ → Edn ℕ
op1 name a = vector (item (keyword name) (item a end))

abbrev op2 : Text → Edn ℕ → Edn ℕ → Edn ℕ
op2 name a b = vector (item (keyword name) (item a (item b end)))

abbrev rate_param : Edn ℕ
rate_param = op1 (codes "param") (keyword (codes "rate"))

-- `{:cv [:add [:phasor [:param :rate]] 2] :gate [:threshold [:beat]]}`
abbrev expression : Edn ℕ
expression = dictionary (
    entry (keyword (codes "cv")) (op2 (codes "add") (op1 (codes "phasor") rate_param) (int 2))
      (entry (keyword (codes "gate")) (op1 (codes "threshold") (op0 (codes "beat"))) last))

abbrev params : List (Text × ℕ)
params = (codes "rate", 6) ∷ []

abbrev parsed : ControlGraph ℕ
parsed = parse_control_graph steps find_entry expression params

abbrev no_outputs : Text → Option (ModulatorOutput ℕ)
no_outputs id = none

parsed_nodes : length parsed.nodes ≡ 7
unfolding parse_control_graph parse_node missing_all operator_node leaf_of operator_in
parsed_nodes = refl

-- A constant of an integer is 0.
const_of_int :
    (parse_control_graph steps find_entry (op1 (codes "const") (int 3)) []).nodes
    ≡ (parse_control_graph steps find_entry (op0 (codes "const")) []).nodes
unfolding parse_control_graph parse_node leaf_of missing_all operator_node
const_of_int = refl

parse_control_graph-IsOrdered_example : IsOrdered parsed
parse_control_graph-IsOrdered_example =
    parse_control_graph-IsOrdered steps find_entry expression params

abbrev dirty : List ℕ
dirty = 5 ∷ 5 ∷ 5 ∷ []

tick-IsOrdered_example :
    let r = Eval.tick steps no_outputs 24 24 (record { graph = parsed; values = [] }) in
    let r' = Eval.tick steps no_outputs 24 24 (record { graph = parsed; values = dirty }) in
    (r.0 ≡ r'.0) × (r.1.graph ≡ r'.1.graph) × IsOrdered r.1.graph
tick-IsOrdered_example =
    tick-IsOrdered steps no_outputs 24 24 parsed
      (parse_control_graph-IsOrdered steps find_entry expression params) [] dirty

-- A length out of range is clamped.
ticks_from_start_example :
    let s =
      ticks steps
        ((0, 24) ∷ (24, 0) ∷ (48, 24) ∷ [])
        (make_shift_register steps lfsr (pos 40) (negsuc 3)) in
    IsRegister steps s × (dac_raw steps s < 2 ^ s.dac_bits)
ticks_from_start_example =
    ticks_from_start steps lfsr (pos 40) (negsuc 3) ((0, 24) ∷ (24, 0) ∷ (48, 24) ∷ [])

-- An engine in which every modulator has the same gate.
abbrev gated : Bool → Engine steps
gated b = some (λ id. some (record (blank_output steps) { gate = b; state = 13 }))

abbrev clock_src : Text
clock_src = codes "clk"

-- Two rising edges on the one clock, and no source for the other.
counts_edges_example :
    (DivineCmos.tick steps (gated true) 24 (
      Clocks.ticks steps
        ((gated true, 24) ∷ (gated false, 24) ∷ [])
        (make_divine_cmos steps clock_src []))).0.state
    ≡ bit_xor
        (rises steps clock_src false ((gated true, 24) ∷ (gated false, 24) ∷ (gated true, 24) ∷ [])
          % 16)
        (rises steps [] false ((gated true, 24) ∷ (gated false, 24) ∷ (gated true, 24) ∷ []) % 16)
counts_edges_example =
    counts_edges steps clock_src [] ((gated true, 24) ∷ (gated false, 24) ∷ []) (gated true) 24

two_rises :
    rises steps clock_src false ((gated true, 24) ∷ (gated false, 24) ∷ (gated true, 24) ∷ []) ≡ 2
unfolding rises gate_or source_of
two_rises = refl

-- A cipher with the pattern 5, clocked at each tick where the engine shows a gate.
abbrev patterned : Cipher.Cipher steps
patterned = record (make_cipher steps clock_src [] [] (codes "strobe")) {
  inner_reg = 5;
  output_reg = 9;
  clock_pending = true;
}

strobe_freezes_example :
    ((Strobe.ticks steps (gated true ∷ []) patterned).output_reg ≡ 9)
    × ((Cipher.tick steps (gated false) (Strobe.ticks steps (gated true ∷ []) patterned)).0.state
        ≡ (shifts steps (gated true ∷ gated false ∷ []) patterned).inner_reg)
unfolding read_gate_level make_cipher gate_or source_of
strobe_freezes_example =
    strobe_freezes steps patterned (gated true ∷ []) (gated false)
      (held {engine = gated true} refl none_left) refl

shifts_once : (shifts steps (gated true ∷ gated false ∷ []) patterned).inner_reg ≡ 11
unfolding shifts make_cipher shifted read_gate_src gate_or source_of read_gate_level bit_in
shifts_once = refl

abbrev slot_calls : List (Call steps)
slot_calls =
    updated (codes "in") 20
    ∷ ticked none
    ∷ updated (codes "addr") 120
    ∷ ticked none
    ∷ ticked (gated true)
    ∷ []

slots_hold_example :
    (get_or (run steps slot_calls (make_statues steps [] [])).slots 5 0
      ≡ latest steps 5 (writes steps slot_calls (make_statues steps [] [])) 0)
    × ((Statues.tick steps none (run steps slot_calls (make_statues steps [] []))).0.state < 8)
slots_hold_example = slots_hold steps [] [] slot_calls none 5
