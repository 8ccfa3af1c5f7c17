-- ===== src/Modulators/Slew/Tests.antt =====
-- A slew modulator that is triggered and rises and falls, in steps of 1/24.
use nomos_rt.Common.{false, true, List, [], ◌∷◌, ◌≡◌, codes}
use nomos_rt.Modulators.Steps.{steps}
use nomos_rt.Modulators.Slew.{make_slew_modulator}
use nomos_rt.Modulators.Slew.Edges.{Edge, Call, ticked, updated, edges, ordered, edges_in_order}

abbrev calls : List (Call steps)
calls =
    updated (codes "trig") 24
    ∷ ticked 24
    ∷ ticked 24
    ∷ updated (codes "cycle") 24
    ∷ ticked 0
    ∷ ticked 24
    ∷ ticked 24
    ∷ []

shown : List Edge
shown = edges steps calls (make_slew_modulator steps)

edges_in_order_example : ordered false (edges steps calls (make_slew_modulator steps)) ≡ true
edges_in_order_example = edges_in_order steps calls
