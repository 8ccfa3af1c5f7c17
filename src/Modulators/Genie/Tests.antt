-- ===== src/Modulators/Genie/Tests.antt =====
-- A ring of three neurons, the last of which reads a modulator, in steps of 1/24.
use nomos_rt.Common.{
  ℕ, ltb, ◌&&◌, Option, some, List, [], ◌∷◌, ◌≡◌, arith, codes, get_or, if◌then◌else◌,
}
use nomos_rt.Edn.{Text}
use nomos_rt.Numbers.{pos}
use nomos_rt.Modulators.Floats.{blank_output}
use nomos_rt.Modulators.Steps.{steps}
use nomos_rt.Modulators.Sources.{Engine, bit_at}
use nomos_rt.Modulators.Genie.{GenieModulator, make_genie_modulator, tick, new_state, norm_of}
use nomos_rt.Modulators.Genie.Ring.{Call, ticked, updated, run, tick_moves_ring}

abbrev engine : Engine steps
engine = some (λ id. some (record (blank_output steps) { cv = 48 }))

abbrev in_src : Option (List Text)
in_src = some ([] ∷ [] ∷ codes "lfo" ∷ [] ∷ [] ∷ [] ∷ [] ∷ [] ∷ [])

abbrev calls : List (Call steps)
calls = ticked engine ∷ updated (codes "gain1") 24 ∷ ticked engine ∷ []

abbrev three_ring : GenieModulator steps
three_ring = run steps calls (make_genie_modulator steps (pos 3) in_src)

states : List ℕ
states = three_ring.state

tick_moves_ring_example :
    (get_or (tick steps engine three_ring).1.state 1 0 ≡ (
      if ltb 1 three_ring.n
      then new_state steps engine three_ring 1
      else get_or three_ring.state 1 0))
    × (bit_at (tick steps engine three_ring).0.state 1
        ≡ (ltb 1 three_ring.n && ltb 0 (get_or (tick steps engine three_ring).1.state 1 0)))
    × (get_or (tick steps engine three_ring).0.outputs 1 0
        ≡ (if ltb 1 three_ring.n then norm_of steps (tick steps engine three_ring).1 1 else 0))
tick_moves_ring_example = tick_moves_ring steps (pos 3) in_src calls engine 1 (omega arith)
