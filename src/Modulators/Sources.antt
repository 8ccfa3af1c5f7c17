-- ===== src/Modulators/Sources.antt =====
-- What the modulators that read other modulators have in common (src/divine_cmos_modulator.cpp, src/cipher_modulator.cpp,
-- src/bools_ring_modulator.cpp, src/statues_modulator.cpp, src/genie_modulator.cpp, src/cv_channel_decoder.cpp): the outputs
-- of others, sums of weights over the bits of a word, and the slew. The engine is its `last_output`, and a null pointer is
-- `none`.
use nomos_rt.Common.{
  ℕ, ◌+◌, set, ◌/◌, ◌^◌, Bool, bit_and, ◌==◌, ◌&&◌, if◌then◌else◌, Option, none, some, List, [],
  ◌∷◌,
}
use nomos_rt.Edn.{Text}
use nomos_rt.Modulators.Floats.{Floats, ModulatorOutput}

pub data Source (F : Type 0) : Type 0 where
  unread : Source F
  read : Option (ModulatorOutput F) → Source F

-- `(bits >> i) & 1u`
unfoldable pub bit_at : ℕ → ℕ → Bool
bit_at bits i = bit_and (bits / 2 ^ i) 1 == 1

module _ (fl : Floats) where
  open fl use {F, lit}

  abbrev pub Engine : Type 0
  Engine = Option (Text → Option (ModulatorOutput F))

  -- `engine_ && !src_id.empty()`, and then the output.
  unfoldable pub source_of : Engine → Text → Source F
  source_of none src = unread
  source_of (some last_output) [] = unread
  source_of (some last_output) (c ∷ src) = read (last_output (c ∷ src))

  unfoldable pub gate_or : Source F → Bool → Bool
  gate_or unread fallback = fallback
  gate_or (read none) fallback = fallback
  gate_or (read (some out)) fallback = out.gate

  unfoldable pub cv_or : Source F → F → F
  cv_or unread fallback = fallback
  cv_or (read none) fallback = fallback
  cv_or (read (some out)) fallback = out.cv

  unfoldable pub weighted : ℕ → List ℕ → List F → F → F
  unfolding bit_at
  weighted bits (i ∷ is) (w ∷ ws) sum =
      weighted bits is ws (if bit_at bits i then fl.add sum w else sum)
  weighted bits [] ws sum = sum
  weighted bits (i ∷ is) [] sum = sum

  abbrev pub total : List F → F → F
  total [] sum = sum
  total (w ∷ ws) sum = total ws (fl.add sum w)

  -- The loop that fills the outputs from the index `i` on.
  abbrev pub fill_outputs : List F → ℕ → List F → List F
  fill_outputs [] i outputs = outputs
  fill_outputs (x ∷ xs) i outputs = fill_outputs xs (i + 1) (set outputs i x)

  -- The one-pole slew: from the slew, the rate and the state before.
  unfoldable pub smoothed : F → F → F → F → F
  smoothed slew rate state x =
      let tc = fl.mul slew (lit 4 1) in
      let alpha =
        if fl.lt (lit 0 1) rate && fl.lt (lit 0 1) tc
        then fl.exp (fl.div (fl.neg (lit 1 1)) (fl.mul tc rate))
        else lit 0 1 in
      fl.add (fl.mul alpha state) (fl.mul (fl.sub (lit 1 1) alpha) x)
