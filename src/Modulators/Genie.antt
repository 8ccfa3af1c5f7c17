-- ===== src/Modulators/Genie.antt =====
-- src/genie_modulator.cpp: a ring of neurons. The engine is its `last_output`, and a null pointer is `none`. The loop that
-- sets the bits of the bitmap is that of nomos_rt.Modulators.CvDecoder.
pub mod Ring
mod Tests
use nomos_rt.Common.{
  ℕ, zero, suc, ◌+◌, ◌-◌, ◌%◌, Bool, true, false, leb, ltb, ◌==◌, ◌&&◌, ◌||◌, if◌then◌else◌, Option,
  none, some, List, [], ◌∷◌, take, replicate, get_or, set, codes, bytes_eq,
}
use nomos_rt.Edn.{Text}
use nomos_rt.Numbers.{ℤ}
use nomos_rt.Modulators.Floats.{Floats, ModulatorOutput, blank_output, clamp, greater, max_outputs}
use nomos_rt.Modulators.Sources.{Engine, source_of, cv_or}
use nomos_rt.Modulators.ShiftRegister.{clamp_int}
use nomos_rt.Modulators.CvDecoder.{channels_from}

abbrev pub max_n : ℕ
max_n = 8

-- `key.back()`
abbrev pub back : ℕ → Text → ℕ
back c [] = c
back c (d ∷ ds) = back d ds

-- The digit at the end of a key, which is not empty, if it is the index of a neuron.
unfoldable pub neuron_of : Text → Option ℕ
neuron_of key = let c = back 0 key in if leb 48 c && ltb (c - 48) max_n then some (c - 48) else none

abbrev pub set_at {ℓ} : {A : Type ℓ} → Option ℕ → A → List A → List A
set_at none v xs = xs
set_at (some i) v xs = set xs i v

-- The loop `for (i < n) a[i] = f(i)` from the index `i` on.
unfoldable pub fill {ℓ} : {A : Type ℓ} → (ℕ → A) → ℕ → ℕ → List A → List A
fill f i zero xs = xs
fill f i (suc n) [] = []
fill f i (suc n) (x ∷ xs) = f i ∷ fill f (suc i) n xs

abbrev pub sources_or_empty : Option (List Text) → List Text
sources_or_empty none = replicate max_n []
sources_or_empty (some in_src) = in_src

abbrev pub names_none : Text → Bool
names_none [] = true
names_none (c ∷ cs) = false

module _ (fl : Floats) where
  open fl use {F, lit, lt, le}

  pub record GenieModulator : Type 0 where
    pub n : ℕ
    pub in_src : List Text
    pub sense : List F
    pub response : List F
    pub gain : List F
    pub ext_in : List F
    pub state : List F

  unfoldable pub make_genie_modulator : ℤ → Option (List Text) → GenieModulator
  unfolding clamp_int
  make_genie_modulator n in_src = record {
    n = clamp_int 2 max_n n;
    in_src = sources_or_empty in_src;
    sense = replicate max_n (lit 5 2);
    response = replicate max_n (lit 3 1);
    gain = replicate max_n (lit 6 10);
    ext_in = replicate max_n (lit 0 1);
    state = replicate max_n (lit 0 1);
  }

  unfoldable pub neuron : F → F → F → F
  neuron input sense response =
      let x = fl.add input sense in
      fl.sub (clamp fl x (lit 0 1) (lit 10 1))
        (if le (lit 0 1) x then response else fl.neg response)

  unfoldable pub neuron_norm : F → ℕ → GenieModulator → F
  neuron_norm raw i s =
      let response = get_or s.response i (lit 0 1) in
      let lo = fl.neg response in
      let hi = greater fl response (fl.sub (lit 10 1) response) in
      if le hi lo && le lo hi
      then lit 1 2
      else clamp fl (fl.div (fl.sub raw lo) (fl.sub hi lo)) (lit 0 1) (lit 1 1)

  -- The input of a neuron: the neuron before it in the ring, or another modulator.
  unfoldable pub input_of : Engine fl → GenieModulator → ℕ → F
  input_of engine s i =
      let src = get_or s.in_src i [] in
      if names_none src
      then fl.mul (get_or s.gain i (lit 0 1)) (get_or s.state ((i + s.n - 1) % s.n) (lit 0 1))
      else cv_or fl (source_of fl engine src) (get_or s.ext_in i (lit 0 1))

  unfoldable pub new_state : Engine fl → GenieModulator → ℕ → F
  new_state engine s i =
      neuron (input_of engine s i) (get_or s.sense i (lit 0 1)) (get_or s.response i (lit 0 1))

  -- `(N1 + N3) - N2`
  unfoldable pub diff_of : GenieModulator → F
  diff_of s =
      let n1 = get_or s.state 0 (lit 0 1) in
      fl.sub (fl.add n1 (if leb 3 s.n then get_or s.state 2 (lit 0 1) else n1))
        (get_or s.state 1 (lit 0 1))

  unfoldable pub norm_of : GenieModulator → ℕ → F
  norm_of s i = neuron_norm (get_or s.state i (lit 0 1)) i s

  abbrev pub is_firing : GenieModulator → ℕ → Bool
  is_firing s i = lt (lit 0 1) (get_or s.state i (lit 0 1))

  unfoldable pub genie_output : GenieModulator → ModulatorOutput F
  genie_output s =
      let diff = diff_of s in
      record {
        cv = norm_of s 0;
        aux = clamp fl (fl.div (greater fl (lit 0 1) diff) (lit 17 1)) (lit 0 1) (lit 1 1);
        gate = lt (lit 0 1) diff;
        gate2 = lt diff (lit 0 1);
        state = channels_from (is_firing s) 0 s.n 0;
        outputs = fill (norm_of s) 0 s.n (blank_output fl).outputs;
      }

  -- All neurons move at once, from the states before.
  unfoldable pub tick : Engine fl → GenieModulator → ModulatorOutput F × GenieModulator
  tick engine s =
      let t = record s { state = fill (new_state engine s) 0 s.n s.state } in (genie_output t, t)

  unfoldable pub update : Text → F → GenieModulator → GenieModulator
  update key value s =
      if bytes_eq (take 5 key) (codes "sense")
      then record s { sense = set_at (neuron_of key) (clamp fl value (lit 0 1) (lit 5 1)) s.sense }
      else if bytes_eq (take 8 key) (codes "response")
      then record s {
        response = set_at (neuron_of key) (clamp fl value (lit 1 1) (lit 10 1)) s.response;
      }
      else if bytes_eq (take 4 key) (codes "gain")
      then record s { gain = set_at (neuron_of key) (clamp fl value (lit 0 1) (lit 1 1)) s.gain }
      else if bytes_eq (take 2 key) (codes "in")
      then record s { ext_in = set_at (neuron_of key) value s.ext_in }
      else s
