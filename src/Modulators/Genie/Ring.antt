-- ===== src/Modulators/Genie/Ring.antt =====
-- What a tick does to each neuron of the ring, after any ticks and updates.
use nomos_rt.Common.{
  ℕ, zero, suc, ◌+◌, ◌<◌, ◌≤◌, ltb, ◌&&◌, if◌then◌else◌, if_lem, Option, List, [], ◌∷◌, length,
  replicate, get_or, take, codes, bytes_eq, ◌≡◌, refl, ap, ◌∙◌, arith,
}
use nomos_rt.Edn.{Text}
use nomos_rt.Numbers.{ℤ}
use nomos_rt.Modulators.Floats.{Floats, clamp, blank_output}
use nomos_rt.Modulators.Sources.{Engine, bit_at}
use nomos_rt.Modulators.ShiftRegister.{clamp_int}
use nomos_rt.Modulators.CvDecoder.Channels.{bitmap-bit}
use nomos_rt.Modulators.Genie.{
  fill, set_at, GenieModulator, make_genie_modulator, new_state, norm_of, is_firing, genie_output,
  tick, update, neuron_of,
}

length-fill : {A : Type 0} (f : ℕ → A) (i n : ℕ) (xs : List A) → length (fill f i n xs) ≡ length xs
unfolding fill
length-fill f i zero xs = refl
length-fill f i (suc n) [] = refl
length-fill f i (suc n) (x ∷ xs) = ap suc (length-fill f (suc i) n xs)

-- The loop writes the first `n` places of an array.
get_or-fill :
    {A : Type 0} (f : ℕ → A) (i n : ℕ) (xs : List A) (j : ℕ) (d : A)
    → j < length xs
    → get_or (fill f i n xs) j d ≡ (if ltb j n then f (i + j) else get_or xs j d)
unfolding fill
get_or-fill f i zero xs j d h = ground arith
get_or-fill f i (suc n) [] j d h = ground arith
get_or-fill f i (suc n) (x ∷ xs) zero d h = ground arith
get_or-fill f i (suc n) (x ∷ xs) (suc j) d h =
    get_or-fill f (suc i) n xs j d (omega arith) ∙ ground arith

get_or-filled :
    {A : Type 0} (f : ℕ → A) (n : ℕ) (xs : List A) (j : ℕ) (d : A)
    → j < length xs
    → get_or (fill f 0 n xs) j d ≡ (if ltb j n then f j else get_or xs j d)
get_or-filled f n xs j d h =
    let same : 0 + j ≡ j = omega arith in
    get_or-fill f 0 n xs j d h ∙ ap (λ k. if ltb j n then f k else get_or xs j d) same

get_or-replicate : {A : Type 0} (n i : ℕ) (a : A) → get_or (replicate n a) i a ≡ a
get_or-replicate zero i a = refl
get_or-replicate (suc n) zero a = refl
get_or-replicate (suc n) (suc i) a = get_or-replicate n i a

module _ (fl : Floats) where
  open fl use {F, lit, lt}

  pub data Call : Type 0 where
    ticked : Engine fl → Call
    updated : Text → F → Call

  unfoldable pub run : List Call → GenieModulator fl → GenieModulator fl
  run [] s = s
  run (ticked engine ∷ calls) s = run calls (tick fl engine s).1
  run (updated key value ∷ calls) s = run calls (update fl key value s)

  record IsRing (s : GenieModulator fl) : Type 0 where
    at_least : 2 ≤ s.n
    at_most : s.n ≤ 8
    full : length s.state ≡ 8

  tick-IsRing :
      (engine : Engine fl) (s : GenieModulator fl) → IsRing s → IsRing (tick fl engine s).1
  unfolding tick
  tick-IsRing engine s r = record {
    at_least = r.at_least;
    at_most = r.at_most;
    full = length-fill (new_state fl engine s) 0 s.n s.state ∙ r.full;
  }

  retuned :
      (sense response gain ext_in : List F) (s : GenieModulator fl)
      → IsRing s
      → IsRing (record s { sense = sense; response = response; gain = gain; ext_in = ext_in })
  retuned sense response gain ext_in s r = record {
    at_least = r.at_least;
    at_most = r.at_most;
    full = r.full;
  }

  update-IsRing :
      (key : Text) (value : F) (s : GenieModulator fl) → IsRing s → IsRing (update fl key value s)
  unfolding update
  update-IsRing key value s r =
      let set_to : F → List F → List F = set_at (neuron_of key) in
      if_lem IsRing (bytes_eq (take 5 key) (codes "sense"))
        (retuned (set_to (clamp fl value (lit 0 1) (lit 5 1)) s.sense) s.response s.gain s.ext_in s
          r)
        (if_lem IsRing (bytes_eq (take 8 key) (codes "response"))
          (retuned s.sense (set_to (clamp fl value (lit 1 1) (lit 10 1)) s.response) s.gain s.ext_in
            s r)
          (if_lem IsRing (bytes_eq (take 4 key) (codes "gain"))
            (retuned s.sense s.response (set_to (clamp fl value (lit 0 1) (lit 1 1)) s.gain)
              s.ext_in s r)
            (if_lem IsRing (bytes_eq (take 2 key) (codes "in"))
              (retuned s.sense s.response s.gain (set_to value s.ext_in) s r) r)))

  run-IsRing : (calls : List Call) (s : GenieModulator fl) → IsRing s → IsRing (run calls s)
  unfolding run
  run-IsRing [] s r = r
  run-IsRing (ticked engine ∷ calls) s r = run-IsRing calls _ (tick-IsRing engine s r)
  run-IsRing (updated key value ∷ calls) s r = run-IsRing calls _ (update-IsRing key value s r)

  made-IsRing : (n : ℤ) (in_src : Option (List Text)) → IsRing (make_genie_modulator fl n in_src)
  unfolding make_genie_modulator clamp_int
  made-IsRing n in_src = record { at_least = ground arith; at_most = ground arith; full = refl }

  -- After any ticks and updates, a tick moves each neuron of the ring from the states before the tick and leaves the
  -- others; the bits of the bitmap are the neurons of the ring whose new state is above 0, and the outputs are the
  -- normed new states of the ring, 0 behind them.
  pub tick_moves_ring :
      (n : ℤ) (in_src : Option (List Text)) (calls : List Call) (engine : Engine fl) (i : ℕ)
      → i < 8
      → let s = run calls (make_genie_modulator fl n in_src) in
        let r = tick fl engine s in
        (get_or r.1.state i (lit 0 1)
          ≡ (if ltb i s.n then new_state fl engine s i else get_or s.state i (lit 0 1)))
        × (bit_at r.0.state i ≡ (ltb i s.n && lt (lit 0 1) (get_or r.1.state i (lit 0 1))))
        × (get_or r.0.outputs i (lit 0 1) ≡ (if ltb i s.n then norm_of fl r.1 i else lit 0 1))
  unfolding tick genie_output blank_output
  tick_moves_ring n in_src calls engine i h =
      let s = run calls (make_genie_modulator fl n in_src) in
      let r = run-IsRing calls _ (made-IsRing n in_src) in
      let t = (tick fl engine s).1 in
      (
        get_or-filled (new_state fl engine s) s.n s.state i (lit 0 1) (omega (arith, r.full)),
        bitmap-bit (is_firing fl t) s.n i r.at_most h,
        get_or-filled (norm_of fl t) s.n (replicate 16 (lit 0 1)) i (lit 0 1) (omega arith)
            ∙ ap (λ x. if ltb i s.n then norm_of fl t i else x) (get_or-replicate 16 i (lit 0 1)),
      )
