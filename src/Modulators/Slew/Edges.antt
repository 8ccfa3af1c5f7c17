-- ===== src/Modulators/Slew/Edges.antt =====
-- The ends of the rises and falls of a slew modulator, over ticks and updates in any order.
use nomos_rt.Common.{
  Bool, true, false, ◌&&◌, if◌then◌else◌, List, [], ◌∷◌, ◌≡◌, refl, ap, ap₂, ◌∙◌, sym, arith,
  if_lem,
}
use nomos_rt.Edn.{Text}
use nomos_rt.Modulators.Floats.{Floats, ModulatorOutput}
use nomos_rt.Modulators.Slew.{
  Stage, idle, rising, falling, is_idle, SlewModulator, make_slew_modulator, triggered, cycled,
  turned, moved, stepped, tick, update,
}

pub data Edge : Type 0 where
  rose fell : Edge

-- Each fall ends behind the end of a rise, with no other fall between: `open_rise` tells that a rise has ended since the
-- last fall.
unfoldable pub ordered : Bool → List Edge → Bool
ordered open_rise [] = true
ordered open_rise (rose ∷ edges) = ordered true edges
ordered open_rise (fell ∷ edges) = open_rise && ordered false edges

abbrev edges_of : Bool → Bool → List Edge → List Edge
edges_of eor eoc edges =
    let later = if eoc then fell ∷ edges else edges in if eor then rose ∷ later else later

module _ (fl : Floats) where
  open fl use {F, lit}

  pub data Call : Type 0 where
    ticked : F → Call
    updated : Text → F → Call

  -- The edges that the outputs of the ticks show.
  unfoldable pub edges : List Call → SlewModulator fl → List Edge
  edges [] s = []
  edges (ticked rate ∷ calls) s =
      let (out, t) = tick fl rate s in edges_of out.gate out.gate2 (edges calls t)
  edges (updated key value ∷ calls) s = edges calls (update fl key value s)

  update-stage :
      (key : Text) (value : F) (s : SlewModulator fl) → (update fl key value s).stage ≡ s.stage
  unfolding update
  update-stage key value s = ground arith

  abbrev is_falling : Stage → Bool
  is_falling idle = false
  is_falling rising = false
  is_falling falling = true

  -- An end of a fall to come has its rise behind it.
  abbrev IsOpen : Bool → SlewModulator fl → Type 0
  IsOpen open_rise s = is_falling s.stage ≡ true → open_rise ≡ true

  -- What the calls behind a state must satisfy with what the state shows before them.
  abbrev IsOrderedWith : Bool → List Edge → SlewModulator fl → Type 0
  IsOrderedWith open_rise later s =
      ((after : Bool) → IsOpen after s → ordered after later ≡ true)
      → ordered open_rise (edges_of s.eor s.eoc later) ≡ true

  record IsReady (open_rise : Bool) (s : SlewModulator fl) : Type 0 where
    no_eor : s.eor ≡ false
    no_eoc : s.eoc ≡ false
    is_open : IsOpen open_rise s

  silent :
      (b : Bool) (later : List Edge) (s : SlewModulator fl) → IsReady b s → IsOrderedWith b later s
  silent b later s r h =
      ap₂ (λ x y. ordered b (edges_of x y later)) r.no_eor r.no_eoc ∙ h b r.is_open

  turned-IsOrderedWith :
      (b : Bool) (later : List Edge) (stage : Stage) (s : SlewModulator fl)
      → s.stage ≡ stage
      → IsReady b s
      → IsOrderedWith b later (turned fl stage s)
  unfolding turned ordered
  turned-IsOrderedWith b later idle s e r = silent b later s r
  turned-IsOrderedWith b later rising s e r =
      if_lem (IsOrderedWith b later) (fl.le (fl.sub (lit 1 1) (lit 1 1000)) s.current)
        (λ h. ap (λ y. ordered b (edges_of true y later)) r.no_eoc ∙ h true (λ f. refl))
        (silent b later s r)
  turned-IsOrderedWith b later falling s e r =
      if_lem (IsOrderedWith b later) (fl.le s.current (fl.add (fl.neg (lit 1 1)) (lit 1 1000)))
        (λ h.
          ap (λ x. ordered b (edges_of x true later)) r.no_eor
          ∙ ap₂ ◌&&◌ (r.is_open (ap is_falling e)) (h false (λ f. f)))
        (silent b later s r)

  moved-IsOrderedWith :
      (rate : F) (b : Bool) (later : List Edge) (stage : Stage) (s : SlewModulator fl)
      → s.stage ≡ stage
      → IsReady b s
      → IsOrderedWith b later (moved fl rate stage s)
  unfolding moved
  moved-IsOrderedWith rate b later idle s e r = silent b later s r
  moved-IsOrderedWith rate b later rising s e r =
      turned-IsOrderedWith b later rising _ e
        (record { no_eor = r.no_eor; no_eoc = r.no_eoc; is_open = r.is_open })
  moved-IsOrderedWith rate b later falling s e r =
      turned-IsOrderedWith b later falling _ e
        (record { no_eor = r.no_eor; no_eoc = r.no_eoc; is_open = r.is_open })

  rising_only : (b : Bool) → false ≡ true → b ≡ true
  rising_only b f = cc

  started-IsReady :
      (b : Bool) (s : SlewModulator fl) → IsReady b s → IsReady b (cycled fl (triggered fl s))
  unfolding cycled triggered
  started-IsReady b s r =
      let t = triggered fl s in
      let u =
        if_lem (IsReady b) s.trig_pending
          (record { no_eor = r.no_eor; no_eoc = r.no_eoc; is_open = rising_only b }) r in
      if_lem (IsReady b) (t.cycle && is_idle t.stage)
        (record { no_eor = u.no_eor; no_eoc = u.no_eoc; is_open = rising_only b }) u

  tick-ordered :
      (rate : F) (b : Bool) (later : List Edge) (s : SlewModulator fl)
      → IsOpen b s
      → ((after : Bool) → IsOpen after (tick fl rate s).1 → ordered after later ≡ true)
      → ordered b (edges_of (tick fl rate s).0.gate (tick fl rate s).0.gate2 later) ≡ true
  unfolding tick stepped
  tick-ordered rate b later s is_open =
      let r : IsReady b (record s { eor = false; eoc = false }) = record {
        no_eor = refl;
        no_eoc = refl;
        is_open = is_open;
      } in
      let u = started-IsReady b _ r in
      if_lem
        (λ (p : ModulatorOutput F × SlewModulator fl).
          ((after : Bool) → IsOpen after p.1 → ordered after later ≡ true)
          → ordered b (edges_of p.0.gate p.0.gate2 later) ≡ true)
        (fl.le rate (lit 0 1)) (silent b later (record s { eor = false; eoc = false }) r)
        (moved-IsOrderedWith rate b later _
          (cycled fl (triggered fl (record s { eor = false; eoc = false }))) refl u)

  edges-ordered :
      (calls : List Call) (b : Bool) (s : SlewModulator fl)
      → IsOpen b s
      → ordered b (edges calls s) ≡ true
  unfolding edges ordered
  edges-ordered [] b s h = refl
  edges-ordered (ticked rate ∷ calls) b s h =
      tick-ordered rate b (edges calls (tick fl rate s).1) s h
        (λ after opened. edges-ordered calls after (tick fl rate s).1 opened)
  edges-ordered (updated key value ∷ calls) b s h =
      edges-ordered calls b (update fl key value s)
        (λ f. h (sym (ap is_falling (update-stage key value s)) ∙ f))

  -- Over any ticks and updates from the start, triggers included, the end of a fall is put out only behind the end of a
  -- rise, and behind each end of a rise at most one end of a fall.
  pub edges_in_order :
      (calls : List Call) → ordered false (edges calls (make_slew_modulator fl)) ≡ true
  unfolding make_slew_modulator
  edges_in_order calls = edges-ordered calls false (make_slew_modulator fl) (λ f. f)
