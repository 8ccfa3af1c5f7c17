-- ===== src/Modulators/CvDecoder/Latch.antt =====
-- The clock mode holds the channels between edges.
use nomos_rt.Common.{
  ℕ, ◌≤◌, ◌<◌, Bool, true, false, ltb, ◌&&◌, if◌then◌else◌, List, [], ◌∷◌, ◌≡◌, refl, sym, ap, ◌∙◌,
  subst,
}
use nomos_rt.Modulators.Floats.{Floats}
use nomos_rt.Modulators.Sources.{Engine, bit_at}
use nomos_rt.Modulators.CvDecoder.{
  CvChannelDecoder, read_span, span_from, field_value, channel_active, bitmap_of, latch, tick,
}
use nomos_rt.Modulators.CvDecoder.Channels.{bitmap-bit}

module _ (fl : Floats) where
  open fl use {F}

  unfoldable pub ticks : List (Engine fl × F) → CvChannelDecoder fl → CvChannelDecoder fl
  ticks [] s = s
  ticks ((engine, rate) ∷ calls) s = ticks calls (tick fl engine rate s).1

  -- A clock edge for the next tick.
  abbrev pub armed : CvChannelDecoder fl → CvChannelDecoder fl
  armed s = record s { clock_pending = true }

  -- What a tick in the clock mode changes without an edge.
  abbrev passed : CvChannelDecoder fl → Bool → F → CvChannelDecoder fl
  passed s first_tick prev_span = record s { first_tick = first_tick; prev_span = prev_span }

  idle_latch :
      (bitmap : ℕ) (t : CvChannelDecoder fl)
      → t.clocked ≡ true
      → t.clock_pending ≡ false
      → latch fl bitmap t ≡ (t.latched_state, t)
  unfolding latch
  idle_latch bitmap t on idle =
      let kept : Bool → ℕ = λ b. if b then bitmap else t.latched_state in
      ap
        (λ b.
          if b
          then (
            kept t.clock_pending,
            record t { latched_state = kept t.clock_pending; clock_pending = false },
          )
          else (bitmap, t))
        on
      ∙ ap (λ b. (kept b, record t { latched_state = kept b; clock_pending = false })) idle
      ∙ ap (λ b. (t.latched_state, record t { clock_pending = b })) (sym idle)

  idle_tick :
      (engine : Engine fl) (rate : F) (s : CvChannelDecoder fl)
      → s.clocked ≡ true
      → s.clock_pending ≡ false
      → let r = tick fl engine rate s in
        (r.0.state ≡ s.latched_state) × (r.1 ≡ passed s false (read_span fl engine s))
  unfolding tick
  idle_tick engine rate s on idle =
      let e =
        idle_latch (bitmap_of fl s (read_span fl engine s)) (passed s false (read_span fl engine s))
          on idle in
      (ap (λ r. r.0) e, ap (λ r. r.1) e)

  idle_ticks :
      (calls : List (Engine fl × F)) (s : CvChannelDecoder fl)
      → s.clocked ≡ true
      → s.clock_pending ≡ false
      → (first_tick : Bool) × (prev_span : F) × (ticks calls s ≡ passed s first_tick prev_span)
  unfolding ticks
  idle_ticks [] s on idle = (s.first_tick, s.prev_span, refl)
  idle_ticks ((engine, rate) ∷ calls) s on idle =
      let (first_tick, prev_span, e) =
        idle_ticks calls (passed s false (read_span fl engine s)) on idle in
      (first_tick, prev_span, ap (ticks calls) (idle_tick engine rate s on idle).1 ∙ e)

  armed_state :
      (engine : Engine fl) (rate : F) (s : CvChannelDecoder fl)
      → s.clocked ≡ true
      → (tick fl engine rate (armed s)).0.state ≡ bitmap_of fl s (read_span fl engine s)
  unfolding tick latch read_span span_from field_value bitmap_of channel_active
  armed_state engine rate s on =
      let bits = bitmap_of fl s (read_span fl engine s) in
      let t = armed (passed s false (read_span fl engine s)) in
      let result : Bool → ℕ × CvChannelDecoder fl = λ b.
        if b then (bits, record t { latched_state = bits; clock_pending = false }) else (bits, t) in
      ap (λ b. (result b).0) on

  -- In the clock mode and without an edge, ticks put out the channels that were latched; the first tick with an edge puts
  -- out the channels that are active for the span at this tick, and none beyond their number.
  pub latch_holds :
      (s : CvChannelDecoder fl) (calls : List (Engine fl × F)) (engine : Engine fl) (rate : F)
      (k : ℕ)
      → s.clocked ≡ true
      → s.clock_pending ≡ false
      → s.channels ≤ 8
      → k < 8
      → ((tick fl engine rate (ticks calls s)).0.state ≡ s.latched_state)
        × (bit_at (tick fl engine rate (armed (ticks calls s))).0.state k
            ≡ (ltb k s.channels && channel_active fl s (read_span fl engine s) k))
  unfolding read_span bitmap_of channel_active
  latch_holds s calls engine rate k on idle few small =
      let (first_tick, prev_span, e) = idle_ticks calls s on idle in
      let now =
        subst (λ t. (tick fl engine rate t).0.state ≡ s.latched_state) (sym e)
          (idle_tick engine rate (passed s first_tick prev_span) on idle).0 in
      let then_bits =
        subst
          (λ t. (tick fl engine rate (armed t)).0.state ≡ bitmap_of fl s (read_span fl engine s))
          (sym e) (armed_state engine rate (passed s first_tick prev_span) on) in
      (
        now,
        ap (λ n. bit_at n k) then_bits
            ∙ bitmap-bit (channel_active fl s (read_span fl engine s)) s.channels k few small,
      )
