-- ===== src/Modulators/CvDecoder/Tests.antt =====
-- A decoder of four channels in the clock mode.
use nomos_rt.Common.{ltb, ◌&&◌, true, none, [], ◌∷◌, ◌≡◌, refl, arith}
use nomos_rt.Numbers.{pos}
use nomos_rt.Modulators.Steps.{steps}
use nomos_rt.Modulators.Sources.{bit_at}
use nomos_rt.Modulators.CvDecoder.{
  CvChannelDecoder, cv_field, make_cv_channel_decoder, channel_active, read_span, tick,
}
use nomos_rt.Modulators.CvDecoder.Latch.{ticks, armed, latch_holds}

abbrev decoder : CvChannelDecoder steps
decoder = record (make_cv_channel_decoder steps (pos 4) [] cv_field) {
  clocked = true;
  latched_state = 9;
}

latch_holds_example :
    ((tick steps none 24 (ticks steps ((none, 24) ∷ (none, 24) ∷ []) decoder)).0.state ≡ 9)
    × (bit_at
          (tick steps none 24
            (armed steps (ticks steps ((none, 24) ∷ (none, 24) ∷ []) decoder))).0.state
          2
        ≡ (ltb 2 decoder.channels && channel_active steps decoder (read_span steps none decoder) 2))
unfolding make_cv_channel_decoder
latch_holds_example =
    latch_holds steps decoder ((none, 24) ∷ (none, 24) ∷ []) none 24 2 refl refl (omega arith)
      (omega arith)
