-- ===== src/Modulators/CvDecoder.antt =====
-- src/cv_channel_decoder.cpp: a span divided into channels, with the speed of the span and a latch.
pub mod Channels
pub mod Latch
mod Tests
use nomos_rt.Common.{
  ℕ, zero, suc, ◌+◌, ◌^◌, Bool, true, false, not, bit_or, ◌&&◌, ◌==◌, if◌then◌else◌, Option, none,
  some, codes, bytes_eq,
}
use nomos_rt.Edn.{Text}
use nomos_rt.Numbers.{ℤ}
use nomos_rt.Modulators.Floats.{Floats, ModulatorOutput, blank_output, clamp, lesser}
use nomos_rt.Modulators.ShiftRegister.{clamp_int}
use nomos_rt.Modulators.Sources.{Engine, Source, unread, read, source_of}

pub data SourceField : Type 0 where
  cv_field aux_field gate_field : SourceField

abbrev pub max_channels : ℕ
max_channels = 8

-- The loop over the channels, with the index and the number of those to come.
unfoldable pub channels_from : (ℕ → Bool) → ℕ → ℕ → ℕ → ℕ
channels_from active i zero bitmap = bitmap
channels_from active i (suc n) bitmap =
    channels_from active (suc i) n (if active i then bit_or bitmap (2 ^ i) else bitmap)

module _ (fl : Floats) where
  open fl use {F, lit, lt, le}

  pub record CvChannelDecoder : Type 0 where
    pub channels : ℕ
    pub source_id : Text
    pub source_field : SourceField
    pub span : F
    pub space : F
    pub prev_span : F
    pub first_tick : Bool
    pub clocked : Bool
    pub clock_pending : Bool
    pub latched_state : ℕ

  unfoldable pub make_cv_channel_decoder : ℤ → Text → SourceField → CvChannelDecoder
  unfolding clamp_int
  make_cv_channel_decoder channels source_id source_field = record {
    channels = clamp_int 1 max_channels channels;
    source_id = source_id;
    source_field = source_field;
    span = lit 0 1;
    space = lit 1 1;
    prev_span = lit 0 1;
    first_tick = true;
    clocked = false;
    clock_pending = false;
    latched_state = 0;
  }

  unfoldable pub field_value : SourceField → ModulatorOutput F → F
  field_value cv_field out = out.cv
  field_value aux_field out = out.aux
  field_value gate_field out = if out.gate then lit 1 1 else fl.neg (lit 1 1)

  unfoldable pub span_from : Source F → SourceField → F → F
  unfolding field_value
  span_from unread source_field span = span
  span_from (read none) source_field span = span
  span_from (read (some out)) source_field span = field_value source_field out

  unfoldable pub read_span : Engine fl → CvChannelDecoder → F
  read_span engine s = span_from (source_of fl engine s.source_id) s.source_field s.span

  unfoldable pub channel_active : CvChannelDecoder → F → ℕ → Bool
  channel_active s span ch =
      let n = fl.of_word s.channels in
      let hw = fl.div (lit 1 1) n in
      let ctr =
        fl.add (fl.neg (lit 1 1))
          (fl.div (fl.add (fl.mul (lit 2 1) (fl.of_word ch)) (lit 1 1)) n) in
      le (fl.sub ctr (fl.mul s.space hw)) span && le span (fl.add ctr (fl.mul s.space hw))

  unfoldable pub velocity_of : F → F → CvChannelDecoder → F
  velocity_of span rate s =
      if not s.first_tick && lt (lit 0 1) rate
      then lesser fl (lit 1 1) (fl.mul (fl.mul (fl.abs (fl.sub span s.prev_span)) rate) (lit 1 2))
      else lit 0 1

  unfoldable pub bitmap_of : CvChannelDecoder → F → ℕ
  bitmap_of s span = channels_from (channel_active s span) 0 s.channels 0

  -- The clock mode: what is put out of a bitmap.
  unfoldable pub latch : ℕ → CvChannelDecoder → ℕ × CvChannelDecoder
  latch bitmap s =
      if s.clocked
      then (let kept = if s.clock_pending then bitmap else s.latched_state in
          (kept, record s { latched_state = kept; clock_pending = false }))
      else (bitmap, s)

  unfoldable pub tick : Engine fl → F → CvChannelDecoder → ModulatorOutput F × CvChannelDecoder
  unfolding velocity_of latch
  tick engine rate s =
      let span = read_span engine s in
      let (bitmap, s') =
        latch (bitmap_of s span) (record s { first_tick = false; prev_span = span }) in
      (
        record (blank_output fl) {
          cv = velocity_of span rate s;
          aux = span;
          gate = not (bitmap == 0);
          state = bitmap;
        },
        s',
      )

  unfoldable pub update : Text → F → CvChannelDecoder → CvChannelDecoder
  update key value s =
      if bytes_eq key (codes "span")
      then record s { span = clamp fl value (fl.neg (lit 1 1)) (lit 1 1) }
      else if bytes_eq key (codes "space")
      then record s { space = clamp fl value (lit 0 1) (lit 2 1) }
      else if bytes_eq key (codes "clocked")
      then record s { clocked = lt (lit 1 2) value }
      else if bytes_eq key (codes "clock_tick") && lt (lit 1 2) value
      then record s { clock_pending = true }
      else s
