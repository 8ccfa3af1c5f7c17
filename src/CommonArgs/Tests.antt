-- ===== src/CommonArgs/Tests.antt =====
-- Command lines; the two conversions read the first byte.
use nomos_rt.Common.{ℕ, ◌-◌, true, false, Option, none, List, [], ◌∷◌, get_or, codes, ◌≡◌, refl}
use nomos_rt.CommonArgs.{
  Text, CommonArgs, with_value, alone, last_token, next_token, parse_tokens, parse_common_args,
}
use nomos_rt.CommonArgs.Remainder.{
  Item, foreign_pair, setting, switch, is_among, is_reading, spelled, left_over, configured,
  parse_common_args_divides,
}

abbrev digit : Text → ℕ
digit v = get_or v 0 0 - 48

abbrev no_number : Text → Option ℕ
no_number v = none

abbrev defaults : CommonArgs ℕ
defaults = record {
  socket_path = [];
  db_path = codes "nomos.db";
  bpm = 120;
  midi_port = 4294967295;
  midi_port_name = [];
  midi_in_port = 4294967295;
  midi_in_port_name = [];
  osc_port = 9000;
  audio_device = 0;
  audio_out_ch = 2;
  audio_in_ch = 0;
  block_size = 256;
  heartbeat_ms = 0;
  no_audio = false;
  list_audio_devs = false;
  version = false;
}

abbrev mixed : List Text
mixed = codes "--plugin" ∷ codes "x" ∷ codes "--osc-port" ∷ codes "7" ∷ codes "--no-audio" ∷ []

mixed_line :
    parse_common_args digit digit no_number mixed defaults
    ≡ (record defaults { osc_port = 7; no_audio = true }, codes "--plugin" ∷ codes "x" ∷ [])
unfolding parse_common_args parse_tokens next_token last_token with_value alone
mixed_line = refl

parse_common_args_divides_example :
    (items : List Item) × (is_reading items ≡ true)
    × (spelled items ≡ mixed)
    × (parse_common_args digit digit no_number mixed defaults
        ≡ (configured digit digit no_number items defaults, left_over items))
parse_common_args_divides_example = parse_common_args_divides digit digit no_number mixed defaults

-- The reading of that line.
abbrev mixed_items : List Item
mixed_items =
    foreign_pair (codes "--plugin") (codes "x")
    ∷ setting (codes "--osc-port") (codes "7")
    ∷ switch (codes "--no-audio")
    ∷ []

mixed_reading : (is_reading mixed_items ≡ true) × (spelled mixed_items ≡ mixed)
unfolding is_reading spelled is_among
mixed_reading = (refl, refl)

-- The same tokens with one of them kept that is a setting are no reading.
no_reading :
    is_reading (foreign_pair (codes "--osc-port") (codes "7") ∷ switch (codes "--no-audio") ∷ [])
    ≡ false
unfolding is_reading is_among
no_reading = refl
