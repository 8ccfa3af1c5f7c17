-- ===== src/CommonArgs.antt =====
-- include/nomos/rt/common_args.hpp: the command line that all processes share. A text is its bytes and an int its
-- pattern of 32 bits. `atof` and `atoi` are those of the C library, and `whole_number` is `strtol` in base 10 for a text
-- that is a number to its end, cut to an int.
pub mod Remainder
mod Tests
use nomos_rt.Common.{
  ℕ, ◌%◌, ◌^◌, Bool, true, false, ◌==◌, if◌then◌else◌, Option, none, some, List, [], ◌∷◌, ◌++◌,
  get_or, codes, bytes_eq,
}

abbrev pub Text : Type 0
Text = List ℕ

pub record CommonArgs (V : Type 0) : Type 0 where
  pub socket_path : Text
  pub db_path : Text
  pub bpm : V
  pub midi_port : ℕ
  pub midi_port_name : Text
  pub midi_in_port : ℕ
  pub midi_in_port_name : Text
  pub osc_port : ℕ
  pub audio_device : ℕ
  pub audio_out_ch : ℕ
  pub audio_in_ch : ℕ
  pub block_size : ℕ
  pub heartbeat_ms : ℕ
  pub no_audio : Bool
  pub list_audio_devs : Bool
  pub version : Bool

module _ {V : Type 0} (atof : Text → V) (atoi : Text → ℕ) (whole_number : Text → Option ℕ) where
  -- `parse_midi`: the index and the name of a port.
  unfoldable pub parse_midi : Option ℕ → Text → ℕ × Text → ℕ × Text
  parse_midi (some n) v (index, name) = (n, name)
  parse_midi none v (index, name) = (index, v)

  abbrev pub set_midi_port : ℕ × Text → CommonArgs V → CommonArgs V
  set_midi_port port args = record args { midi_port = port.0; midi_port_name = port.1 }

  abbrev pub set_midi_in_port : ℕ × Text → CommonArgs V → CommonArgs V
  set_midi_in_port port args = record args { midi_in_port = port.0; midi_in_port_name = port.1 }

  -- The flags that take the next token.
  unfoldable pub with_value : Text → Text → CommonArgs V → Option (CommonArgs V)
  with_value a v args =
      if bytes_eq a (codes "--socket")
      then some (record args { socket_path = v })
      else if bytes_eq a (codes "--db")
      then some (record args { db_path = v })
      else if bytes_eq a (codes "--bpm")
      then some (record args { bpm = atof v })
      else if bytes_eq a (codes "--midi-port")
      then some
          (set_midi_port (parse_midi (whole_number v) v (args.midi_port, args.midi_port_name)) args)
      else if bytes_eq a (codes "--midi-in-port")
      then some (
          set_midi_in_port
            (parse_midi (whole_number v) v (args.midi_in_port, args.midi_in_port_name)) args)
      else if bytes_eq a (codes "--osc-port")
      then some (record args { osc_port = atoi v % 2 ^ 16 })
      else if bytes_eq a (codes "--audio-device")
      then some (record args { audio_device = atoi v })
      else if bytes_eq a (codes "--audio-out-ch")
      then some (record args { audio_out_ch = atoi v })
      else if bytes_eq a (codes "--audio-in-ch")
      then some (record args { audio_in_ch = atoi v })
      else if bytes_eq a (codes "--block-size")
      then some (record args { block_size = atoi v })
      else if bytes_eq a (codes "--heartbeat-ms")
      then some (record args { heartbeat_ms = atoi v })
      else none

  -- The flags that stand alone.
  unfoldable pub alone : Text → CommonArgs V → Option (CommonArgs V)
  alone a args =
      if bytes_eq a (codes "--no-audio")
      then some (record args { no_audio = true })
      else if bytes_eq a (codes "--list-audio-devices")
      then some (record args { list_audio_devs = true })
      else if bytes_eq a (codes "--version")
      then some (record args { version = true })
      else none

  -- The last token has no value behind it.
  unfoldable pub last_token :
      Text → Option (CommonArgs V) → CommonArgs V → List Text → CommonArgs V × List Text
  last_token a (some args') args rem = (args', rem)
  last_token a none args rem = (args, rem ++ a ∷ [])

  -- A token `a` with `b` behind it: `one` goes on behind `a`, and `two` behind `b`.
  unfoldable pub next_token :
      (CommonArgs V → List Text → CommonArgs V × List Text)
      → (CommonArgs V → List Text → CommonArgs V × List Text)
      → Text
      → Text
      → Option (CommonArgs V)
      → Option (CommonArgs V)
      → CommonArgs V
      → List Text
      → CommonArgs V × List Text
  next_token one two a b (some args') flag args rem = two args' rem
  next_token one two a b none (some args') args rem = one args' rem
  next_token one two a b none none args rem =
      if get_or b 0 0 == b'-' then one args (rem ++ a ∷ []) else two args (rem ++ a ∷ b ∷ [])

  -- The loop over `argv`; `rem` are the tokens left for the process itself.
  unfoldable pub parse_tokens : List Text → CommonArgs V → List Text → CommonArgs V × List Text
  parse_tokens [] args rem = (args, rem)
  parse_tokens (a ∷ []) args rem = last_token a (alone a args) args rem
  parse_tokens (a ∷ b ∷ rest) args rem =
      next_token (parse_tokens (b ∷ rest)) (parse_tokens rest) a b (with_value a b args)
        (alone a args) args rem

  unfoldable pub parse_common_args : List Text → CommonArgs V → CommonArgs V × List Text
  parse_common_args argv args = parse_tokens argv args []
