-- ===== src/Control/Tests.antt =====
-- A host with numbers in steps of 1/24 and counters for modulators, and runs of the control thread on it. A payload is
-- one byte, which says what the parser makes of it.
use nomos_rt.Common.{
  ℕ, ◌+◌, ◌-◌, ◌*◌, ◌/◌, ◌%◌, ◌^◌, ◌<◌, Bool, true, false, ◌==◌, ltb, if◌then◌else◌, ◌≡◌, ◌≢◌, refl,
  Option, none, some, List, [], ◌∷◌, ◌++◌, length, take, drop, replicate, ap, codes, bytes_eq,
  subst, sym, arith,
}
use nomos_rt.SpscQueue
use nomos_rt.SpscQueue.{SpscQueue}
use nomos_rt.SpscQueue.Refine.{IsValid, contents, fresh-IsValid}
use nomos_rt.Numbers.{ℤ, pos, negsuc, Doubles}
use nomos_rt.Edn.{
  Edn, nil, int, keyword, vector, dictionary, Items, end, item, Entries, last, entry, Dictionary,
  Text, value_or, items, entries,
}
use nomos_rt.Ipc.Stream.{Source, ReadResult, got, interrupted, closed, failed, ReadLaw, NeverFails}
use nomos_rt.InputBuffer.{in_queue_slots}
use nomos_rt.Scheduler.{ScheduledEvent, sched_queue_capacity}
use nomos_rt.Modulators.Engine.{ModulatorEngine, find}
use nomos_rt.Modulators.Engine.Maps.{count}
use nomos_rt.Modulators.Engine.Table.{IsListed}
use nomos_rt.Control.Host.{Host}
use nomos_rt.Control.State.{
  Control, param_queue_capacity, blank_input, blank_scheduled, payload_map,
}
use nomos_rt.Control.Mts.{mts_bulk_dump, mts_encode_note, checksum, tuned}
use nomos_rt.Control.Mts.Layout.{IsSevenBit, mts_bulk_dump_lem, mts_bulk_dump-entry}
use nomos_rt.Control.Uuid.{pair_value, read_pairs, parse_uuid}
use nomos_rt.Control.Notes.{blank_param, beat_of, schedule_bundle}
use nomos_rt.Control.Notes.Bundle.{bundle_events, schedule_bundle-contents}
use nomos_rt.Control.Modulators.{name_in, keyword_or_empty, updated, field}
use nomos_rt.Control.Modulators.Types.{make_slope}
use nomos_rt.Control.Modulators.Messages.{
  make_modulator, made_by, modulator_start, modulator_stop, modulator_update,
}
use nomos_rt.Control.Modulators.Isolation.{modulator_messages_isolated}
use nomos_rt.Control.Sound.{IsSound}
use nomos_rt.Control.Sound.Queues.{params-IsCapacity, inputs-IsCapacity, staging-IsCapacity}
use nomos_rt.Control.Dispatch.{dispatch_message, handle_connection}
use nomos_rt.Control.Dispatch.Invariant.{dispatch_message-IsSound}
use nomos_rt.Control.Dispatch.Malformed.{dispatch_message_malformed}
use nomos_rt.Control.Dispatch.Frames.{frames, dispatch_all, handle_connection-frames}

abbrev magnitude : ℤ → ℕ
magnitude (pos n) = n
magnitude (negsuc n) = 0

abbrev steps : Doubles
steps = record {
  D = ℕ;
  F = ℕ;
  lit = λ n d. n * 24 / d;
  of_int64 = λ n. n * 24;
  of_int = λ i. magnitude i * 24;
  add = λ a b. a + b;
  sub = λ a b. a - b;
  mul = λ a b. a * b / 24;
  div = λ a b. a * 24 / b;
  lt = ltb;
  pow = λ a b. a;
  log2 = λ a. a;
  rounded = λ a. pos (a / 24);
  truncated = λ a. a / 24;
  to_float = λ a. a;
  float_lit = λ n d. n * 24 / d;
  float_of_int64 = λ n. n * 24;
  truncated_float = λ a. a / 24;
  float_bits = λ a. a % 2 ^ 32;
}

abbrev find_entry : Dictionary ℕ → Text → Option (Edn ℕ)
find_entry [] kw = none
find_entry ((keyword k, v) ∷ es) kw = if bytes_eq k kw then some v else find_entry es kw
find_entry ((k, v) ∷ es) kw = find_entry es kw

-- A note in a bundle, with its tick.
abbrev note_item : ℕ → Edn ℕ
note_item tick = dictionary (entry (keyword (codes "at-tick")) (int tick) last)

abbrev two_notes : Items ℕ
two_notes = item (note_item 6) (item nil (item (note_item 12) end))

abbrev bundle_map : Entries ℕ
bundle_map =
    entry (keyword (codes "at-beat")) (int 4)
      (entry (keyword (codes "events")) (vector two_notes) last)

abbrev slope_map : Entries ℕ
slope_map =
    entry (keyword (codes "id")) (keyword (codes "lfo"))
      (entry (keyword (codes "type")) (keyword (codes "slope")) last)

abbrev parser : List ℕ → Option (Edn ℕ)
parser [] = none
parser (b ∷ bs) =
    if b == 1
    then some (dictionary bundle_map)
    else if b == 2
    then some (dictionary slope_map)
    else none

abbrev host : Host
host = record {
  num = steps;
  M = ℕ;
  O = ℕ;
  make = λ call. 0;
  update_of = λ key value m. m + value;
  tick_of = λ outputs beat rate m. (m, m);
  registry = none;
  parse = parser;
  find_kw = find_entry;
  opens = true;
  blank_entry = record {
    id = replicate 16 0;
    beat = 0;
    wall_ns = 0;
    source = [];
    path = nil;
    before = none;
    after = none;
    parent = none;
  };
  inet_pton = λ address. some 1;
  Lua = ℕ;
  eval = λ src lua. (src, lua + 1);
  Swap = ℕ;
  swap = λ node path n. (true, n + 1);
}

abbrev no_modulators : ModulatorEngine ℕ ℕ
no_modulators = record { mods = []; tick_order = []; last_outputs = [] }

abbrev control : Control host
control = record {
  session = none;
  params = SpscQueue.fresh (blank_param host) param_queue_capacity;
  inputs = SpscQueue.fresh (blank_input host) in_queue_slots;
  staging = some (SpscQueue.fresh (blank_scheduled host) sched_queue_capacity);
  engine = some no_modulators;
  midi = some [];
  osc = some [];
  lua = none;
  tty = none;
  swap = none;
  replies = [];
}

no_modulators-IsListed : IsListed no_modulators
unfolding find
no_modulators-IsListed id = refl

control-IsSound : IsSound control
control-IsSound = record {
  params_valid = (fresh-IsValid (blank_param host) params-IsCapacity).0;
  inputs_valid = (fresh-IsValid (blank_input host) inputs-IsCapacity).0;
  staging_valid = (fresh-IsValid (blank_scheduled host) staging-IsCapacity).0;
  engine_listed = no_modulators-IsListed;
}

dispatch_message-IsSound_example : IsSound (dispatch_message host true 0x45 (1 ∷ []) control)
dispatch_message-IsSound_example =
    dispatch_message-IsSound host true 0x45 (1 ∷ []) control control-IsSound

nine-malformed : payload_map host (9 ∷ []) ≡ none
unfolding payload_map
nine-malformed = refl

dispatch_message_malformed_example : dispatch_message host true 0x46 (9 ∷ []) control ≡ control
dispatch_message_malformed_example =
    dispatch_message_malformed host (9 ∷ []) nine-malformed control true 0x46 (omega arith)
      (omega arith)

-- A stream that gives a byte at a time, and may be interrupted once before the next.
abbrev Line : Type 0
Line = List ℕ × Bool

line_read : ℕ → Line → ReadResult × Line
line_read n (bs, true) = (interrupted, (bs, false))
line_read n ([], false) = (closed, ([], false))
line_read n (b ∷ bs, false) = (got (b ∷ []), (bs, false))

abbrev pending : Bool → ℕ
pending true = 1
pending false = 0

abbrev line : Source
line = record { S = Line; read = line_read; remaining = λ l. l.0; signals = λ l. pending l.1 }

line-ReadLaw : ReadLaw line
unfolding line_read
line-ReadLaw n (bs, true) h = (refl, omega arith)
line-ReadLaw n ([], false) h = (refl, refl)
line-ReadLaw n (b ∷ bs, false) h = (omega arith, omega arith, refl, omega arith)

abbrev HasFailed : ReadResult → Type 0
HasFailed (failed e) = Unit
HasFailed other = ⊥

line-NeverFails : NeverFails line
unfolding line_read
line-NeverFails n s e h = works s (subst HasFailed (sym h) tt)
  where
    works : (s : Line) → HasFailed (line_read n s).0 → ⊥
    works (bs, true) h = h
    works ([], false) h = h
    works (b ∷ bs, false) h = h

line_enough : (s : Line) → 2 ^ 20 + 8 + pending s.1 < 2 ^ 21
line_enough (bs, true) = omega arith
line_enough (bs, false) = omega arith

abbrev client : List (ℕ × List ℕ)
client = (0x46, 2 ∷ []) ∷ (0x45, 1 ∷ []) ∷ []

handle_connection-frames_example :
    (t : Line) × (handle_connection host line
        (2 ^ 21)
        (true ∷ true ∷ true ∷ [])
        (frames client, true)
        control
      ≡ some (
        t,
        record (dispatch_all host client (record control { session = none })) { session = none },
      ))
handle_connection-frames_example =
    handle_connection-frames host line line-ReadLaw line-NeverFails (2 ^ 21) line_enough client []
      (frames client, true) control (omega arith) refl

capital_digits :
    parse_uuid (codes "0123ABCD-0000-0000-0000-00000000000f")
    ≡ 1 ∷ 0x23 ∷ 0xab ∷ 0xcd ∷ (replicate 11 0 ++ 15 ∷ [])
unfolding parse_uuid read_pairs pair_value
capital_digits = refl

fresh_staging :
    IsValid sched_queue_capacity (SpscQueue.fresh (blank_scheduled host) sched_queue_capacity)
fresh_staging = (fresh-IsValid (blank_scheduled host) staging-IsCapacity).0

one-map : payload_map host (1 ∷ []) ≡ some (entries bundle_map)
unfolding payload_map
one-map = refl

one-beat : beat_of host (find_entry (entries bundle_map) (codes "at-beat")) ≡ some 96
unfolding beat_of
one-beat = refl

schedule_bundle-contents_example :
    (q' : SpscQueue (ScheduledEvent ℕ)) × (schedule_bundle host (1 ∷ []) control
      ≡ record control { staging = some q' })
    × IsValid sched_queue_capacity q'
    × (contents (blank_scheduled host) sched_queue_capacity q'
        ≡ take 1023 (
            contents
              (blank_scheduled host)
              sched_queue_capacity
              (SpscQueue.fresh (blank_scheduled host) sched_queue_capacity)
            ++ bundle_events host 96 (items two_notes)))
schedule_bundle-contents_example =
    schedule_bundle-contents host staging-IsCapacity (1 ∷ []) control
      (SpscQueue.fresh (blank_scheduled host) sched_queue_capacity) (entries bundle_map) 96
      (items two_notes) refl fresh_staging one-map one-beat refl

slope_made :
    make_modulator host
      (keyword_or_empty {D = ℕ} (some (keyword (codes "slope"))))
      (entries slope_map)
    ≡ some 72
unfolding make_modulator made_by make_slope updated field
slope_made = refl

first_byte : List ℕ → ℕ
first_byte [] = 0
first_byte (b ∷ bs) = b

named : codes "lfo" ≢ []
unfolding first_byte
named e = omega (arith, ap first_byte e)

apart : codes "lfo" ≢ codes "env"
unfolding first_byte
apart e = omega (arith, ap first_byte e)

modulator_messages_isolated_example :
    let started = modulator_start host (entries slope_map) no_modulators in
    let stopped = modulator_stop host (entries slope_map) no_modulators in
    (find (codes "lfo") started.mods ≡ some 72)
    × (find (codes "env") started.mods ≡ find (codes "env") no_modulators.mods)
    × (find (codes "lfo") stopped.mods ≡ none)
    × (count (codes "lfo") stopped.tick_order ≡ 0)
    × (find (codes "env") stopped.mods ≡ find (codes "env") no_modulators.mods)
    × (find (codes "env") (modulator_update host (entries slope_map) no_modulators).mods
        ≡ find (codes "env") no_modulators.mods)
unfolding name_in
modulator_messages_isolated_example =
    modulator_messages_isolated host (entries slope_map) (keyword (codes "lfo"))
      (keyword (codes "slope")) 72 (codes "env") no_modulators refl refl named slope_made apart

mts_bulk_dump_lem_example :
    (body : List ℕ) × (mts_bulk_dump steps ((69, 24) ∷ []) 3 127 ≡ 0xf0 ∷ (body ++ 0xf7 ∷ []))
    × (length body ≡ 406)
    × IsSevenBit body
    × (checksum steps body 0 ≡ 0)
mts_bulk_dump_lem_example =
    mts_bulk_dump_lem steps ((69, 24) ∷ []) 3 127 (omega arith) (omega arith)

mts_bulk_dump-entry_example :
    take 3 (drop (22 + 69 * 3) (mts_bulk_dump steps ((69, 24) ∷ []) 3 127))
    ≡ mts_encode_note steps 69 (value_or (tuned steps 69 ((69, 24) ∷ [])) (steps.lit 0 1))
mts_bulk_dump-entry_example = mts_bulk_dump-entry steps 69 ((69, 24) ∷ []) 3 127 (omega arith)
