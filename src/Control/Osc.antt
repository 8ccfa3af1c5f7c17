-- ===== src/Control/Osc.antt =====
-- include/nomos/rt/osc_event.hpp, and the OSC messages of src/rt_control_thread.cpp: `build_osc_event_from_edn` and the
-- handler of `msg_osc`.
use nomos_rt.Common.{
  ℕ, ◌%◌, ◌^◌, Bool, true, false, ◌==◌, leb, if◌then◌else◌, Option, none, some, List, [], ◌∷◌, ◌++◌,
  length, codes, bytes_eq,
}
use nomos_rt.SmallVector
use nomos_rt.SmallVector.{SmallVector}
use nomos_rt.Edn.{
  Edn, int, double, string, Dictionary, Text, as_int, as_string, as_vector, value_or,
}
use nomos_rt.Osc.Encode.{Arg, make_i, make_f, make_s, encode}
use nomos_rt.Scheduler.{OscEvent, osc_event_max_bytes}
use nomos_rt.Control.Host.{Host}
use nomos_rt.Control.State.{Control, payload_map}

-- What a C function reads of a text: the bytes up to the first zero.
unfoldable pub c_text : Text → Text
c_text [] = []
c_text (b ∷ bs) = let rest = b ∷ c_text bs in if b == 0 then [] else rest

abbrev pub loopback : Text
loopback = codes "127.0.0.1"

-- The bytes of `host_z`.
abbrev pub host_buffer : ℕ
host_buffer = 64

module _ (h : Host) where
  -- The address; the port is stored beside it.
  unfoldable pub resolve_osc_endpoint : Text → Option ℕ
  resolve_osc_endpoint host =
      if leb host_buffer (length host)
      then none
      else h.inet_pton (if bytes_eq host (codes "localhost") then loopback else c_text host)

  unfoldable pub encoded : ℕ → ℕ → Bool × SmallVector ℕ → Option OscEvent
  encoded address port (true, bytes) =
      some (record { address = address; port = port; bytes = bytes })
  encoded address port (false, bytes) = none

  -- `none` where the code returns false.
  unfoldable pub build_osc_event : Text → ℕ → Text → List Arg → Option OscEvent
  unfolding resolve_osc_endpoint encoded
  build_osc_event host port address args = elim (resolve_osc_endpoint host) [
    | none ↦ none
    | some dest ↦
        encoded dest port
          (encode osc_event_max_bytes address args (SmallVector.empty_vector osc_event_max_bytes 0))
  ]

  -- The arguments by the types of the items; an item of another type is dropped.
  unfoldable pub args_of : List (Edn h.num.D) → List Arg
  args_of [] = []
  args_of (int n ∷ es) = make_i (n % 2 ^ 32) ∷ args_of es
  args_of (double x ∷ es) = make_f (h.num.float_bits (h.num.to_float x)) ∷ args_of es
  args_of (string s ∷ es) = make_s s ∷ args_of es
  args_of (e ∷ es) = args_of es

  unfoldable pub built : Dictionary h.num.D → Option Text → Option ℕ → Option OscEvent
  unfolding args_of
  built m (some address) (some port) =
      build_osc_event (value_or (as_string (h.find_kw m (codes "host"))) loopback) (port % 2 ^ 16)
        address (args_of (value_or (as_vector (h.find_kw m (codes "args"))) []))
  built m address port = none

  unfoldable pub build_osc_event_from_edn : Dictionary h.num.D → Option OscEvent
  unfolding built
  build_osc_event_from_edn m =
      built m (as_string (h.find_kw m (codes "address"))) (as_int (h.find_kw m (codes "port")))

  -- `if (build_osc_event_from_edn(…)) cfg_.osc->send_event(ev)`
  unfoldable pub sent_osc : Option OscEvent → List OscEvent → List OscEvent
  sent_osc none sent = sent
  sent_osc (some ev) sent = sent ++ ev ∷ []

  unfoldable pub send_osc : Option (Dictionary h.num.D) → List OscEvent → List OscEvent
  unfolding sent_osc
  send_osc none sent = sent
  send_osc (some m) sent = sent_osc (build_osc_event_from_edn m) sent

  unfoldable pub osc_payload :
      Option (Dictionary h.num.D) → Option (List OscEvent) → Control h → Control h
  unfolding send_osc
  osc_payload m none c = c
  osc_payload m (some sent) c = record c { osc = some (send_osc m sent) }

  unfoldable pub osc_message : List ℕ → Control h → Control h
  unfolding osc_payload
  osc_message payload c = osc_payload (payload_map h payload) c.osc c
