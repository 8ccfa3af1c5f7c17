-- ===== src/Osc/Server.antt =====
-- src/osc_server.cpp: what `handle_packet` makes of a datagram, and the endpoint reply. The socket, the
-- receive thread and the callbacks are the environment: what is sent and what is dispatched is
-- recorded in order. An address of a peer is a number.
use nomos_rt.Common.{
  ℕ, suc, ◌+◌, ◌-◌, ◌*◌, ◌/◌, ◌%◌, ◌^◌, Bool, ◌==◌, ltb, leb, ◌&&◌, not, if◌then◌else◌, Option,
  none, some, List, [], ◌∷◌, ◌++◌, length, take, drop, get_or, replicate, codes, bytes_eq,
}
use nomos_rt.Events.{Note, Midi, ClapEvent, note_on, note_off, midi}
use nomos_rt.SmallVector.{copy_from}
use nomos_rt.SpscQueue.{SpscQueue}
use nomos_rt.SpscQueue

-- `strnlen(s, n)` for the bytes `s` of a buffer that ends after `n`.
unfoldable pub strnlen : List ℕ → ℕ
strnlen [] = 0
strnlen (b ∷ bs) = let rest = strnlen bs in if b == 0 then 0 else suc rest

-- `(n + 3) & ~3`
unfoldable pub pad4 : ℕ → ℕ
pad4 n = (n + 3) / 4 * 4

-- `ntohl` of four bytes.
unfoldable pub u32_at : List ℕ → ℕ → ℕ
u32_at bs i =
    get_or bs i 0 * 2 ^ 24
    + get_or bs (i + 1) 0 * 2 ^ 16
    + get_or bs (i + 2) 0 * 2 ^ 8
    + get_or bs (i + 3) 0

-- What `handle_packet` reads off a datagram before it routes it; `args` are the bytes from `args`
-- to the end of the buffer, `avail` of them.
pub record Packet : Type 0 where
  pub address : List ℕ
  pub types : List ℕ
  pub args : List ℕ
  pub avail : ℕ

unfoldable pub parse_tags : List ℕ → ℕ → ℕ → Option Packet
parse_tags buf addr_len tags_off =
    let tags_cstr = drop tags_off buf in
    let tags_len = strnlen tags_cstr in
    let args_off = tags_off + pad4 (tags_len + 1) in
    if get_or tags_cstr 0 0 == b','
    then some (record {
      address = take addr_len buf;
      types = take (tags_len - 1) (drop 1 tags_cstr);
      args = drop args_off buf;
      avail = if ltb args_off (length buf) then length buf - args_off else 0;
    })
    else none

unfoldable pub parse_packet : List ℕ → Option Packet
parse_packet buf =
    let len = length buf in
    let addr_len = strnlen buf in
    let tags_off = pad4 (addr_len + 1) in
    if ltb len 8
    then none
    else if leb len addr_len
    then none
    else if leb len tags_off
    then none
    else parse_tags buf addr_len tags_off

-- `build_osc_string_msg`: the datagram is all zeros at first, and three copies fill it.
unfoldable pub build_osc_string_msg : List ℕ → List ℕ → List ℕ
build_osc_string_msg addr payload =
    let addr_padded = pad4 (length addr + 1) in
    let str_padded = pad4 (length payload + 1) in
    let pkt = replicate (addr_padded + 4 + str_padded) 0 in
    copy_from (payload ++ 0 ∷ []) (addr_padded + 4)
      (copy_from (b',' ∷ b's' ∷ []) addr_padded (copy_from (addr ++ 0 ∷ []) 0 pkt))

-- `widen` converts a float, given by its bits, to a double.
pub record Server (V : Type 0) : Type 0 where
  pub sock_open : Bool
  pub queue : SpscQueue (ClapEvent V)
  -- What `get_endpoints` returns, if it is set; and whether `dispatch` is set.
  pub endpoints : Option (List ℕ)
  pub dispatch_set : Bool
  pub last_sender : Option ℕ
  pub sent : List (ℕ × List ℕ)
  pub dispatched : List Packet

module _ {V : Type 0} (zero_velocity : V) (widen : ℕ → V) (blank : ClapEvent V) where
  abbrev pub in_queue_capacity : ℕ
  in_queue_capacity = 256

  unfoldable pub push_event : ClapEvent V → Server V → Server V
  push_event ev s = record s { queue = (SpscQueue.push blank in_queue_capacity ev s.queue).1 }

  unfoldable pub send_udp : ℕ → List ℕ → Server V → Server V
  send_udp dest bytes s =
      if not s.sock_open
      then s
      else if length bytes == 0
      then s
      else record s { sent = s.sent ++ (dest, bytes) ∷ [] }

  -- The note fields of a route: three int32 words cast to int16.
  unfoldable pub note_of : List ℕ → V → Note V
  note_of args velocity = record {
    time = 0;
    note_id = 2 ^ 32 - 1;
    port_index = u32_at args 0 % 2 ^ 16;
    channel = u32_at args 4 % 2 ^ 16;
    key = u32_at args 8 % 2 ^ 16;
    velocity = velocity;
  }

  unfoldable pub midi_of : List ℕ → Midi
  midi_of args = record {
    time = 0;
    port_index = u32_at args 0 % 2 ^ 16;
    data0 = u32_at args 4 % 2 ^ 8;
    data1 = u32_at args 8 % 2 ^ 8;
    data2 = u32_at args 12 % 2 ^ 8;
  }

  -- `push_endpoints`, and the reply to "/nous/endpoints".
  unfoldable pub push_endpoints : Server V → Server V
  push_endpoints s = elim s.endpoints [
    | none ↦ s
    | some paths ↦ elim s.last_sender [
      | none ↦ s
      | some dest ↦ send_udp dest (build_osc_string_msg (codes "/nous/endpoints") paths) s
    ]
  ]

  unfoldable pub route : Packet → Server V → Server V
  route p s =
      if bytes_eq p.address (codes "/nous/note/on")
        && bytes_eq p.types (codes "iiif")
        && leb 16 p.avail
      then push_event (note_on (note_of p.args (widen (u32_at p.args 12)))) s
      else if bytes_eq p.address (codes "/nous/note/off")
          && bytes_eq p.types (codes "iii")
          && leb 12 p.avail
      then push_event (note_off (note_of p.args zero_velocity)) s
      else if bytes_eq p.address (codes "/nous/midi")
          && bytes_eq p.types (codes "iiii")
          && leb 16 p.avail
      then push_event (midi (midi_of p.args)) s
      else if bytes_eq p.address (codes "/nous/endpoints")
      then push_endpoints s
      else if s.dispatch_set
      then record s { dispatched = s.dispatched ++ p ∷ [] }
      else s

  unfoldable pub handle_packet : List ℕ → Server V → Server V
  handle_packet buf s = elim (parse_packet buf) [ none ↦ s | some p ↦ route p s ]

  -- One turn of `run`, for a datagram that has been received.
  unfoldable pub receive : ℕ → List ℕ → Server V → Server V
  receive sender buf s = handle_packet buf (record s { last_sender = some sender })
