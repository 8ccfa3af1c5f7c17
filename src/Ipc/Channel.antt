-- ===== src/Ipc/Channel.antt =====
-- src/ipc_channel.cpp on a little-endian host. The two loops take fuel; `Transfer` proves how much is
-- enough.
use nomos_rt.Common.{
  ℕ, zero, suc, ◌+◌, ◌-◌, ◌*◌, ◌/◌, ◌%◌, ◌^◌, Bool, true, false, ◌==◌, ltb, if◌then◌else◌, Option,
  none, some, List, [], ◌∷◌, ◌++◌, length, take, drop, get_or,
}
use nomos_rt.Ipc.Stream.{
  Source, Sink, ReadResult, got, interrupted, closed, failed, WriteResult, took, write_interrupted,
  write_failed,
}

pub data ChannelError : Type 0 where
  eof io_error frame_too_large : ChannelError

abbrev pub max_payload_bytes : ℕ
max_payload_bytes = 2 ^ 20

abbrev pub header_size : ℕ
header_size = 8

-- `header`, with `payload_len` in host order, and `message`.
pub record Message : Type 0 where
  pub payload_len : ℕ
  pub type : ℕ
  pub reserved : List ℕ
  pub payload : List ℕ

pub data Result (A : Type 0) : Type 0 where
  ok : A → Result A
  err : ChannelError → Result A

abbrev pub econnreset : ℕ
econnreset = 104

-- What `errno` says after a read that failed: 0 after the end of the stream.
unfoldable pub read_error : ℕ → ChannelError
read_error errno = if errno == 0 then eof else if errno == econnreset then eof else io_error

-- How `read_exact` ends: with the bytes, or false with `errno` set.
pub data Exact : Type 0 where
  filled : List ℕ → Exact
  short : ℕ → Exact

-- `__builtin_bswap32`, and a `uint32_t` in the memory of a little-endian host.
unfoldable pub bswap32 : ℕ → ℕ
bswap32 v =
    v % 2 ^ 8 * 2 ^ 24
    + v / 2 ^ 8 % 2 ^ 8 * 2 ^ 16
    + v / 2 ^ 16 % 2 ^ 8 * 2 ^ 8
    + v / 2 ^ 24 % 2 ^ 8

unfoldable pub store_u32 : ℕ → List ℕ
store_u32 v = v % 2 ^ 8 ∷ v / 2 ^ 8 % 2 ^ 8 ∷ v / 2 ^ 16 % 2 ^ 8 ∷ v / 2 ^ 24 % 2 ^ 8 ∷ []

unfoldable pub load_u32 : List ℕ → ℕ
load_u32 bs =
    get_or bs 0 0 + get_or bs 1 0 * 2 ^ 8 + get_or bs 2 0 * 2 ^ 16 + get_or bs 3 0 * 2 ^ 24

module _ (src : Source) where
  open src use {S, read}

  -- What one turn of the loop does with the call's result; `again` is the rest of the loop.
  unfoldable pub read_turn :
      (ℕ → List ℕ → S → Option (Exact × S)) → ℕ → List ℕ → ReadResult → S → Option (Exact × S)
  read_turn again rem buf (got bs) t = again (rem - length bs) (buf ++ bs) t
  read_turn again rem buf interrupted t = again rem buf t
  read_turn again rem buf closed t = some (short 0, t)
  read_turn again rem buf (failed e) t = some (short e, t)

  -- `rem` bytes are still to come; `none` means that the fuel ran out.
  unfoldable pub read_exact : ℕ → ℕ → List ℕ → S → Option (Exact × S)
  read_exact zero rem buf s = none
  read_exact (suc fuel) rem buf s = elim (rem == 0) [
    | true ↦ some (filled buf, s)
    | false ↦ read_turn (read_exact fuel) rem buf (read rem s).0 (read rem s).1
  ]

  unfoldable pub payload_result :
      (List ℕ → Message) → Option (Exact × S) → Option (Result Message × S)
  payload_result message_of none = none
  payload_result message_of (some (filled payload, t)) = some (ok (message_of payload), t)
  payload_result message_of (some (short errno, t)) = some (err (read_error errno), t)

  -- The header is the first `header_size` bytes; the second read is skipped for an empty payload.
  unfoldable pub read_payload : ℕ → List ℕ → S → Option (Result Message × S)
  read_payload fuel hdr s =
      let len = bswap32 (load_u32 hdr) in
      let message_of : List ℕ → Message = λ payload. record {
        payload_len = len;
        type = get_or hdr 4 0;
        reserved = drop 5 hdr;
        payload = payload;
      } in
      if ltb max_payload_bytes len
      then some (err frame_too_large, s)
      else if len == 0
      then some (ok (message_of []), s)
      else payload_result message_of (read_exact fuel len [] s)

  unfoldable pub header_result : ℕ → Option (Exact × S) → Option (Result Message × S)
  header_result fuel none = none
  header_result fuel (some (filled hdr, t)) = read_payload fuel hdr t
  header_result fuel (some (short errno, t)) = some (err (read_error errno), t)

  unfoldable pub read_message : ℕ → S → Option (Result Message × S)
  read_message fuel s = header_result fuel (read_exact fuel header_size [] s)

-- `static_cast<uint32_t>(payload.size())`
unfoldable pub wire_length : List ℕ → ℕ
wire_length payload = length payload % 2 ^ 32

module _ (snk : Sink) where
  open snk use {S, write}

  unfoldable pub write_turn :
      (List ℕ → S → Option (Bool × S)) → List ℕ → WriteResult → S → Option (Bool × S)
  write_turn again bs (took zero) t = some (false, t)
  write_turn again bs (took (suc k)) t = again (drop (suc k) bs) t
  write_turn again bs write_interrupted t = again bs t
  write_turn again bs (write_failed e) t = some (false, t)

  -- The bytes that are still to go.
  unfoldable pub write_exact : ℕ → List ℕ → S → Option (Bool × S)
  write_exact zero bs s = none
  write_exact (suc fuel) bs s = elim (length bs == 0) [
    | true ↦ some (true, s)
    | false ↦ write_turn (write_exact fuel) bs (write bs s).0 (write bs s).1
  ]

  unfoldable pub write_result : Option (Bool × S) → Option (Result (Unit {0}) × S)
  write_result none = none
  write_result (some (false, t)) = some (err io_error, t)
  write_result (some (true, t)) = some (ok tt, t)

  -- What follows the header: nothing if it failed or the payload is empty.
  unfoldable pub write_payload : ℕ → List ℕ → Option (Bool × S) → Option (Result (Unit {0}) × S)
  write_payload fuel payload none = none
  write_payload fuel payload (some (false, t)) = some (err io_error, t)
  write_payload fuel payload (some (true, t)) =
      if wire_length payload == 0
      then some (ok tt, t)
      else write_result (write_exact fuel (take (wire_length payload) payload) t)

  unfoldable pub write_message : ℕ → ℕ → List ℕ → S → Option (Result (Unit {0}) × S)
  write_message fuel type payload s =
      let hdr = store_u32 (bswap32 (wire_length payload)) ++ type ∷ 0 ∷ 0 ∷ 0 ∷ [] in
      write_payload fuel payload (write_exact fuel hdr s)
