-- ===== src/Ipc/Frames.antt =====
-- The frames that `write_message` writes and `read_message` reads.
use nomos_rt.Common.{
  All, ℕ, ◌+◌, ◌*◌, ◌/◌, ◌%◌, ◌^◌, ◌≤◌, ◌<◌, ◌==◌, ltb, if◌then◌else◌, Option, none, some, List, [],
  ◌∷◌, ◌++◌, length, take, drop, length-append, take-length, drop-length, ◌≡◌, refl, sym, arith,
  Bool-cases, inl, inr,
}
use nomos_rt.Ipc.Stream.{Source, ReadLaw, NeverFails}
use nomos_rt.Ipc.Channel.{
  eof, frame_too_large, max_payload_bytes, header_size, Message, Result, ok, err, read_error, Exact,
  filled, short, bswap32, load_u32, read_exact, read_payload, read_message, payload_result,
  header_result,
}
use nomos_rt.Ipc.Transfer.{Taken, read_exact-Taken}

-- A big-endian 32-bit number.
abbrev pub be32 : ℕ → ℕ → ℕ → ℕ → ℕ
be32 a b c d = a * 2 ^ 24 + b * 2 ^ 16 + c * 2 ^ 8 + d

-- The layout of a frame: the length of the payload in network order, the type, three reserved bytes,
-- the payload.
abbrev pub frame : ℕ → List ℕ → List ℕ
frame type payload =
    let n = length payload in
    n / 2 ^ 24 % 2 ^ 8
    ∷ n / 2 ^ 16 % 2 ^ 8
    ∷ n / 2 ^ 8 % 2 ^ 8
    ∷ n % 2 ^ 8
    ∷ type
    ∷ 0
    ∷ 0
    ∷ 0
    ∷ payload

-- What the front of a stream of bytes says, and what is left of it.
abbrev pub split_payload : ℕ → ℕ → List ℕ → List ℕ → Result Message × List ℕ
split_payload len type reserved bytes =
    if ltb max_payload_bytes len
    then (err frame_too_large, bytes)
    else if ltb (length bytes) len
    then (err eof, [])
    else (
      ok (record { payload_len = len; type = type; reserved = reserved; payload = take len bytes }),
      drop len bytes,
    )

unfoldable pub split_frame : List ℕ → Result Message × List ℕ
split_frame (a ∷ b ∷ c ∷ d ∷ type ∷ x ∷ y ∷ z ∷ bytes) =
    split_payload (be32 a b c d) type (x ∷ y ∷ z ∷ []) bytes
split_frame other = (err eof, [])

-- The bytes of a stream are below 256.
abbrev pub AreBytes : List ℕ → Type 0
AreBytes = All (λ b. b < 256)

pub network_order :
    (n : ℕ)
    → n < 2 ^ 32
    → be32 (n / 2 ^ 24 % 2 ^ 8) (n / 2 ^ 16 % 2 ^ 8) (n / 2 ^ 8 % 2 ^ 8) (n % 2 ^ 8) ≡ n
network_order n h = omega arith

-- What `read_message` makes of the four length bytes.
pub swapped_length :
    (a b c d : ℕ) (hdr : List ℕ)
    → a < 256
    → b < 256
    → c < 256
    → d < 256
    → bswap32 (load_u32 (a ∷ b ∷ c ∷ d ∷ hdr)) ≡ be32 a b c d
unfolding bswap32 load_u32
swapped_length a b c d hdr ha hb hc hd = omega arith

-- A frame, with a payload that is not too long, is read back whatever follows it.
pub split_frame-frame :
    (type : ℕ) (payload rest : List ℕ)
    → length payload ≤ max_payload_bytes
    → split_frame (frame type payload ++ rest) ≡ (
      ok (record {
        payload_len = length payload;
        type = type;
        reserved = 0 ∷ 0 ∷ 0 ∷ [];
        payload = payload;
      }),
      rest,
    )
unfolding split_frame
split_frame-frame type payload rest h = ground (
  arith,
  network_order (length payload) (omega arith),
  length-append payload rest,
  take-length payload rest,
  drop-length payload rest,
)

split_frame_of_short :
    (bytes : List ℕ) → length bytes < header_size → split_frame bytes ≡ (err eof, [])
unfolding split_frame
split_frame_of_short [] h = refl
split_frame_of_short (a ∷ []) h = refl
split_frame_of_short (a ∷ b ∷ []) h = refl
split_frame_of_short (a ∷ b ∷ c ∷ []) h = refl
split_frame_of_short (a ∷ b ∷ c ∷ d ∷ []) h = refl
split_frame_of_short (a ∷ b ∷ c ∷ d ∷ type ∷ []) h = refl
split_frame_of_short (a ∷ b ∷ c ∷ d ∷ type ∷ x ∷ []) h = refl
split_frame_of_short (a ∷ b ∷ c ∷ d ∷ type ∷ x ∷ y ∷ []) h = refl
split_frame_of_short (a ∷ b ∷ c ∷ d ∷ type ∷ x ∷ y ∷ z ∷ bytes) h = absurd (omega arith)

-- A read that gives what `r` says of the stream, and leaves what it says is left.
abbrev pub Reads :
    (src : Source) → Option (Result Message × src.S) → Result Message × List ℕ → Type 0
Reads src o r = (t : src.S) × (o ≡ some (r.0, t)) × (src.remaining t ≡ r.1)

module _ (src : Source) (law : ReadLaw src) (sound : NeverFails src) where
  payload_result-Reads :
      (len : ℕ) (message_of : List ℕ → Message) (s : src.S) (o : Option (Exact × src.S))
      → Taken src len s o
      → Reads src (payload_result src message_of o) (
          if ltb (length (src.remaining s)) len
          then (err eof, [])
          else (ok (message_of (take len (src.remaining s))), drop len (src.remaining s)))
  unfolding payload_result read_error
  payload_result-Reads len message_of s none taken = absurd taken
  payload_result-Reads len message_of s (some (filled bs, t)) (long, all, rest, l) =
      (t, ground arith, ground arith)
  payload_result-Reads len message_of s (some (short e, t)) (zero_errno, few, rest) =
      (t, ground arith, ground arith)

  payload_branches :
      (fuel len : ℕ) (message_of : List ℕ → Message) (s : src.S)
      → max_payload_bytes + src.signals s < fuel
      → Reads src
          (if ltb max_payload_bytes len
            then some (err frame_too_large, s)
            else if len == 0
            then some (ok (message_of []), s)
            else payload_result src message_of (read_exact src fuel len [] s))
          (if ltb max_payload_bytes len
            then (err frame_too_large, src.remaining s)
            else if ltb (length (src.remaining s)) len
            then (err eof, [])
            else (ok (message_of (take len (src.remaining s))), drop len (src.remaining s)))
  payload_branches fuel len message_of s enough = elim (Bool-cases (ltb max_payload_bytes len)) [
    | inl large ↦ (s, ground (arith, large), ground (arith, large))
    | inr fits ↦ elim (Bool-cases (len == 0)) [
      | inl empty ↦ (s, ground (arith, fits, empty), ground (arith, fits, empty))
      | inr more ↦
          let r =
            payload_result-Reads len message_of s _
              (read_exact-Taken src fuel len s law sound (ground (arith, fits))) in
          (r.0, ground (arith, fits, more, r.1), ground (arith, fits, more, r.2))
    ]
  ]

  read_payload-Reads :
      (fuel a b c d type x y z : ℕ) (s : src.S)
      → a < 256
      → b < 256
      → c < 256
      → d < 256
      → max_payload_bytes + src.signals s < fuel
      → Reads src
          (read_payload src fuel (a ∷ b ∷ c ∷ d ∷ type ∷ x ∷ y ∷ z ∷ []) s)
          (split_payload (be32 a b c d) type (x ∷ y ∷ z ∷ []) (src.remaining s))
  unfolding read_payload
  read_payload-Reads fuel a b c d type x y z s ha hb hc hd enough =
      rw (swapped_length a b c d (type ∷ x ∷ y ∷ z ∷ []) ha hb hc hd) (
        payload_branches fuel (be32 a b c d)
          (λ payload. record {
            payload_len = be32 a b c d;
            type = type;
            reserved = x ∷ y ∷ z ∷ [];
            payload = payload;
          })
          s enough)

  after_header :
      (fuel : ℕ) (bs : List ℕ) (t : src.S)
      → AreBytes bs
      → header_size ≤ length bs
      → src.remaining t ≡ drop header_size bs
      → max_payload_bytes + src.signals t < fuel
      → Reads src (read_payload src fuel (take header_size bs) t) (split_frame bs)
  unfolding split_frame
  after_header fuel (a ∷ b ∷ c ∷ d ∷ type ∷ x ∷ y ∷ z ∷ bs) t (ha, (hb, (hc, (hd, more)))) long e
        enough =
      rw (sym e) (read_payload-Reads fuel a b c d type x y z t ha hb hc hd enough)
  after_header fuel other t bytes long e enough = absurd (omega arith)

  header_branches :
      (fuel : ℕ) (s : src.S) (o : Option (Exact × src.S))
      → AreBytes (src.remaining s)
      → max_payload_bytes + header_size + src.signals s < fuel
      → Taken src header_size s o
      → Reads src (header_result src fuel o) (split_frame (src.remaining s))
  unfolding header_result read_error
  header_branches fuel s none bytes enough taken = absurd taken
  header_branches fuel s (some (filled bs, t)) bytes enough (long, all, rest, l) =
      rw all (after_header fuel (src.remaining s) t bytes long rest (omega arith))
  header_branches fuel s (some (short e, t)) bytes enough (zero_errno, few, rest) =
      let r = split_frame_of_short (src.remaining s) few in
      (t, ground (arith, r, zero_errno), ground (arith, r, rest))

  -- On a stream that does not fail, and with enough fuel, `read_message` returns what the front of the
  -- stream says: the frame's message, the end of the stream if it holds less than a frame, or that the
  -- frame is too large. It takes the whole frame, and of one that is too large the header.
  pub read_message-Reads :
      (fuel : ℕ) (s : src.S)
      → AreBytes (src.remaining s)
      → max_payload_bytes + header_size + src.signals s < fuel
      → Reads src (read_message src fuel s) (split_frame (src.remaining s))
  unfolding read_message
  read_message-Reads fuel s bytes enough =
      header_branches fuel s _ bytes enough
        (read_exact-Taken src fuel header_size s law sound (omega arith))
