-- ===== src/Control/Dispatch/Frames.antt =====
-- The frames that reach `dispatch_message`, through a buffer or over a connection.
use nomos_rt.Common.{
  ℕ, suc, ◌+◌, ◌-◌, ◌/◌, ◌%◌, ◌^◌, ◌≤◌, ◌<◌, Bool, true, false, ◌≡◌, refl, sym, ap, ◌∙◌, none, some,
  List, [], ◌∷◌, ◌++◌, length, take, replicate, arith, take-length, length-append, length-take,
  lt→ltb, subst,
}
use native.Mathlib.Decide.{dec_lt}
use nomos_rt.Ipc.Stream.{Source, ReadLaw, NeverFails}
use nomos_rt.Ipc.Channel.{max_payload_bytes, header_size, bswap32, load_u32}
use nomos_rt.Ipc.Frames.{
  AreBytes, frame, network_order, swapped_length, split_frame, split_frame-frame,
  read_message-Reads,
}
use nomos_rt.Ipc.RoundTrip.{AreBytes-frame}
use nomos_rt.Control.Host.{Host}
use nomos_rt.Control.State.{Control}
use nomos_rt.Control.Dispatch.{
  parse_ctrl_frame, dispatch_message, dispatch_frame, dispatch_ctrl_frame, serve_message, serve,
  ended, handle_connection,
}

-- The length in the header of a frame, whatever follows the four bytes.
frame_length :
    (payload rest : List ℕ)
    → length payload < 2 ^ 32
    → (let n = length payload in
        bswap32 (
          load_u32
            (n / 2 ^ 24 % 2 ^ 8 ∷ n / 2 ^ 16 % 2 ^ 8 ∷ n / 2 ^ 8 % 2 ^ 8 ∷ n % 2 ^ 8 ∷ rest)))
      ≡ length payload
frame_length payload rest fits =
    swapped_length _ _ _ _ rest (omega arith) (omega arith) (omega arith) (omega arith)
    ∙ network_order (length payload) fits

parse_ctrl_frame-frame :
    (type : ℕ) (payload rest : List ℕ)
    → length payload < 2 ^ 32
    → parse_ctrl_frame (frame type payload ++ rest) ≡ some (type, payload)
unfolding parse_ctrl_frame
parse_ctrl_frame-frame type payload rest fits =
    rw (frame_length payload (type ∷ 0 ∷ 0 ∷ 0 ∷ (payload ++ rest)) fits)
      (ground (arith, length-append payload rest, take-length payload rest))

-- The header of a frame.
abbrev frame_header : ℕ → List ℕ → List ℕ
frame_header type payload =
    let n = length payload in
    n / 2 ^ 24 % 2 ^ 8 ∷ n / 2 ^ 16 % 2 ^ 8 ∷ n / 2 ^ 8 % 2 ^ 8 ∷ n % 2 ^ 8 ∷ type ∷ 0 ∷ 0 ∷ 0 ∷ []

parse_ctrl_frame_short : (buf : List ℕ) → length buf < header_size → parse_ctrl_frame buf ≡ none
unfolding parse_ctrl_frame
parse_ctrl_frame_short buf few = rw (lt→ltb (length buf) header_size few)

parse_ctrl_frame_few :
    (k type : ℕ) (payload : List ℕ)
    → length payload < 2 ^ 32
    → k < length payload
    → parse_ctrl_frame (frame_header type payload ++ take k payload) ≡ none
unfolding parse_ctrl_frame
parse_ctrl_frame_few k type payload fits few =
    rw (frame_length payload (type ∷ 0 ∷ 0 ∷ 0 ∷ take k payload) fits)
      (ground (arith, length-take k payload))

eight_more : (k : ℕ) → header_size + k ≡ suc (suc (suc (suc (suc (suc (suc (suc k)))))))
eight_more k = omega arith

-- The front of a frame: a part of its header, or the header and a part of the payload.
front_of_frame :
    (n k type : ℕ) (payload : List ℕ)
    → n ≡ header_size + k
    → take n (frame type payload) ≡ frame_header type payload ++ take k payload
front_of_frame n k type payload e = ap (λ m. take m (frame type payload)) (e ∙ eight_more k)

parse_ctrl_frame_cut :
    (n type : ℕ) (payload : List ℕ)
    → length payload < 2 ^ 32
    → n < header_size + length payload
    → parse_ctrl_frame (take n (frame type payload)) ≡ none
parse_ctrl_frame_cut n type payload fits cut = elim (dec_lt n header_size) [
  | yes few ↦
      parse_ctrl_frame_short (take n (frame type payload))
        (omega (arith, length-take n (frame type payload)))
  | no more ↦
      ap parse_ctrl_frame (front_of_frame n (n - header_size) type payload (omega arith))
      ∙ parse_ctrl_frame_few (n - header_size) type payload fits (omega arith)
]

module _ (h : Host) (type : ℕ) (payload : List ℕ) (fits : length payload < 2 ^ 32)
    (c : Control h) where
  -- A frame in a buffer, with anything behind it, is dispatched like a message that comes with no session and no
  -- connection, and the session of the connection stays; a frame that is cut off anywhere does nothing.
  pub dispatch_ctrl_frame-frame :
      (rest : List ℕ) (n : ℕ)
      → n < header_size + length payload
      → (dispatch_ctrl_frame h (frame type payload ++ rest) c
          ≡ record (dispatch_message h false type payload (record c { session = none })) {
            session = c.session;
          })
        × (dispatch_ctrl_frame h (take n (frame type payload)) c ≡ c)
  unfolding dispatch_ctrl_frame dispatch_frame
  dispatch_ctrl_frame-frame rest n cut = (
    rw (parse_ctrl_frame-frame type payload rest fits),
    rw (parse_ctrl_frame_cut n type payload fits cut),
  )

-- The messages that a client sends, as they stand on the stream.
abbrev pub frames : List (ℕ × List ℕ) → List ℕ
frames [] = []
frames ((type, payload) ∷ sent) = frame type payload ++ frames sent

abbrev pub AreSendable : List (ℕ × List ℕ) → Type 0
AreSendable [] = Unit {0}
AreSendable ((type, payload) ∷ sent) =
    (type < 256) × AreBytes payload × (length payload ≤ max_payload_bytes) × AreSendable sent

-- The messages dispatched one after the other.
abbrev pub dispatch_all : (h : Host) → List (ℕ × List ℕ) → Control h → Control h
dispatch_all h [] c = c
dispatch_all h ((type, payload) ∷ sent) c =
    dispatch_all h sent (dispatch_message h true type payload c)

frames-AreBytes : (sent : List (ℕ × List ℕ)) → AreSendable sent → AreBytes (frames sent)
frames-AreBytes [] s = tt
frames-AreBytes ((type, payload) ∷ sent) s =
    AreBytes-frame type payload (frames sent) s.0 s.1 (frames-AreBytes sent s.3)

module _ (h : Host) (src : Source) (law : ReadLaw src) (sound : NeverFails src) (fuel : ℕ)
    (enough : (s : src.S) → max_payload_bytes + header_size + src.signals s < fuel) where
  -- What `serve` makes of a stream that holds the frames and nothing else.
  serve-frames :
      (sent : List (ℕ × List ℕ)) (later : List Bool) (s : src.S) (c : Control h)
      → AreSendable sent
      → src.remaining s ≡ frames sent
      → (t : src.S) × (serve h src fuel (replicate (length sent) true ++ true ∷ later) s c
          ≡ some (t, dispatch_all h sent c))
  unfolding serve serve_message split_frame
  serve-frames [] later s c sendable e =
      let r = read_message-Reads src law sound fuel s (rw e tt) (enough s) in
      (r.0, rw r.1 (rw e refl))
  serve-frames ((type, payload) ∷ sent) later s c sendable e =
      let bytes = frames-AreBytes ((type, payload) ∷ sent) sendable in
      let r = read_message-Reads src law sound fuel s (subst AreBytes (sym e) bytes) (enough s) in
      let split = ap split_frame e ∙ split_frame-frame type payload (frames sent) sendable.2 in
      let rest =
        serve-frames sent later r.0 (dispatch_message h true type payload c) sendable.3
          (r.2 ∙ ap (λ p. p.1) split) in
      (rest.0, rw (r.1, split) rest.1)

  -- A connection over which a client sends messages and then closes it is served to its end, whatever sizes the reads
  -- return, as long as `running_` is loaded as true: each message is dispatched once, in the order sent, from a state
  -- without a session; then the loop ends and the session is gone. The stream obeys `ReadLaw`, does not fail, and its
  -- interruptions are bounded by the fuel.
  pub handle_connection-frames :
      (sent : List (ℕ × List ℕ)) (later : List Bool) (s : src.S) (c : Control h)
      → AreSendable sent
      → src.remaining s ≡ frames sent
      → (t : src.S) × (handle_connection h src fuel
            (replicate (length sent) true ++ true ∷ later)
            s
            c
          ≡ some (t, record (dispatch_all h sent (record c { session = none })) { session = none }))
  unfolding handle_connection ended
  handle_connection-frames sent later s c sendable e =
      let r = serve-frames sent later s (record c { session = none }) sendable e in (r.0, rw r.1)
