-- ===== src/Ipc/RoundTrip.antt =====
-- What `write_message` writes, `read_message` reads.
use nomos_rt.Common.{
  All-append, ℕ, ◌+◌, ◌≤◌, ◌<◌, Option, none, some, List, [], ◌∷◌, ◌++◌, length, drop, append_assoc,
  ◌≡◌, drop-length, ap, sym, ◌∙◌, arith,
}
use nomos_rt.Ipc.Stream.{Source, Sink, ReadLaw, NeverFails, WriteLaw}
use nomos_rt.Ipc.Channel.{
  max_payload_bytes, header_size, Result, ok, err, read_message, write_message,
}
use nomos_rt.Ipc.Frames.{AreBytes, frame, split_frame, split_frame-frame, Reads, read_message-Reads}
use nomos_rt.Ipc.Write.{Sent, write_message-Sent}

Sent-of_ok :
    (snk : Sink) (law : WriteLaw snk) (bytes : List ℕ) (s t : snk.S)
    (o : Option (Result (Unit {0}) × snk.S))
    → Sent snk law bytes s o
    → o ≡ some (ok tt, t)
    → snk.written t ≡ snk.written s ++ bytes
Sent-of_ok snk law bytes s t none sent e = absurd sent
Sent-of_ok snk law bytes s t (some (ok u, v)) sent e = ground (arith, sent, e)
Sent-of_ok snk law bytes s t (some (err c, v)) sent e = absurd (ground (arith, e))

-- What follows on a stream when the front is the same.
left_over : (xs ys zs : List ℕ) → xs ++ ys ≡ xs ++ zs → ys ≡ zs
left_over xs ys zs e = sym (drop-length xs ys) ∙ ap (drop (length xs)) e ∙ drop-length xs zs

pub AreBytes-frame :
    (type : ℕ) (payload rest : List ℕ)
    → type < 256
    → AreBytes payload
    → AreBytes rest
    → AreBytes (frame type payload ++ rest)
AreBytes-frame type payload rest byte h k = (
  omega arith,
  (
    omega arith,
    (
      omega arith,
      (
        omega arith,
        (
          byte,
          (omega arith, (omega arith, (omega arith, All-append (λ b. b < 256) payload rest h k))),
        ),
      ),
    ),
  ),
)

module _ (snk : Sink) (src : Source) where
  -- If the reader's stream holds what a successful `write_message` put on the writer's, with more bytes behind,
  -- `read_message` returns a message with the type and the payload that were written, and leaves the bytes behind.
  pub read-write :
      (fuel type : ℕ) (payload rest : List ℕ) (s t : snk.S) (r : src.S)
      → WriteLaw snk
      → ReadLaw src
      → NeverFails src
      → type < 256
      → AreBytes payload
      → AreBytes rest
      → length payload ≤ max_payload_bytes
      → max_payload_bytes + header_size + snk.signals s < fuel
      → max_payload_bytes + header_size + src.signals r < fuel
      → write_message snk fuel type payload s ≡ some (ok tt, t)
      → snk.written s ++ src.remaining r ≡ snk.written t ++ rest
      → Reads src (read_message src fuel r) (
        ok (record {
          payload_len = length payload;
          type = type;
          reserved = 0 ∷ 0 ∷ 0 ∷ [];
          payload = payload;
        }),
        rest,
      )
  read-write fuel type payload rest s t r wlaw rlaw sound byte bytes more fits enough enough' wrote
        link =
      let sent =
        Sent-of_ok snk wlaw (frame type payload) s t _
          (write_message-Sent snk wlaw fuel type payload s (omega arith) (omega arith)) wrote in
      let front : src.remaining r ≡ frame type payload ++ rest = left_over (snk.written s) _ _ (
        link ∙ ap (λ w. w ++ rest) sent ∙ append_assoc (snk.written s) (frame type payload) rest) in
      let found =
        read_message-Reads src rlaw sound fuel r
          (rw front (AreBytes-frame type payload rest byte bytes more)) enough' in
      let split = ap split_frame front ∙ split_frame-frame type payload rest fits in
      (found.0, found.1 ∙ ap (λ p. some (p.0, found.0)) split, found.2 ∙ ap (λ p. p.1) split)
