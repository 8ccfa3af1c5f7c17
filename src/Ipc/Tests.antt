-- ===== src/Ipc/Tests.antt =====
-- A pipe that hands over at most two bytes at a time and is interrupted now and then, and runs of the
-- channel on it.
use nomos_rt.Common.{
  ℕ, zero, suc, ◌+◌, ◌^◌, ◌≡◌, inl, inr, refl, sym, some, List, [], ◌∷◌, ◌++◌, length, subst, arith,
}
use nomos_rt.Ipc.Stream.{
  Source, Sink, ReadResult, got, interrupted, closed, failed, ReadLaw, NeverFails, WriteResult,
  took, write_interrupted, WriteLaw, AlwaysTakes,
}
use nomos_rt.Ipc.Channel.{
  frame_too_large, ok, err, bswap32, store_u32, load_u32, read_turn, read_exact, read_payload,
  header_result, read_message, write_turn, write_exact, wire_length, write_result, write_payload,
  write_message,
}
use nomos_rt.Ipc.Frames.{frame, split_frame, Reads, read_message-Reads}
use nomos_rt.Ipc.Write.{Sent, write_message-Sent, write_message_completes}
use nomos_rt.Ipc.RoundTrip.{read-write}

-- The bytes in the pipe and the interruptions to come.
abbrev Pipe : Type 0
Pipe = List ℕ × ℕ

pipe_read : ℕ → Pipe → ReadResult × Pipe
pipe_read n (bs, suc k) = (interrupted, (bs, k))
pipe_read n ([], zero) = (closed, ([], zero))
pipe_read (suc (suc n)) (a ∷ b ∷ bs, zero) = (got (a ∷ b ∷ []), (bs, 1))
pipe_read n (a ∷ bs, zero) = (got (a ∷ []), (bs, 0))

abbrev pipe_source : Source
pipe_source = record {
  S = Pipe;
  read = pipe_read;
  remaining = λ p. p.0;
  signals = λ p. length p.0 + p.1;
}

pipe-ReadLaw : ReadLaw pipe_source
unfolding pipe_read
pipe-ReadLaw n (bs, suc k) h = (refl, omega arith)
pipe-ReadLaw n ([], zero) h = (refl, refl)
pipe-ReadLaw zero (a ∷ bs, zero) h = absurd (omega arith)
pipe-ReadLaw (suc zero) (a ∷ [], zero) h = (omega arith, omega arith, refl, omega arith)
pipe-ReadLaw (suc zero) (a ∷ b ∷ bs, zero) h = (omega arith, omega arith, refl, omega arith)
pipe-ReadLaw (suc (suc n)) (a ∷ [], zero) h = (omega arith, omega arith, refl, omega arith)
pipe-ReadLaw (suc (suc n)) (a ∷ b ∷ bs, zero) h = (omega arith, omega arith, refl, omega arith)

abbrev IsFailure : ReadResult → Type 0
IsFailure (failed e) = Unit
IsFailure other = ⊥

pipe-NeverFails : NeverFails pipe_source
unfolding pipe_read
pipe-NeverFails n s e h = works n s (subst IsFailure (sym h) tt)
  where
    works : (n : ℕ) (s : Pipe) → IsFailure (pipe_read n s).0 → ⊥
    works n (bs, suc k) h = h
    works n ([], zero) h = h
    works zero (a ∷ bs, zero) h = h
    works (suc zero) (a ∷ bs, zero) h = h
    works (suc (suc n)) (a ∷ [], zero) h = h
    works (suc (suc n)) (a ∷ b ∷ bs, zero) h = h

-- The other end: it takes at most three bytes at a time after an interruption.
pipe_write : List ℕ → Pipe → WriteResult × Pipe
pipe_write bs (out, suc k) = (write_interrupted, (out, k))
pipe_write (a ∷ b ∷ c ∷ bs) (out, zero) = (took 3, (out ++ a ∷ b ∷ c ∷ [], 0))
pipe_write (a ∷ bs) (out, zero) = (took 1, (out ++ a ∷ [], 0))
pipe_write [] (out, zero) = (took 1, (out, 0))

abbrev pipe_sink : Sink
pipe_sink = record { S = Pipe; write = pipe_write; written = λ p. p.0; signals = λ p. p.1 }

pipe-WriteLaw : WriteLaw pipe_sink
unfolding pipe_write
pipe-WriteLaw bs (out, suc k) h = (refl, omega arith)
pipe-WriteLaw [] (out, zero) h = absurd (omega arith)
pipe-WriteLaw (a ∷ []) (out, zero) h = (omega arith, refl, omega arith)
pipe-WriteLaw (a ∷ b ∷ []) (out, zero) h = (omega arith, refl, omega arith)
pipe-WriteLaw (a ∷ b ∷ c ∷ bs) (out, zero) h = (omega arith, refl, omega arith)

pipe-AlwaysTakes : AlwaysTakes pipe_sink
unfolding pipe_write
pipe-AlwaysTakes bs (out, suc k) = inl refl
pipe-AlwaysTakes [] (out, zero) = inr (1, refl, omega arith)
pipe-AlwaysTakes (a ∷ []) (out, zero) = inr (1, refl, omega arith)
pipe-AlwaysTakes (a ∷ b ∷ []) (out, zero) = inr (1, refl, omega arith)
pipe-AlwaysTakes (a ∷ b ∷ c ∷ bs) (out, zero) = inr (3, refl, omega arith)

-- A frame of type 2 with three bytes of payload, and the start of another.
abbrev incoming : List ℕ
incoming = 0 ∷ 0 ∷ 0 ∷ 3 ∷ 2 ∷ 0 ∷ 0 ∷ 0 ∷ 7 ∷ 8 ∷ 9 ∷ 0 ∷ []

abbrev fuel : ℕ
fuel = 2 ^ 20 + 100

read_message-Reads_example :
    Reads pipe_source (read_message pipe_source fuel (incoming, 1)) (split_frame incoming)
read_message-Reads_example =
    read_message-Reads pipe_source pipe-ReadLaw pipe-NeverFails fuel (incoming, 1)
      (
        omega arith,
        (
          omega arith,
          (
            omega arith,
            (
              omega arith,
              (
                omega arith,
                (
                  omega arith,
                  (
                    omega arith,
                    (omega arith, (omega arith, (omega arith, (omega arith, (omega arith, tt))))),
                  ),
                ),
              ),
            ),
          ),
        ),
      )
      (omega arith)

write_message-Sent_example :
    Sent pipe_sink pipe-WriteLaw
      (frame 2 (7 ∷ 8 ∷ []))
      ([], 1)
      (write_message pipe_sink 20 2 (7 ∷ 8 ∷ []) ([], 1))
write_message-Sent_example =
    write_message-Sent pipe_sink pipe-WriteLaw 20 2 (7 ∷ 8 ∷ []) ([], 1) (omega arith) (omega arith)

write_message_completes_example :
    (t : Pipe) × (write_message pipe_sink 20 2 (7 ∷ 8 ∷ []) ([], 1) ≡ some (ok tt, t))
    × (t.0 ≡ frame 2 (7 ∷ 8 ∷ []))
write_message_completes_example =
    write_message_completes pipe_sink pipe-AlwaysTakes 20 2 (7 ∷ 8 ∷ []) ([], 1) pipe-WriteLaw
      (omega arith) (omega arith)

read-write_example :
    Reads pipe_source (read_message pipe_source fuel (frame 2 (7 ∷ 8 ∷ []) ++ 5 ∷ [], 1)) (
      ok (record { payload_len = 2; type = 2; reserved = 0 ∷ 0 ∷ 0 ∷ []; payload = 7 ∷ 8 ∷ [] }),
      5 ∷ [],
    )
unfolding pipe_write write_message write_payload write_result write_exact write_turn wire_length
    bswap32 store_u32
read-write_example =
    read-write pipe_sink pipe_source fuel 2 (7 ∷ 8 ∷ []) (5 ∷ []) ([], 1) (frame 2 (7 ∷ 8 ∷ []), 0)
      (frame 2 (7 ∷ 8 ∷ []) ++ 5 ∷ [], 1) pipe-WriteLaw pipe-ReadLaw pipe-NeverFails (omega arith)
      (omega arith, (omega arith, tt)) (omega arith, tt) (omega arith) (omega arith) (omega arith)
      refl refl

-- A header that announces more than the limit.
too_large :
    (read_message pipe_source 40 (0 ∷ 16 ∷ 0 ∷ 1 ∷ 2 ∷ 0 ∷ 0 ∷ 0 ∷ 7 ∷ [], 0))
    ≡ some (err frame_too_large, (7 ∷ [], 1))
unfolding pipe_read read_message header_result read_payload read_exact read_turn bswap32 load_u32
too_large = refl
