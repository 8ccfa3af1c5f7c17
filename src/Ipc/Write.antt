-- ===== src/Ipc/Write.antt =====
-- What `write_message` puts on the stream.
use nomos_rt.Common.{
  ℕ, zero, suc, ◌+◌, ◌/◌, ◌%◌, ◌^◌, ◌<◌, Bool, true, false, ◌==◌, Option, none, some, List, [], ◌∷◌,
  ◌++◌, length, take, drop, append_assoc, nil_of_length, append-nil, take-append, take-all,
  prefix_of_append, ◌≡◌, ◌⊎◌, refl, ap, ap₂, sym, ◌∙◌, arith, Bool-cases, inl, inr,
}
use nomos_rt.Ipc.Stream.{Sink, WriteResult, took, write_interrupted, WriteLaw, AlwaysTakes}
use nomos_rt.Ipc.Channel.{
  io_error, header_size, Result, ok, err, bswap32, store_u32, write_result, write_payload,
  write_turn, write_exact, wire_length, write_message,
}
use nomos_rt.Ipc.Transfer.{WriteOutcome, write_exact-WriteOutcome}
use nomos_rt.Ipc.Frames.{frame}

-- The eight bytes of the header in memory.
header_bytes :
    (n type : ℕ)
    → n < 2 ^ 32
    → store_u32 (bswap32 n) ++ type ∷ 0 ∷ 0 ∷ 0 ∷ []
      ≡ n / 2 ^ 24 % 2 ^ 8
        ∷ n / 2 ^ 16 % 2 ^ 8
        ∷ n / 2 ^ 8 % 2 ^ 8
        ∷ n % 2 ^ 8
        ∷ type
        ∷ 0
        ∷ 0
        ∷ 0
        ∷ []
unfolding bswap32 store_u32
header_bytes n type h =
    ap₂ ◌∷◌ (omega arith)
      (ap₂ ◌∷◌ (omega arith) (ap₂ ◌∷◌ (omega arith) (ap₂ ◌∷◌ (omega arith) refl)))

wire_length_lem :
    (payload : List ℕ) → length payload < 2 ^ 32 → wire_length payload ≡ length payload
unfolding wire_length
wire_length_lem payload h = omega arith

take-wire_length :
    (payload : List ℕ) → length payload < 2 ^ 32 → take (wire_length payload) payload ≡ payload
take-wire_length payload h =
    ap {B = List ℕ} (λ n. take n payload) (wire_length_lem payload h)
    ∙ take-all (length payload) payload (omega arith)

module _ (snk : Sink) (law : WriteLaw snk) where
  -- The result of a write of `bytes` that started at `s`: all of them are on the stream, or it is an
  -- `io_error` and some of them are.
  abbrev pub Sent : List ℕ → snk.S → Option (Result (Unit {0}) × snk.S) → Type 0
  Sent bytes s none = ⊥
  Sent bytes s (some (ok u, t)) = snk.written t ≡ snk.written s ++ bytes
  Sent bytes s (some (err e, t)) =
      (e ≡ io_error) × ((k : ℕ) × (snk.written t ≡ snk.written s ++ take k bytes))

  write_result-Sent :
      (hdr bytes : List ℕ) (s t : snk.S) (o : Option (Bool × snk.S))
      → snk.written t ≡ snk.written s ++ hdr
      → WriteOutcome snk bytes t o
      → Sent (hdr ++ bytes) s (write_result snk o)
  unfolding write_result
  write_result-Sent hdr bytes s t none e r = r
  write_result-Sent hdr bytes s t (some (true, u)) e (p, l) =
      p ∙ ap (λ w. w ++ bytes) e ∙ append_assoc (snk.written s) hdr bytes
  write_result-Sent hdr bytes s t (some (false, u)) e (k, p) = (
    refl,
    (
      length hdr + k,
      p
          ∙ ap (λ w. w ++ take k bytes) e
          ∙ append_assoc (snk.written s) hdr (take k bytes)
          ∙ ap (◌++◌ (snk.written s)) (sym (take-append k hdr bytes)),
    ),
  )

  write_payload-Sent :
      (fuel : ℕ) (hdr payload : List ℕ) (s : snk.S) (o : Option (Bool × snk.S))
      → length payload < 2 ^ 32
      → length payload + snk.signals s < fuel
      → WriteOutcome snk hdr s o
      → Sent (hdr ++ payload) s (write_payload snk fuel payload o)
  unfolding write_payload
  write_payload-Sent fuel hdr payload s none short enough r = r
  write_payload-Sent fuel hdr payload s (some (false, t)) short enough (k, p) =
      (let r = prefix_of_append k hdr payload in (refl, (r.0, p ∙ ap (◌++◌ (snk.written s)) r.1)))
  write_payload-Sent fuel hdr payload s (some (true, t)) short enough (p, l) =
      elim (Bool-cases (wire_length payload == 0)) [
        | inl empty ↦ rw empty (
            p
            ∙ ap (◌++◌ (snk.written s)) (
                sym (append-nil hdr)
                ∙ ap (◌++◌ hdr) (
                    sym (
                      nil_of_length payload
                        (ground (arith, empty, wire_length_lem payload short))))))
        | inr more ↦ rw more (
            rw (take-wire_length payload short) (
              write_result-Sent hdr payload s t _ p
                (write_exact-WriteOutcome snk fuel payload t law (omega arith))))
      ]

  -- A payload that a 32-bit length can describe is sent in its frame: with enough fuel `write_message`
  -- ends, and either the whole frame is on the stream, or the result is `io_error` and some of the
  -- frame is.
  pub write_message-Sent :
      (fuel type : ℕ) (payload : List ℕ) (s : snk.S)
      → length payload < 2 ^ 32
      → header_size + length payload + snk.signals s < fuel
      → Sent (frame type payload) s (write_message snk fuel type payload s)
  unfolding write_message
  write_message-Sent fuel type payload s short enough =
      rw (ap (λ n. store_u32 (bswap32 n) ++ type ∷ 0 ∷ 0 ∷ 0 ∷ []) (wire_length_lem payload short))
        (rw (header_bytes (length payload) type short) (
          write_payload-Sent fuel _ payload s _ short (omega arith)
            (write_exact-WriteOutcome snk fuel _ s law (omega arith))))

-- A write that did not fail.
abbrev Completes : {S : Type 0} → Option (Bool × S) → Type 0
Completes none = Unit
Completes (some (b, t)) = b ≡ true

module _ (snk : Sink) (eager : AlwaysTakes snk) where
  turn-Completes :
      (again : List ℕ → snk.S → Option (Bool × snk.S)) (bs : List ℕ) (r : WriteResult) (t : snk.S)
      → ((b : List ℕ) (u : snk.S) → Completes (again b u))
      → (r ≡ write_interrupted) ⊎ ((k : ℕ) × (r ≡ took k) × (0 < k))
      → Completes (write_turn snk again bs r t)
  unfolding write_turn
  turn-Completes again bs r t ih (inl e) = rw e (ih bs t)
  turn-Completes again bs r t ih (inr (zero, e, l)) = absurd (omega arith)
  turn-Completes again bs r t ih (inr (suc k, e, l)) = rw e (ih (drop (suc k) bs) t)

  write_exact-Completes :
      (fuel : ℕ) (bs : List ℕ) (s : snk.S) → Completes (write_exact snk fuel bs s)
  unfolding write_exact
  write_exact-Completes zero bs s = tt
  write_exact-Completes (suc fuel) bs s = go (write_exact-Completes fuel) (length bs == 0)
    where
      go :
          ((b : List ℕ) (t : snk.S) → Completes (write_exact snk fuel b t))
          → (z : Bool)
          → Completes (elim z [
            | true ↦ some (true, s)
            | false ↦ write_turn snk (write_exact snk fuel) bs (snk.write bs s).0 (snk.write bs s).1
          ])
      go ih true = refl
      go ih false =
          turn-Completes (write_exact snk fuel) bs (snk.write bs s).0 (snk.write bs s).1 ih
            (eager bs s)

  -- A result that is not an error.
  abbrev IsFine : Option (Result (Unit {0}) × snk.S) → Type 0
  IsFine (some (err e, t)) = ⊥
  IsFine other = Unit

  write_result-IsFine : (o : Option (Bool × snk.S)) → Completes o → IsFine (write_result snk o)
  unfolding write_result
  write_result-IsFine none h = tt
  write_result-IsFine (some (false, t)) h = absurd (ground (arith, h))
  write_result-IsFine (some (true, t)) h = tt

  write_payload-IsFine :
      (fuel : ℕ) (payload : List ℕ) (o : Option (Bool × snk.S))
      → Completes o
      → IsFine (write_payload snk fuel payload o)
  unfolding write_payload
  write_payload-IsFine fuel payload none h = tt
  write_payload-IsFine fuel payload (some (false, t)) h = absurd (ground (arith, h))
  write_payload-IsFine fuel payload (some (true, t)) h =
      elim (Bool-cases (wire_length payload == 0)) [
        | inl empty ↦ rw empty tt
        | inr more ↦ rw more (write_result-IsFine _ (write_exact-Completes fuel _ t))
      ]

  fine_and_Sent :
      (law : WriteLaw snk) (bytes : List ℕ) (s : snk.S) (o : Option (Result (Unit {0}) × snk.S))
      → Sent snk law bytes s o
      → IsFine o
      → (t : snk.S) × (o ≡ some (ok tt, t)) × (snk.written t ≡ snk.written s ++ bytes)
  fine_and_Sent law bytes s none sent fine = absurd sent
  fine_and_Sent law bytes s (some (ok u, t)) sent fine = (t, refl, sent)
  fine_and_Sent law bytes s (some (err e, t)) sent fine = absurd fine

  -- On a stream that takes a byte at each call that is not interrupted, `write_message` succeeds, and the
  -- whole frame is on the stream.
  pub write_message_completes :
      (fuel type : ℕ) (payload : List ℕ) (s : snk.S)
      → WriteLaw snk
      → length payload < 2 ^ 32
      → header_size + length payload + snk.signals s < fuel
      → (t : snk.S) × (write_message snk fuel type payload s ≡ some (ok tt, t))
        × (snk.written t ≡ snk.written s ++ frame type payload)
  unfolding write_message
  write_message_completes fuel type payload s law short enough =
      fine_and_Sent law (frame type payload) s _
        (write_message-Sent snk law fuel type payload s short enough)
        (write_payload-IsFine fuel payload _ (write_exact-Completes fuel _ s))
