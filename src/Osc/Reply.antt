-- ===== src/Osc/Reply.antt =====
-- src/osc_server.cpp: the datagram of the endpoint reply.
use nomos_rt.Common.{
  ℕ, ◌+◌, ◌-◌, ◌%◌, some, List, [], ◌∷◌, ◌++◌, length, replicate, length-append, replicate-add, ◌≡◌,
  ap, ap₂, sym, ◌∙◌, arith, append_assoc, append-nil,
}
use nomos_rt.SmallVector.{copy_from}
use nomos_rt.SmallVector.Laws.{copy_from-append, copy_from-replicate}
use nomos_rt.Osc.Encode.{tags, padded_length, make_s}
use nomos_rt.Osc.Wire.{padded, arg_wire, args_wire, wire, length-padded}
use nomos_rt.Osc.Server.{build_osc_string_msg}
use nomos_rt.Osc.Receive.{padded_null, pad4-length}

padded_length_lem : (n : ℕ) → padded_length n ≡ n + 1 + (3 - n % 4)
unfolding padded_length
padded_length_lem n = omega arith

-- Writing a C string, its null included, into zeros leaves it padded.
copy_text :
    (s pre : List ℕ) (k : ℕ)
    → copy_from (s ++ 0 ∷ []) (length pre) (pre ++ replicate (length (padded s) + k) 0)
      ≡ (pre ++ padded s) ++ replicate k 0
copy_text s pre k =
    ap (λ n. copy_from c (length pre) (pre ++ replicate n 0)) count
    ∙ copy_from-append c pre (replicate (length c + (pad + k)) 0)
    ∙ ap (◌++◌ pre) (copy_from-replicate c (pad + k) 0)
    ∙ ap (λ z. pre ++ (c ++ z)) (replicate-add pad k 0)
    ∙ ap (◌++◌ pre) (sym (append_assoc c (replicate pad 0) (replicate k 0)))
    ∙ ap (λ z. pre ++ (z ++ replicate k 0))
        (append_assoc s (0 ∷ []) (replicate pad 0) ∙ sym (padded_null s))
    ∙ sym (append_assoc pre (padded s) (replicate k 0))
  where
    c : List ℕ
    c = s ++ 0 ∷ []

    pad : ℕ
    pad = 3 - length s % 4

    count : length (padded s) + k ≡ length c + (pad + k)
    count = ground (arith, length-padded s, length-append s (0 ∷ []), padded_length_lem (length s))

-- The tag string ",s" and its two null bytes.
copy_tags :
    (pre : List ℕ) (k : ℕ)
    → copy_from (b',' ∷ b's' ∷ []) (length pre) (pre ++ replicate (4 + k) 0)
      ≡ (pre ++ padded (b',' ∷ b's' ∷ [])) ++ replicate k 0
unfolding padded
copy_tags pre k =
    copy_from-append (b',' ∷ b's' ∷ []) pre (replicate (4 + k) 0)
    ∙ ap (◌++◌ pre) (
        ap (λ z. copy_from (b',' ∷ b's' ∷ []) 0 (replicate z 0)) (regroup k)
        ∙ copy_from-replicate (b',' ∷ b's' ∷ []) (2 + k) 0
        ∙ ap (λ z. b',' ∷ b's' ∷ z) (replicate-add 2 k 0))
    ∙ sym (append_assoc pre (b',' ∷ b's' ∷ 0 ∷ 0 ∷ []) (replicate k 0))
  where
    regroup : (k : ℕ) → 4 + k ≡ 2 + (2 + k)
    regroup k = omega arith

module _ (addr payload : List ℕ) where
  abbrev front : List ℕ
  front = padded addr ++ padded (b',' ∷ b's' ∷ [])

  with_address :
      copy_from
        (addr ++ 0 ∷ [])
        0
        (replicate (length (padded addr) + 4 + length (padded payload)) 0)
      ≡ padded addr ++ replicate (4 + length (padded payload)) 0
  with_address =
      ap (λ n. copy_from (addr ++ 0 ∷ []) 0 (replicate n 0))
        (regroup (length (padded addr)) (length (padded payload)))
      ∙ copy_text addr [] (4 + length (padded payload))
    where
      regroup : (m n : ℕ) → m + 4 + n ≡ m + (4 + n)
      regroup m n = omega arith

  length-front : length (padded addr) + 4 ≡ length front
  unfolding padded_length
  length-front = omega (
    arith,
    length-append (padded addr) (padded (b',' ∷ b's' ∷ [])),
    length-padded (b',' ∷ b's' ∷ []),
  )

  with_payload :
      copy_from (payload ++ 0 ∷ []) (length front) (front ++ replicate (length (padded payload)) 0)
      ≡ front ++ padded payload
  with_payload =
      ap (λ n. copy_from (payload ++ 0 ∷ []) (length front) (front ++ replicate n 0))
        (plus_zero (length (padded payload)))
      ∙ copy_text payload front 0
      ∙ append-nil (front ++ padded payload)
    where
      plus_zero : (n : ℕ) → n ≡ n + 0
      plus_zero n = omega arith

-- The server's endpoint reply is the wire layout of a message with the one string argument.
pub build_osc_string_msg_lem :
    (addr payload : List ℕ)
    → some (build_osc_string_msg addr payload) ≡ wire addr (make_s payload ∷ [])
unfolding build_osc_string_msg wire args_wire arg_wire tags make_s
build_osc_string_msg_lem addr payload =
    ap some (rw (pad4-length addr, pad4-length payload) (copies ∙ regroup))
  where
    copies :
        copy_from (payload ++ 0 ∷ []) (length (padded addr) + 4) (
          copy_from (b',' ∷ b's' ∷ []) (length (padded addr)) (
            copy_from
              (addr ++ 0 ∷ [])
              0
              (replicate (length (padded addr) + 4 + length (padded payload)) 0)))
        ≡ front addr payload ++ padded payload
    copies =
        ap₂ (copy_from (payload ++ 0 ∷ [])) (length-front addr payload) (
          ap (copy_from (b',' ∷ b's' ∷ []) (length (padded addr))) (with_address addr payload)
          ∙ copy_tags (padded addr) (length (padded payload)))
        ∙ with_payload addr payload

    regroup :
        front addr payload ++ padded payload
        ≡ padded addr ++ (padded (b',' ∷ b's' ∷ []) ++ (padded payload ++ []))
    regroup =
        append_assoc (padded addr) (padded (b',' ∷ b's' ∷ [])) (padded payload)
        ∙ ap (λ z. padded addr ++ (padded (b',' ∷ b's' ∷ []) ++ z))
            (sym (append-nil (padded payload)))
