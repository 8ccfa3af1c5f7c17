-- ===== src/Control/Mts/Layout.antt =====
-- The layout of the tuning dump, whatever the numbers are.
use nomos_rt.Common.{
  All, All-append, All-replicate, ℕ, zero, suc, ◌+◌, ◌*◌, ◌≤◌, ◌<◌, List, [], ◌∷◌, ◌++◌, length,
  take, drop, length-append, append_assoc, take-length, drop-length, drop-drop, replicate, bit_and,
  bit_xor, ◌≡◌, refl, ap, sym, ◌∙◌, arith,
}
use nomos_rt.Common.Bits.{bit_and_mask, bit_xor_bounds, bit_xor_self}
use nomos_rt.Edn.{value_or}
use nomos_rt.Numbers.{ℤ, pos, negsuc, clamp_between, Doubles}
use nomos_rt.Control.Mts.{
  Tuning, tuned, note_entry, mts_encode_note, note_entries, checksum, dump_body, mts_bulk_dump,
}

clamp_between_bound : (high : ℕ) (i : ℤ) → clamp_between high i ≤ high
unfolding clamp_between
clamp_between_bound high (pos n) = omega arith
clamp_between_bound high (negsuc n) = omega arith

-- What stands in the first part of an append.
take-drop :
    (m n : ℕ) (xs ys : List ℕ) → m + n ≤ length xs → take n (drop m (xs ++ ys)) ≡ take n (drop m xs)
take-drop zero zero xs ys h = refl
take-drop zero (suc n) [] ys h = absurd (omega arith)
take-drop zero (suc n) (x ∷ xs) ys h = ap (◌∷◌ x) (take-drop zero n xs ys (omega arith))
take-drop (suc m) n [] ys h = absurd (omega arith)
take-drop (suc m) n (x ∷ xs) ys h = take-drop m n xs ys (omega arith)

-- A data byte of a MIDI message.
abbrev pub IsSevenBit : List ℕ → Type 0
IsSevenBit = All (λ b. b < 128)

module _ (num : Doubles) where
  -- An entry is three bytes below 128.
  abbrev IsEntry : List ℕ → Type 0
  IsEntry bs = (length bs ≡ 3) × IsSevenBit bs

  note_entry-IsEntry : (p : ℤ × num.D) → IsEntry (note_entry num p)
  unfolding note_entry
  note_entry-IsEntry (xx, cents) = (
    refl,
    (
      omega (arith, clamp_between_bound 127 xx),
      (omega (arith, bit_and_mask 7 _), (omega (arith, bit_and_mask 7 _), tt)),
    ),
  )

  mts_encode_note-IsEntry : (key : ℕ) (hz : num.D) → IsEntry (mts_encode_note num key hz)
  unfolding mts_encode_note
  mts_encode_note-IsEntry key hz = note_entry-IsEntry _

  note_entries-IsSevenBit :
      (left key : ℕ) (tuning : Tuning num)
      → (length (note_entries num left key tuning) ≡ left * 3)
        × IsSevenBit (note_entries num left key tuning)
  unfolding note_entries
  note_entries-IsSevenBit zero key tuning = (refl, tt)
  note_entries-IsSevenBit (suc left) key tuning =
      let e = mts_encode_note-IsEntry key (value_or (tuned num key tuning) (num.lit 0 1)) in
      let r = note_entries-IsSevenBit left (key + 1) tuning in
      (
        omega (
          arith,
          length-append (mts_encode_note num key (value_or (tuned num key tuning) (num.lit 0 1)))
              (note_entries num left (key + 1) tuning),
          e.0,
          r.0,
        ),
        All-append (λ b. b < 128) _ _ e.1 r.1,
      )

  checksum-append :
      (bs cs : List ℕ) (csum : ℕ)
      → checksum num (bs ++ cs) csum ≡ checksum num cs (checksum num bs csum)
  unfolding checksum
  checksum-append [] cs csum = refl
  checksum-append (b ∷ bs) cs csum = checksum-append bs cs (bit_xor csum b)

  checksum_bound :
      (bs : List ℕ) (csum : ℕ) → IsSevenBit bs → csum < 128 → checksum num bs csum < 128
  unfolding checksum
  checksum_bound [] csum h k = k
  checksum_bound (b ∷ bs) csum (h, hs) k =
      checksum_bound bs (bit_xor csum b) hs (bit_xor_bounds 7 csum b k h)

  dump_body_lem :
      (tuning : Tuning num) (prog device_id : ℕ)
      → prog < 128
      → device_id < 128
      → (length (dump_body num tuning prog device_id) ≡ 405)
        × IsSevenBit (dump_body num tuning prog device_id)
  unfolding dump_body
  dump_body_lem tuning prog device_id hp hd =
      let r = note_entries-IsSevenBit 128 0 tuning in
      (
        omega (arith, length-append (replicate 16 0) (note_entries num 128 0 tuning), r.0),
        (
          omega arith,
          (
            hd,
            (
              omega arith,
              (
                omega arith,
                (
                  hp,
                  All-append (λ b. b < 128) (replicate 16 0) _
                      (All-replicate (λ b. b < 128) 16 0 (omega arith)) r.1,
                ),
              ),
            ),
          ),
        ),
      )

  -- The dump is a system exclusive message of 408 bytes: between the first byte and the last there are 406 below 128, and
  -- the exclusive or of them is 0.
  pub mts_bulk_dump_lem :
      (tuning : Tuning num) (prog device_id : ℕ)
      → prog < 128
      → device_id < 128
      → (body : List ℕ) × (mts_bulk_dump num tuning prog device_id ≡ 0xf0 ∷ (body ++ 0xf7 ∷ []))
        × (length body ≡ 406)
        × IsSevenBit body
        × (checksum num body 0 ≡ 0)
  unfolding mts_bulk_dump checksum
  mts_bulk_dump_lem tuning prog device_id hp hd =
      let start = dump_body num tuning prog device_id in
      let b = dump_body_lem tuning prog device_id hp hd in
      let sum = checksum num start 0 in
      let small : sum < 128 = checksum_bound start 0 b.1 (omega arith) in
      let kept : bit_and sum 0x7f ≡ sum = omega (arith, bit_and_mask 7 sum) in
      (
        start ++ sum ∷ [],
        ap (λ c. 0xf0 ∷ (start ++ c ∷ 0xf7 ∷ [])) kept
            ∙ ap (◌∷◌ 0xf0) (sym (append_assoc start (sum ∷ []) (0xf7 ∷ []))),
        omega (arith, length-append start (sum ∷ []), b.0),
        All-append (λ b. b < 128) start (sum ∷ []) b.1 (small, tt),
        checksum-append start (sum ∷ []) 0 ∙ bit_xor_self sum,
      )

  take_entry : (e rest : List ℕ) → length e ≡ 3 → take 3 (e ++ rest) ≡ e
  take_entry e rest h = ap (λ n. take n (e ++ rest)) (sym h) ∙ take-length e rest

  drop_entry :
      (e rest : List ℕ) (k : ℕ) → length e ≡ 3 → drop (suc k * 3) (e ++ rest) ≡ drop (k * 3) rest
  drop_entry e rest k h =
      ap (λ n. drop n (e ++ rest)) (three k)
      ∙ sym (drop-drop 3 (k * 3) (e ++ rest))
      ∙ ap (λ n. drop (k * 3) (drop n (e ++ rest))) (sym h)
      ∙ ap (drop (k * 3)) (drop-length e rest)
    where
      three : (k : ℕ) → suc k * 3 ≡ 3 + k * 3
      three k = omega arith

  -- The entry of a key.
  abbrev entry_of : ℕ → Tuning num → List ℕ
  entry_of key tuning = mts_encode_note num key (value_or (tuned num key tuning) (num.lit 0 1))

  note_entries-entry :
      (k left key : ℕ) (tuning : Tuning num)
      → k < left
      → take 3 (drop (k * 3) (note_entries num left key tuning)) ≡ entry_of (key + k) tuning
  unfolding note_entries
  note_entries-entry k zero key tuning h = absurd (omega arith)
  note_entries-entry zero (suc left) key tuning h =
      take_entry (entry_of key tuning) (note_entries num left (key + 1) tuning)
        (mts_encode_note-IsEntry key (value_or (tuned num key tuning) (num.lit 0 1))).0
      ∙ ap (λ n. entry_of n tuning) (plus_zero key)
    where
      plus_zero : (n : ℕ) → n ≡ n + 0
      plus_zero n = omega arith
  note_entries-entry (suc k) (suc left) key tuning h =
      ap (take 3) (
        drop_entry (entry_of key tuning) (note_entries num left (key + 1) tuning) k
          (mts_encode_note-IsEntry key (value_or (tuned num key tuning) (num.lit 0 1))).0)
      ∙ note_entries-entry k left (key + 1) tuning (omega arith)
      ∙ ap (λ n. entry_of n tuning) (move key k)
    where
      move : (a b : ℕ) → a + 1 + b ≡ a + suc b
      move a b = omega arith

  -- The entry of each key stands in its place in the dump: the one of its frequency in the tuning, or of 0.
  pub mts_bulk_dump-entry :
      (k : ℕ) (tuning : Tuning num) (prog device_id : ℕ)
      → k < 128
      → take 3 (drop (22 + k * 3) (mts_bulk_dump num tuning prog device_id))
        ≡ mts_encode_note num k (value_or (tuned num k tuning) (num.lit 0 1))
  unfolding mts_bulk_dump dump_body
  mts_bulk_dump-entry k tuning prog device_id h =
      let dump = mts_bulk_dump num tuning prog device_id in
      let keys = note_entries num 128 0 tuning in
      ap (take 3) (sym (drop-drop 22 (k * 3) dump))
      ∙ take-drop (k * 3) 3 keys _ (omega (arith, (note_entries-IsSevenBit 128 0 tuning).0))
      ∙ note_entries-entry k 128 0 tuning h
      ∙ ap (λ n. entry_of n tuning) (zero_plus k)
    where
      zero_plus : (n : ℕ) → 0 + n ≡ n
      zero_plus n = omega arith
