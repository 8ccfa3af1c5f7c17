-- ===== src/Control/Uuid.antt =====
-- src/rt_control_thread.cpp: `parse_uuid`. A `char` is signed, as on the hosts that the code is built for, and stands as
-- its byte.
use nomos_rt.Common.{
  Bool, ℕ, zero, suc, ◌+◌, ◌-◌, ◌*◌, ◌/◌, ◌%◌, ◌<◌, ◌||◌, true, false, ◌==◌, ==_iff, All-take,
  All-drop, ap₂, drop-drop, ltb, leb, if◌then◌else◌, List, [], ◌∷◌, ◌++◌, length, take, drop,
  replicate, All, bit_or, ◌≡◌, ◌≢◌, refl, sym, ap, ◌∙◌, arith, passes, test_of_passes, append-nil,
  take-append-drop, length-append, length-take, length-drop,
}

-- The lambda `h`: the value of a hexadecimal digit.
unfoldable pub digit_value : ℕ → ℕ
digit_value c =
    if leb c b'9' || leb 128 c
    then (c + 256 - b'0') % 256
    else (bit_or c 32 + 256 - b'a' + 10) % 256

-- `(h(s[i]) << 4) | h(s[i + 1])`
unfoldable pub pair_value : ℕ → ℕ → ℕ
unfolding digit_value
pair_value high low = bit_or (digit_value high * 16) (digit_value low) % 256

-- The loop; `room` is 16 - bi. Behind the last character of a string there is a zero.
unfoldable pub read_pairs : ℕ → List ℕ → List ℕ
read_pairs zero s = []
read_pairs (suc room) [] = []
read_pairs (suc room) (c ∷ []) = if c == b'-' then [] else pair_value c 0 ∷ []
read_pairs (suc room) (c ∷ d ∷ s) =
    let skipped = read_pairs (suc room) (d ∷ s) in
    let read = pair_value c d ∷ read_pairs room s in if c == b'-' then skipped else read

-- The bytes that are not written stay zero.
unfoldable pub parse_uuid : List ℕ → List ℕ
parse_uuid s =
    if length s == 36
    then (let bytes = read_pairs 16 s in bytes ++ replicate (16 - length bytes) 0)
    else replicate 16 0

-- The canonical text of 16 bytes.
abbrev pub digit_text : ℕ → ℕ
digit_text n = if ltb n 10 then b'0' + n else b'a' + (n - 10)

abbrev pub group_text : List ℕ → List ℕ
group_text [] = []
group_text (b ∷ bs) = digit_text (b / 16) ∷ digit_text (b % 16) ∷ group_text bs

abbrev pub uuid_text : List ℕ → List ℕ
uuid_text bytes =
    group_text (take 4 bytes)
    ++ b'-'
      ∷ (group_text (take 2 (drop 4 bytes))
          ++ b'-'
            ∷ (group_text (take 2 (drop 6 bytes))
                ++ b'-'
                  ∷ (group_text (take 2 (drop 8 bytes)) ++ b'-' ∷ (group_text (drop 10 bytes)))))

zero_plus : (n : ℕ) → 0 + n ≡ n
zero_plus n = omega arith

plus_zero : (n : ℕ) → n ≡ n + 0
plus_zero n = omega arith

suc_add : (a b : ℕ) → suc a + b ≡ suc (a + b)
suc_add a b = omega arith

-- The test of one byte.
byte_survives : ℕ → Bool
unfolding pair_value
byte_survives b = pair_value (digit_text (b / 16)) (digit_text (b % 16)) == b

bytes_survive : passes byte_survives 256 ≡ true
unfolding passes byte_survives
bytes_survive = refl

pair_value-text : (b : ℕ) → b < 256 → pair_value (digit_text (b / 16)) (digit_text (b % 16)) ≡ b
unfolding byte_survives
pair_value-text b h = (==_iff _ b).0 (test_of_passes byte_survives 256 bytes_survive b h)

digit_text-ne : (n : ℕ) → (digit_text n == b'-') ≡ false
digit_text-ne n = ground arith

read_pairs-byte :
    (room b : ℕ) (s : List ℕ)
    → b < 256
    → read_pairs (suc room) (digit_text (b / 16) ∷ digit_text (b % 16) ∷ s) ≡ b ∷ read_pairs room s
unfolding read_pairs
read_pairs-byte room b s h = rw (digit_text-ne (b / 16)) (rw (pair_value-text b h))

read_pairs-group :
    (bs : List ℕ) (room : ℕ) (s : List ℕ)
    → All (λ b. b < 256) bs
    → read_pairs (length bs + room) (group_text bs ++ s) ≡ bs ++ read_pairs room s
read_pairs-group [] room s h = ap (λ n. read_pairs n s) (zero_plus room)
read_pairs-group (b ∷ bs) room s (small, h) =
    ap (λ n. read_pairs n (group_text (b ∷ bs) ++ s)) (suc_add (length bs) room)
    ∙ read_pairs-byte (length bs + room) b (group_text bs ++ s) small
    ∙ ap (λ t. b ∷ t) (read_pairs-group bs room s h)

length-group_text : (bs : List ℕ) → length (group_text bs) ≡ 2 * length bs
length-group_text [] = refl
length-group_text (b ∷ bs) = omega (arith, length-group_text bs)

read_pairs-dash :
    (room : ℕ) (s : List ℕ) → read_pairs (suc room) (b'-' ∷ s) ≡ read_pairs (suc room) s
unfolding read_pairs
read_pairs-dash room [] = refl
read_pairs-dash room (c ∷ s) = refl

-- A group with the dash behind it.
read_pairs-group_dash :
    (n room : ℕ) (bs s : List ℕ)
    → All (λ b. b < 256) bs
    → length bs + suc room ≡ n
    → read_pairs n (group_text bs ++ b'-' ∷ s) ≡ bs ++ read_pairs (suc room) s
read_pairs-group_dash n room bs s small e =
    ap (λ m. read_pairs m (group_text bs ++ b'-' ∷ s)) (sym e)
    ∙ read_pairs-group bs (suc room) (b'-' ∷ s) small
    ∙ ap (λ t. bs ++ t) (read_pairs-dash room s)

read_pairs-last :
    (n : ℕ) (bs : List ℕ)
    → All (λ b. b < 256) bs
    → length bs ≡ n
    → read_pairs n (group_text bs) ≡ bs
unfolding read_pairs
read_pairs-last n bs small e =
    ap₂ read_pairs (sym e ∙ plus_zero (length bs)) (sym (append-nil (group_text bs)))
    ∙ read_pairs-group bs 0 [] small
    ∙ append-nil bs

-- The groups of 16 bytes.
regroup :
    (bytes : List ℕ)
    → take 4 bytes
        ++ (take 2 (drop 4 bytes)
            ++ (take 2 (drop 6 bytes) ++ (take 2 (drop 8 bytes) ++ drop 10 bytes)))
      ≡ bytes
regroup bytes =
    let step = λ (n : ℕ) (k : ℕ).
      ap (λ t. take k (drop n bytes) ++ t) (sym (drop-drop n k bytes))
      ∙ take-append-drop k (drop n bytes) in
    ap (λ t. take 4 bytes ++ (take 2 (drop 4 bytes) ++ (take 2 (drop 6 bytes) ++ t))) (step 8 2)
    ∙ ap (λ t. take 4 bytes ++ (take 2 (drop 4 bytes) ++ t)) (step 6 2)
    ∙ ap (λ t. take 4 bytes ++ t) (step 4 2)
    ∙ take-append-drop 4 bytes

read_pairs-text :
    (bytes : List ℕ)
    → All (λ b. b < 256) bytes
    → length bytes ≡ 16
    → read_pairs 16 (uuid_text bytes) ≡ bytes
read_pairs-text bytes small e =
    let part = λ (n : ℕ) (k : ℕ).
      All-take (λ b. b < 256) k (drop n bytes) (All-drop (λ b. b < 256) n bytes small) in
    read_pairs-group_dash 16 11 (take 4 bytes) _ (All-take (λ b. b < 256) 4 bytes small)
      (omega (arith, length-take 4 bytes))
    ∙ ap (λ t. take 4 bytes ++ t)
        (read_pairs-group_dash 12 9 (take 2 (drop 4 bytes)) _ (part 4 2)
            (omega (arith, length-take 2 (drop 4 bytes), length-drop 4 bytes))
          ∙ ap (λ t. take 2 (drop 4 bytes) ++ t)
              (read_pairs-group_dash 10 7 (take 2 (drop 6 bytes)) _ (part 6 2)
                  (omega (arith, length-take 2 (drop 6 bytes), length-drop 6 bytes))
                ∙ ap (λ t. take 2 (drop 6 bytes) ++ t)
                    (read_pairs-group_dash 8 5 (take 2 (drop 8 bytes)) _ (part 8 2)
                        (omega (arith, length-take 2 (drop 8 bytes), length-drop 8 bytes))
                      ∙ ap (λ t. take 2 (drop 8 bytes) ++ t)
                          (read_pairs-last 6 (drop 10 bytes)
                            (All-drop (λ b. b < 256) 10 bytes small)
                            (omega (arith, length-drop 10 bytes))))))
    ∙ regroup bytes

length-dash : (xs ys : List ℕ) → length (xs ++ b'-' ∷ ys) ≡ length xs + suc (length ys)
length-dash xs ys = length-append xs (b'-' ∷ ys)

length-uuid_text : (bytes : List ℕ) → length bytes ≡ 16 → length (uuid_text bytes) ≡ 36
length-uuid_text bytes e = omega (
  arith,
  length-dash,
  length-group_text,
  length-take 4 bytes,
  length-take 2 (drop 4 bytes),
  length-take 2 (drop 6 bytes),
  length-take 2 (drop 8 bytes),
  length-drop 4 bytes,
  length-drop 6 bytes,
  length-drop 8 bytes,
  length-drop 10 bytes,
)

-- The canonical text of 16 bytes is parsed to those bytes, and a text of another length than 36 to zeros.
pub parse_uuid-text :
    (bytes other : List ℕ)
    → All (λ b. b < 256) bytes
    → length bytes ≡ 16
    → length other ≢ 36
    → (parse_uuid (uuid_text bytes) ≡ bytes) × (parse_uuid other ≡ replicate 16 0)
unfolding parse_uuid
parse_uuid-text bytes other small e ne = (
  rw (length-uuid_text bytes e) (
      rw (read_pairs-text bytes small e)
        (ap (λ n. bytes ++ replicate (16 - n) 0) e ∙ append-nil bytes)),
  ground arith,
)
