-- ===== src/Osc/Receive.antt =====
-- src/osc_server.cpp and include/nomos/rt/osc_encode.hpp: the two sides of the wire.
use nomos_rt.Common.{
  ℕ, suc, ◌+◌, ◌-◌, ◌%◌, ◌^◌, ◌≤◌, ◌<◌, true, Option, none, some, List, [], ◌∷◌, ◌++◌, length, take,
  drop, replicate, All, length-append, drop-drop, take-length, drop-length, ◌≡◌, ◌≢◌, refl, ap, sym,
  ◌∙◌, arith, append_assoc,
}
use nomos_rt.SmallVector.{SmallVector, contents}
use nomos_rt.SmallVector.Laws.{IsValid}
use nomos_rt.Osc.Laws.{encode_lem}
use nomos_rt.Osc.Encode.{Arg, tags, encode, padded_length}
use nomos_rt.Osc.Wire.{padded, join, arg_wire, args_wire, wire, length-padded}
use nomos_rt.Osc.Server.{strnlen, pad4, Packet, parse_tags, parse_packet}

-- No null byte, as in the contents of a C string.
abbrev pub NoNull : List ℕ → Type 0
NoNull = All (λ b. b ≢ 0)

strnlen_text : (s r : List ℕ) → NoNull s → strnlen (s ++ 0 ∷ r) ≡ length s
unfolding strnlen
strnlen_text [] r h = refl
strnlen_text (b ∷ s) r h = ground (arith, strnlen_text s r)

-- The padding begins with a null byte.
pub padded_null : (s : List ℕ) → padded s ≡ s ++ 0 ∷ replicate (3 - length s % 4) 0
unfolding padded
padded_null s = ap (λ n. s ++ replicate n 0) (one_more (length s))
  where
    one_more : (n : ℕ) → 4 - n % 4 ≡ suc (3 - n % 4)
    one_more n = omega arith

strnlen-padded : (s r : List ℕ) → NoNull s → strnlen (padded s ++ r) ≡ length s
strnlen-padded s r h =
    ap (λ p. strnlen (p ++ r)) (padded_null s)
    ∙ ap strnlen (append_assoc s (0 ∷ replicate (3 - length s % 4) 0) r)
    ∙ strnlen_text s (replicate (3 - length s % 4) 0 ++ r) h

take-padded : (s r : List ℕ) → take (length s) (padded s ++ r) ≡ s
unfolding padded
take-padded s r =
    ap (take (length s)) (append_assoc s (replicate (4 - length s % 4) 0) r)
    ∙ take-length s (replicate (4 - length s % 4) 0 ++ r)

pub pad4-length : (s : List ℕ) → pad4 (length s + 1) ≡ length (padded s)
unfolding pad4 padded_length
pad4-length s = omega (arith, length-padded s)

module _ (address types rest : List ℕ) (plain : NoNull address) (typed : NoNull types) where
  abbrev tag_string : List ℕ
  tag_string = b',' ∷ types

  abbrev layout : List ℕ
  layout = padded address ++ (padded tag_string ++ rest)

  abbrev layout_packet : Packet
  layout_packet = record { address = address; types = types; args = rest; avail = length rest }

  length-layout :
      length layout
      ≡ padded_length (length address) + padded_length (suc (length types)) + length rest
  length-layout = omega (
    arith,
    length-append (padded address) (padded tag_string ++ rest),
    length-append (padded tag_string) rest,
    length-padded address,
    length-padded tag_string,
  )

  drop_tags : drop (pad4 (length address + 1)) layout ≡ padded tag_string ++ rest
  drop_tags =
      ap (λ n. drop n layout) (pad4-length address)
      ∙ drop-length (padded address) (padded tag_string ++ rest)

  drop_args : drop (pad4 (length address + 1) + pad4 (suc (length types) + 1)) layout ≡ rest
  drop_args =
      sym (drop-drop (pad4 (length address + 1)) (pad4 (suc (length types) + 1)) layout)
      ∙ ap (drop (pad4 (suc (length types) + 1))) drop_tags
      ∙ ap (λ n. drop n (padded tag_string ++ rest)) (pad4-length tag_string)
      ∙ drop-length (padded tag_string) rest

  abbrev after_comma : List ℕ
  after_comma = types ++ (replicate (4 - suc (length types) % 4) 0 ++ rest)

  split_tags : padded tag_string ++ rest ≡ b',' ∷ after_comma
  unfolding padded
  split_tags = ap (◌∷◌ b',') (append_assoc types (replicate (4 - suc (length types) % 4) 0) rest)

  parse_tags-layout :
      parse_tags layout (length address) (pad4 (length address + 1)) ≡ some layout_packet
  unfolding parse_tags
  parse_tags-layout = ground (
    arith,
    drop_tags,
    split_tags,
    strnlen-padded tag_string rest (comma, typed),
    take-length types (replicate (4 - suc (length types) % 4) 0 ++ rest),
    drop_args,
    take-padded address (padded tag_string ++ rest),
    length-layout,
    pad4-length address,
    pad4-length tag_string,
    length-padded address,
    length-padded tag_string,
  )
    where
      comma : ◌≢◌ {A = ℕ} b',' 0
      comma = omega arith

  long_enough : (n : ℕ) → (n < padded_length n) × (4 ≤ padded_length n)
  unfolding padded_length
  long_enough n = omega arith

  pub parse_packet-layout : parse_packet layout ≡ some layout_packet
  unfolding parse_packet
  parse_packet-layout = ground (
    arith,
    strnlen-padded address (padded tag_string ++ rest) plain,
    length-layout,
    pad4-length address,
    length-padded address,
    long_enough (length address),
    long_enough (suc (length types)),
    parse_tags-layout,
  )

tags-NoNull : (args : List Arg) {rest : List ℕ} → args_wire args ≡ some rest → NoNull (tags args)
unfolding tags args_wire arg_wire
tags-NoNull [] h = tt
tags-NoNull (a ∷ args) {rest} h = (
  known a (args_wire args) rest h,
  tags-NoNull args (joined (arg_wire a) (args_wire args) rest h).1,
)
  where
    joined : (o p : Option (List ℕ)) (r : List ℕ) → join o p ≡ some r → (q : List ℕ) × (p ≡ some q)
    joined none p r h = cc
    joined (some bs) none r h = cc
    joined (some bs) (some cs) r h = (cs, refl)

    known :
        (a : Arg) (p : Option (List ℕ)) (r : List ℕ)
        → join (arg_wire a) p ≡ some r
        → a.tag % 2 ^ 8 ≢ 0
    known a p r h = ground arith

-- What the server reads off a buffer that `encode` has filled, where the address holds no null byte, is
-- the address, the arguments' tags and the arguments' bytes, all of them available.
pub receive_encoded :
    (cap : ℕ) (address : List ℕ) (args : List Arg) {v : SmallVector ℕ} (bytes : List ℕ)
    → IsValid cap v
    → NoNull address
    → args_wire args ≡ some bytes
    → (encode cap address args v).0 ≡ true
    → parse_packet (contents (encode cap address args v).1)
      ≡ some (record { address = address; types = tags args; args = bytes; avail = length bytes })
unfolding wire
receive_encoded cap address args {v} bytes valid plain known ok =
    ap parse_packet holds
    ∙ parse_packet-layout address (tags args) bytes plain (tags-NoNull args known)
  where
    holds :
        contents (encode cap address args v).1
        ≡ padded address ++ (padded (b',' ∷ tags args) ++ bytes)
    holds = ground (arith, encode_lem cap address args valid)
