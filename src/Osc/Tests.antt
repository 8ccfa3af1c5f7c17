-- ===== src/Osc/Tests.antt =====
-- Runs of the encoder and the server, and the theorems at concrete messages.
use nomos_rt.Common.{ℕ, true, if◌then◌else◌, some, List, [], ◌∷◌, ◌++◌, codes, ◌≡◌, refl, arith}
use nomos_rt.SmallVector
use nomos_rt.SmallVector.{SmallVector, contents, empty_vector}
use nomos_rt.SmallVector.Laws.{IsValid, empty_vector_lem}
use nomos_rt.Osc.Encode.{
  Arg, make_i, make_f, encode, tags, ◌>>◌, succeed, padded_length, push_zeros, append_osc_string,
  append_u32_be, push_all, push_padding, append_arg, append_args,
}
use nomos_rt.Osc.Wire.{wire, args_wire, arg_wire, padded}
use nomos_rt.Osc.Laws.{fits, encode_lem}
use nomos_rt.Osc.Receive.{receive_encoded}
use nomos_rt.Osc.Server.{parse_packet}

abbrev gain_args : List Arg
gain_args = make_f 0x3f000000 ∷ make_i 7 ∷ []

abbrev buffer : SmallVector ℕ
buffer = empty_vector 32 0

gain_bytes : List ℕ
gain_bytes =
    codes "/gain" ++ (0 ∷ 0 ∷ 0 ∷ codes ",fi") ++ (0 ∷ 0x3f ∷ 0 ∷ 0 ∷ 0 ∷ 0 ∷ 0 ∷ 0 ∷ 7 ∷ [])

gain_encoded :
    ((encode 32 (codes "/gain") gain_args buffer).0 ≡ true)
    × (contents (encode 32 (codes "/gain") gain_args buffer).1 ≡ gain_bytes)
unfolding encode make_f make_i tags ◌>>◌ succeed padded_length push_zeros append_osc_string
    append_u32_be push_all push_padding append_arg append_args gain_bytes empty_vector
    SmallVector.push_back SmallVector.append SmallVector.clear
gain_encoded = (refl, refl)

buffer-IsValid : IsValid 32 buffer
buffer-IsValid = (empty_vector_lem 32 0).0

gain_fits : fits 20 (wire (codes "/gain") gain_args) ≡ true
unfolding wire args_wire arg_wire make_f make_i tags padded
gain_fits = refl

encode_lem_example :
    let (done, w) = encode 32 (codes "/gain") gain_args buffer in
    IsValid 32 w
    × (done ≡ fits 32 (wire (codes "/gain") gain_args))
    × ((if done then some (contents w) else wire (codes "/gain") gain_args)
        ≡ wire (codes "/gain") gain_args)
encode_lem_example = encode_lem 32 (codes "/gain") gain_args buffer-IsValid

receive_encoded_example :
    parse_packet (contents (encode 32 (codes "/gain") gain_args buffer).1)
    ≡ some (record {
      address = codes "/gain";
      types = tags gain_args;
      args = 0x3f ∷ 0 ∷ 0 ∷ 0 ∷ 0 ∷ 0 ∷ 0 ∷ 7 ∷ [];
      avail = 8;
    })
unfolding args_wire arg_wire make_f make_i
receive_encoded_example =
    receive_encoded 32 (codes "/gain") gain_args (0x3f ∷ 0 ∷ 0 ∷ 0 ∷ 0 ∷ 0 ∷ 0 ∷ 7 ∷ [])
      buffer-IsValid (omega arith) refl (gain_encoded.0)
