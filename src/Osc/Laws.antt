-- ===== src/Osc/Laws.antt =====
-- `encode` writes the wire layout, or fails: what each of its steps adds to the buffer.
use nomos_rt.Common.{
  ℕ, zero, suc, ◌+◌, ◌-◌, ◌%◌, ◌≤◌, Bool, true, false, ◌==◌, leb, if◌then◌else◌, Option, none, some,
  List, [], ◌∷◌, ◌++◌, length, replicate, ◌≡◌, refl, ap, sym, arith, length-append, append_assoc,
  append-nil, Bool-cases, inl, inr, subst,
}
use nomos_rt.SmallVector
use nomos_rt.SmallVector.{SmallVector, contents}
use nomos_rt.SmallVector.Laws.{IsValid, push_back_lem, append_lem, length-contents}
use nomos_rt.Osc.Encode.{
  Arg, Writer, ◌>>◌, succeed, tags, padded_length, push_zeros, append_osc_string, append_u32_be,
  push_all, push_padding, append_arg, append_args, encode,
}
use nomos_rt.Osc.Wire.{padded, u32_be, join, arg_wire, args_wire, wire, length-padded}

-- What a writer that stands for the bytes `bs` has done to the buffer `v`.
pub record Wrote (capacity : ℕ) (v : SmallVector ℕ) (bs : List ℕ) (r : Bool × SmallVector ℕ)
    : Type 0 where
  pub valid : IsValid capacity r.1
  pub result : r.0 ≡ leb (v.size + length bs) capacity
  pub bytes : (if r.0 then contents r.1 else contents v ++ bs) ≡ contents v ++ bs

-- A writer that stands for `none` fails.
abbrev pub Outcome : ℕ → SmallVector ℕ → Option (List ℕ) → Bool × SmallVector ℕ → Type 0
Outcome capacity v (some bs) r = Wrote capacity v bs r
Outcome capacity v none r = IsValid capacity r.1 × (r.0 ≡ false)

abbrev pub Emits : ℕ → Writer → Option (List ℕ) → Type 0
Emits capacity m o = (v : SmallVector ℕ) → IsValid capacity v → Outcome capacity v o (m v)

module _ (cap : ℕ) where
  size_of_bytes :
      (v w : SmallVector ℕ) (bs : List ℕ)
      → IsValid cap v
      → IsValid cap w
      → contents w ≡ contents v ++ bs
      → w.size ≡ v.size + length bs
  size_of_bytes v w bs hv hw e = omega (
    arith,
    ap length e,
    length-append (contents v) bs,
    length-contents cap hv,
    length-contents cap hw,
  )

  after_ok :
      (k : Writer) (v w : SmallVector ℕ) (bs cs : List ℕ)
      → IsValid cap v
      → IsValid cap w
      → contents w ≡ contents v ++ bs
      → Wrote cap w cs (k w)
      → Wrote cap v (bs ++ cs) (k w)
  after_ok k v w bs cs hv hw e r =
      ground
        (arith, size_of_bytes v w bs hv hw e, length-append bs cs, append_assoc (contents v) bs cs)

  -- One writer after another stands for one piece of the wire after another.
  >>-Emits :
      (m k : Writer) (o p : Option (List ℕ))
      → Emits cap m o
      → Emits cap k p
      → Emits cap (m >> k) (join o p)
  unfolding ◌>>◌
  >>-Emits m k none p em ek v h = ground (arith, em v h)
  >>-Emits m k (some bs) none em ek v h = elim (Bool-cases (m v).0) [
    | inl ok ↦ ground (arith, em v h, ek (m v).1)
    | inr bad ↦ ground (arith, em v h)
  ]
  >>-Emits m k (some bs) (some cs) em ek v h = elim (Bool-cases (m v).0) [
    | inl ok ↦ ground (arith, em v h, ek (m v).1, after_ok k v (m v).1 bs cs h)
    | inr bad ↦ ground (arith, em v h, length-append bs cs)
  ]

  succeed-Emits : Emits cap succeed (some [])
  unfolding succeed
  succeed-Emits v h = ground (arith, append-nil (contents v))

  push_back-Emits : (b : ℕ) → Emits cap (SmallVector.push_back cap b) (some (b ∷ []))
  push_back-Emits b v h = ground (arith, push_back_lem cap b h)

  append-Emits : (bs : List ℕ) → Emits cap (SmallVector.append cap bs) (some bs)
  append-Emits bs v h = ground (arith, append_lem cap bs h)

  push_all-Emits : (bs : List ℕ) → Emits cap (push_all cap bs) (some bs)
  unfolding push_all
  push_all-Emits [] = succeed-Emits
  push_all-Emits (b ∷ bs) =
      >>-Emits _ _ (some (b ∷ [])) (some bs) (push_back-Emits b) (push_all-Emits bs)

  push_padding-Emits : (n : ℕ) → Emits cap (push_padding cap n) (some (replicate n 0))
  unfolding push_padding
  push_padding-Emits zero = succeed-Emits
  push_padding-Emits (suc n) =
      >>-Emits _ _ (some (0 ∷ [])) (some (replicate n 0)) (push_back-Emits 0) (push_padding-Emits n)

  -- Unchecked writes of zeros that fit.
  push_zeros_lem :
      (n : ℕ) (v : SmallVector ℕ)
      → IsValid cap v
      → v.size + n ≤ cap
      → IsValid cap (push_zeros cap n v)
        × (contents (push_zeros cap n v) ≡ contents v ++ replicate n 0)
  unfolding push_zeros
  push_zeros_lem zero v h fits = (h, sym (append-nil (contents v)))
  push_zeros_lem (suc n) v h fits = ground (
    arith,
    push_back_lem cap 0 h,
    size_of_bytes v (SmallVector.push_back cap 0 v).1 (0 ∷ []) h,
    push_zeros_lem n (SmallVector.push_back cap 0 v).1,
    append_assoc (contents v) (0 ∷ []) (replicate n 0),
  )

  padding_length : (n : ℕ) → padded_length n ≡ n + (4 - n % 4)
  unfolding padded_length
  padding_length n = omega arith

  append_osc_string-Emits : (s : List ℕ) → Emits cap (append_osc_string cap s) (some (padded s))
  unfolding append_osc_string padded
  append_osc_string-Emits s v h =
      let w = (SmallVector.append cap s v).1 in
      let n = padded_length (length s) - length s in
      ground (
        arith,
        length-padded s,
        padding_length (length s),
        append_lem cap s h,
        size_of_bytes v w s h,
        push_zeros_lem n w,
        append_assoc (contents v) s (replicate n 0),
      )

  if-Emits :
      (b : Bool) (m k : Writer) (o p : Option (List ℕ))
      → Emits cap m o
      → Emits cap k p
      → Emits cap (λ out. if b then m out else k out) (if b then o else p)
  if-Emits true m k o p em ek = em
  if-Emits false m k o p em ek = ek

  fail-Emits : Emits cap (λ out. (false, out)) none
  fail-Emits v h = (h, refl)

  u32_be-Emits : (n : ℕ) → Emits cap (append_u32_be cap n) (some (u32_be n))
  unfolding append_u32_be
  u32_be-Emits n = append-Emits (u32_be n)

  arg-Emits : (a : Arg) → Emits cap (append_arg cap a) (arg_wire a)
  unfolding append_arg arg_wire
  arg-Emits a = if-Emits (a.tag == b'i') _ _ _ _ (u32_be-Emits a.i) (
      if-Emits (a.tag == b'f') _ _ _ _ (u32_be-Emits a.f)
        (if-Emits (a.tag == b's') _ _ _ _ (append_osc_string-Emits a.s) fail-Emits))

  args-Emits : (args : List Arg) → Emits cap (append_args cap args) (args_wire args)
  unfolding append_args args_wire
  args-Emits [] = succeed-Emits
  args-Emits (a ∷ args) = >>-Emits _ _ (arg_wire a) (args_wire args) (arg-Emits a) (args-Emits args)

  length-tags : (args : List Arg) → length (tags args) ≡ length args
  unfolding tags
  length-tags [] = refl
  length-tags (a ∷ args) = ap suc (length-tags args)

  -- The type-tag string in the pieces in which the code writes it.
  join-tags :
      (args : List Arg) (o : Option (List ℕ))
      → join (some (b',' ∷ [])) (
          join
            (some (tags args))
            (join (some (replicate (padded_length (length args + 1) - (length args + 1)) 0)) o))
        ≡ join (some (padded (b',' ∷ tags args))) o
  unfolding padded
  join-tags args none = refl
  join-tags args (some bs) = ground (
    arith,
    padding_length (length args + 1),
    length-tags args,
    append_assoc (tags args) (replicate (4 - suc (length args) % 4) 0) bs,
  )

  encode-Outcome :
      (address : List ℕ) (args : List Arg) (v : SmallVector ℕ)
      → IsValid cap v
      → Outcome cap (SmallVector.clear v) (wire address args) (encode cap address args v)
  unfolding encode wire SmallVector.clear
  encode-Outcome address args v h =
      let n = padded_length (length args + 1) - (length args + 1) in
      let tail =
        >>-Emits (SmallVector.push_back cap b',') _ (some (b',' ∷ []))
          (join (some (tags args)) (join (some (replicate n 0)) (args_wire args)))
          (push_back-Emits b',')
          (>>-Emits _ _ (some (tags args)) (join (some (replicate n 0)) (args_wire args))
            (push_all-Emits (tags args))
            (>>-Emits _ _ (some (replicate n 0)) (args_wire args) (push_padding-Emits n)
              (args-Emits args))) in
      >>-Emits _ _ (some (padded address)) _ (append_osc_string-Emits address)
        (subst (Emits cap _) (join-tags args (args_wire args)) tail) (SmallVector.clear v)
        (ground arith)

  -- Whether a buffer can hold the wire layout.
  abbrev pub fits : Option (List ℕ) → Bool
  fits none = false
  fits (some bs) = leb (length bs) cap

  result_of_Outcome :
      (v : SmallVector ℕ) (o : Option (List ℕ)) (r : Bool × SmallVector ℕ)
      → Outcome cap (SmallVector.clear v) o r
      → IsValid cap r.1 × (r.0 ≡ fits o) × ((if r.0 then some (contents r.1) else o) ≡ o)
  unfolding SmallVector.clear
  result_of_Outcome v none r w = ground arith
  result_of_Outcome v (some bs) r w = ground arith

  -- `encode` returns true exactly if every argument's tag is known and the wire layout of the message
  -- fits the buffer's capacity, and then the buffer holds that layout, whatever it held before.
  -- In every case the buffer stays valid.
  pub encode_lem :
      (address : List ℕ) (args : List Arg) {v : SmallVector ℕ}
      → IsValid cap v
      → let (done, w) = encode cap address args v in
        IsValid cap w
        × (done ≡ fits (wire address args))
        × ((if done then some (contents w) else wire address args) ≡ wire address args)
  encode_lem address args {v} h =
      result_of_Outcome v (wire address args) (encode cap address args v)
        (encode-Outcome address args v h)
