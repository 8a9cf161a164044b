-- ===== src/Codec/Bitpack/RoundTrip.antt =====
-- What the encoder writes, as a number, and what the decoder reads back.
use native.Mathlib.Nat.{mod-eq_of_lt, div-div-eq-div-mul}
use vec_fetch.Prelude.{
  ℕ, zero, suc, ◌+◌, ◌*◌, ◌/◌, ◌%◌, ◌^◌, ◌≤◌, ◌<◌, ◌≡◌, refl, sym, ap, ◌∙◌, arith, List, [], ◌∷◌,
  some, length, All, IsByte, u32, ◌>>=◌, replicate, length-replicate, lt→ltb,
}
use vec_fetch.Bits.{pow-add, div_unique, mod_unique}
use vec_fetch.Bytes.{value, value-zeros, All-IsByte-zeros}
use vec_fetch.Simd.Isa.{Isa}
use vec_fetch.Simd.BitUnpack.{fields}
use vec_fetch.Simd.BitUnpack.Kernels.{bit_unpack_reads_fields}
use vec_fetch.Codec.Bitpack.{write_value, write_values, encode, encoded_size, decode}
use vec_fetch.Codec.Bitpack.Width.{Fits}
use vec_fetch.Codec.Bitpack.Encode.{IsWritten, write_value_lem}

-- The layout of the packed values: value `i` at bit `i * w`.
unfoldable pub packed_value : ℕ → List ℕ → ℕ
packed_value w [] = 0
packed_value w (v ∷ vs) = v + packed_value w vs * 2 ^ w

-- `out` is `packed` with the values added from bit `pos` on.
pub record IsPacked (packed : List ℕ) (w pos : ℕ) (vs out : List ℕ) : Type 0 where
  pub bytes : All IsByte out
  pub same_length : length out ≡ length packed
  pub bits : value out ≡ value packed + packed_value w vs * 2 ^ pos

abbrev Packs : List ℕ → ℕ → ℕ → List ℕ → Type 0
Packs packed w pos vs =
    (out : List ℕ) × (write_values packed w pos vs ≡ some out) × IsPacked packed w pos vs out

Packs-cons :
    (packed : List ℕ) (w pos v : ℕ) (vs packed₁ : List ℕ)
    → v < 2 ^ w
    → pos + w < 2 ^ 32
    → write_value (w + 1) packed v pos w ≡ some packed₁
    → IsWritten packed v pos w packed₁
    → Packs packed₁ w (pos + w) vs
    → Packs packed w pos (v ∷ vs)
unfolding write_values packed_value
Packs-cons packed w pos v vs packed₁ hv hp run first (out, runs, rest) =
    let next : u32 (pos + w) ≡ pos + w = mod-eq_of_lt {n = pos + w} (omega arith) in
    (
      out,
      rw (run, next) runs,
      record {
        bytes = rest.bytes;
        same_length = rest.same_length ∙ first.same_length;
        bits = omega (
          arith,
          rest.bits,
          first.bits,
          ap (λ (p : ℕ). p * 2 ^ pos) (mod-eq_of_lt hv),
          ap (λ (p : ℕ). packed_value w vs * p) (pow-add pos w),
        );
      },
    )

write_values_lem :
    (vs packed : List ℕ) (w pos : ℕ)
    → All IsByte packed
    → value packed < 2 ^ pos
    → Fits w vs
    → pos + length vs * w ≤ 8 * length packed
    → pos + length vs * w < 2 ^ 32
    → Packs packed w pos vs
write_values_lem [] packed w pos hb hv hf hp hl = (
  packed,
  unfold write_values in refl,
  record { bytes = hb; same_length = refl; bits = unfold packed_value in omega arith },
)
write_values_lem (v ∷ vs) packed w pos hb hv (hf, hfs) hp hl =
    let (packed₁, run, first) =
      write_value_lem (w + 1) packed v pos w hb hv (omega arith) (omega arith) (omega arith) in
    Packs-cons packed w pos v vs packed₁ hf (omega arith) run first (
      write_values_lem vs packed₁ w (pos + w) first.bytes first.free hfs
        (rw first.same_length (omega arith)) (omega arith))

pub encoded_size_lem : (n w : ℕ) → n * w < 2 ^ 32 → encoded_size n w ≡ (n * w + 7) / 8
unfolding encoded_size
encoded_size_lem n w h = omega arith

-- The encoder, on values of `w` bits that take less than 2^32 bits in all, stays inside its buffer
-- and returns (n * w + 7) / 8 bytes in which value `i` stands at bit `i * w`.
pub encode_layout :
    (vs : List ℕ) (w : ℕ)
    → Fits w vs
    → length vs * w < 2 ^ 32
    → (packed : List ℕ) × (encode vs w ≡ some packed)
      × All IsByte packed
      × (length packed ≡ (length vs * w + 7) / 8)
      × (value packed ≡ packed_value w vs)
unfolding encode
encode_layout vs w hf hl =
    let size = encoded_size_lem (length vs) w hl in
    let zeros : List ℕ = replicate (encoded_size (length vs) w) 0 in
    let long : length zeros ≡ (length vs * w + 7) / 8 = length-replicate _ 0 ∙ size in
    let (packed, run, p) =
      write_values_lem vs zeros w 0 (All-IsByte-zeros _)
        (omega (arith, value-zeros (encoded_size (length vs) w))) hf (rw long (omega arith))
        (omega arith) in
    (
      packed,
      run,
      p.bytes,
      p.same_length ∙ long,
      omega (arith, p.bits, value-zeros (encoded_size (length vs) w)),
    )

fields-shift :
    (n v rest w pos : ℕ) → v < 2 ^ w → fields n (v + rest * 2 ^ w) w (w + pos) ≡ fields n rest w pos
unfolding fields
fields-shift zero v rest w pos hv = refl
fields-shift (suc n) v rest w pos hv =
    let bits = v + rest * 2 ^ w in
    let above : bits / 2 ^ w ≡ rest = div_unique bits (2 ^ w) rest v (omega arith) hv in
    let here : bits / 2 ^ (w + pos) ≡ rest / 2 ^ pos =
      ap (λ (p : ℕ). bits / p) (pow-add w pos)
      ∙ sym (div-div-eq-div-mul bits (2 ^ w) (2 ^ pos))
      ∙ ap (λ (q : ℕ). q / 2 ^ pos) above in
    let next : w + pos + w ≡ w + (pos + w) = omega arith in
    rw (here, next, fields-shift n v rest w (pos + w) hv)

-- The fields of the packed layout are the values.
pub fields-packed_value :
    (vs : List ℕ) (w : ℕ) → Fits w vs → fields (length vs) (packed_value w vs) w 0 ≡ vs
unfolding fields packed_value
fields-packed_value [] w hf = refl
fields-packed_value (v ∷ vs) w (hv, hf) =
    let bits = v + packed_value w vs * 2 ^ w in
    let start : bits / 2 ^ 0 ≡ bits = omega arith in
    let first : bits % 2 ^ w ≡ v = mod_unique bits (2 ^ w) (packed_value w vs) v (omega arith) hv in
    let next : w + 0 ≡ 0 + w = omega arith in
    rw (
      start,
      first,
      ← next,
      fields-shift (length vs) v (packed_value w vs) w 0 hv,
      fields-packed_value vs w hf,
    )

pub decode-fields :
    (isa : Isa) (packed : List ℕ) (w count : ℕ)
    → All IsByte packed
    → w ≤ 32
    → count * w ≤ 8 * length packed
    → count * w < 2 ^ 32
    → decode isa packed w count ≡ some (fields count (value packed) w 0)
unfolding decode
decode-fields isa packed w zero hb hw hp hl = unfold fields in refl
decode-fields isa packed w (suc n) hb hw hp hl =
    rw (lt→ltb 0 (suc n) (omega arith)) (bit_unpack_reads_fields isa packed w (suc n) hb hw hp hl)

-- Decoding what was encoded gives the values back, with every kernel, for values that fit `w` bits,
-- at most 32, and take less than 2^32 bits in all.
pub decode-encode :
    (isa : Isa) (vs : List ℕ) (w : ℕ)
    → w ≤ 32
    → Fits w vs
    → length vs * w < 2 ^ 32
    → (encode vs w >>= λ packed. decode isa packed w (length vs)) ≡ some vs
decode-encode isa vs w hw hf hl =
    let (packed, run, bytes, long, bits) = encode_layout vs w hf hl in
    rw run (
      decode-fields isa packed w (length vs) bytes hw (rw long (omega arith)) hl
      ∙ rw (bits, fields-packed_value vs w hf))
