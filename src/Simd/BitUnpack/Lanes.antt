-- ===== src/Simd/BitUnpack/Lanes.antt =====
-- The 1-bit kernels of AVX2 and AVX-512 read the same fields as the scalar kernel.
use vec_fetch.Prelude.{
  ℕ, zero, suc, ◌+◌, ◌-◌, ◌*◌, ◌/◌, ◌≤◌, ◌<◌, ◌≡◌, refl, sym, ap, ◌∙◌, arith, List, ◌++◌, some,
  bit_and, length, get_or, get_elem?-eq-get_or, All, IsByte, ◌>>>◌, lt→ltb, le→ltb, dec_lt,
}
use vec_fetch.Bits.{bit_and_mask}
use vec_fetch.Bits.Fields.{field}
use vec_fetch.Bytes.{value, get_or-IsByte}
use mathlib.Core.List.{append_assoc}
use mathlib.Core.Path.{ap₂}
use vec_fetch.Simd.BitUnpack.{
  bit_lanes, shifts_8, shifts_16, full_bytes_avx2, tail_bits_avx2, full_16_avx512, tail_bits_avx512,
  bit_unpack_1bit_avx2, bit_unpack_1bit_avx512, fields,
}
use vec_fetch.Simd.BitUnpack.Scalar.{chunk_field}

pub fields-append :
    (m n bits w pos : ℕ)
    → fields (m + n) bits w pos ≡ fields m bits w pos ++ fields n bits w (pos + m * w)
unfolding fields
fields-append zero n bits w pos =
    let e : 0 + n ≡ n = omega arith in let p : pos + 0 * w ≡ pos = omega arith in rw (e, p)
fields-append (suc m) n bits w pos =
    let e : suc m + n ≡ suc (m + n) = omega arith in
    let p : pos + suc m * w ≡ pos + w + m * w = omega arith in
    rw (e, p, fields-append m n bits w (pos + w))

bit_of_byte :
    (packed : List ℕ) (b s : ℕ)
    → All IsByte packed
    → b < length packed
    → s < 8
    → bit_and (get_or packed b 0 >>> s) 1 ≡ field (value packed) (8 * b + s) 1
bit_of_byte packed b s hb h hs =
    let byte : (8 * b + s) / 8 ≡ b = omega arith in
    let bit : bit_and (8 * b + s) 7 ≡ s = omega (arith, bit_and_mask 3 (8 * b + s)) in
    rw (byte, bit) at (chunk_field packed (8 * b + s) 1 hb (rw byte h) (omega arith))

byte_lanes :
    (packed : List ℕ) (b : ℕ)
    → All IsByte packed
    → b < length packed
    → bit_lanes (get_or packed b 0) shifts_8 ≡ fields 8 (value packed) 1 (8 * b)
unfolding fields
byte_lanes packed b hb h =
    let bit = λ (s : ℕ) (hs : s < 8). bit_of_byte packed b s hb h hs in
    ground (
      arith,
      bit 0 (omega arith),
      bit 1 (omega arith),
      bit 2 (omega arith),
      bit 3 (omega arith),
      bit 4 (omega arith),
      bit 5 (omega arith),
      bit 6 (omega arith),
      bit 7 (omega arith),
    )

full_bytes_avx2_lem :
    (n : ℕ) (packed : List ℕ) (b : ℕ)
    → All IsByte packed
    → b + n ≤ length packed
    → full_bytes_avx2 n packed b ≡ some (fields (n * 8) (value packed) 1 (8 * b))
unfolding full_bytes_avx2
full_bytes_avx2_lem zero packed b hb h = unfold fields in refl
full_bytes_avx2_lem (suc n) packed b hb h =
    let e : suc n * 8 ≡ 8 + n * 8 = omega arith in
    let p : 8 * (b + 1) ≡ 8 * b + 8 * 1 = omega arith in
    rw (
      e,
      fields-append 8 (n * 8) (value packed) 1 (8 * b),
      ← p,
      get_elem?-eq-get_or packed b 0 (omega arith),
      full_bytes_avx2_lem n packed (b + 1) hb (omega arith),
      ← byte_lanes packed b hb (omega arith),
    )

tail_bits_avx2_lem :
    (n : ℕ) (packed : List ℕ) (b s : ℕ)
    → All IsByte packed
    → b < length packed
    → s + n ≤ 8
    → tail_bits_avx2 n (get_or packed b 0) s ≡ fields n (value packed) 1 (8 * b + s)
unfolding tail_bits_avx2 fields
tail_bits_avx2_lem zero packed b s hb h hs = refl
tail_bits_avx2_lem (suc n) packed b s hb h hs =
    let p : 8 * b + s + 1 ≡ 8 * b + (s + 1) = omega arith in
    rw (
      p,
      bit_of_byte packed b s hb h (omega arith),
      tail_bits_avx2_lem n packed b (s + 1) hb h (omega arith),
    )

pub bit_unpack_1bit_avx2_lem :
    (packed : List ℕ) (count : ℕ)
    → All IsByte packed
    → count ≤ 8 * length packed
    → bit_unpack_1bit_avx2 packed count ≡ some (fields count (value packed) 1 0)
unfolding bit_unpack_1bit_avx2
bit_unpack_1bit_avx2_lem packed count hb h =
    let full = full_bytes_avx2_lem (count / 8) packed 0 hb (omega arith) in
    elim (dec_lt 0 (count - count / 8 * 8)) [
      | yes more ↦
          let split : count ≡ count / 8 * 8 + (count - count / 8 * 8) = omega arith in
          let start : 0 + count / 8 * 8 * 1 ≡ 8 * (count / 8) + 0 = omega arith in
          rw
            (
              full,
              lt→ltb 0 (count - count / 8 * 8) more,
              get_elem?-eq-get_or packed (count / 8) 0 (omega arith),
              tail_bits_avx2_lem (count - count / 8 * 8) packed (count / 8) 0 hb (omega arith)
                  (omega arith),
            )
            (ap some (
              sym (
                ap (λ (t : ℕ). fields t (value packed) 1 0) split
                ∙ fields-append (count / 8 * 8) (count - count / 8 * 8) (value packed) 1 0
                ∙ rw start)))
      | no done ↦
          let whole : count / 8 * 8 ≡ count = omega arith in
          rw (full, le→ltb 0 (count - count / 8 * 8) (omega arith))
            (ap (λ (t : ℕ). some (fields t (value packed) 1 0)) whole)
    ]

word_lanes :
    (low high : ℕ)
    → IsByte low
    → bit_lanes (low + high * 256) shifts_16 ≡ bit_lanes low shifts_8 ++ bit_lanes high shifts_8
word_lanes low high h = simp (bit_and_mask 1) (ground arith)

full_16_avx512_lem :
    (n : ℕ) (packed : List ℕ) (b : ℕ)
    → All IsByte packed
    → b * 2 + n * 2 ≤ length packed
    → full_16_avx512 n packed b ≡ some (fields (n * 16) (value packed) 1 (8 * (b * 2)))
unfolding full_16_avx512
full_16_avx512_lem zero packed b hb h = unfold fields in refl
full_16_avx512_lem (suc n) packed b hb h =
    let bits = value packed in
    let e : suc n * 16 ≡ 8 + (8 + n * 16) = omega arith in
    let p : 8 * (b * 2) + 8 * 1 ≡ 8 * (b * 2 + 1) = omega arith in
    let q : 8 * (b * 2 + 1) + 8 * 1 ≡ 8 * ((b + 1) * 2) = omega arith in
    let low = get_or packed (b * 2) 0 in
    let high = get_or packed (b * 2 + 1) 0 in
    let lanes : bit_lanes (low + high * 256) shifts_16
        ≡ fields 8 bits 1 (8 * (b * 2)) ++ fields 8 bits 1 (8 * (b * 2 + 1)) =
      word_lanes low high (get_or-IsByte packed (b * 2) hb)
      ∙ ap₂ ◌++◌ (byte_lanes packed (b * 2) hb (omega arith))
          (byte_lanes packed (b * 2 + 1) hb (omega arith)) in
    let parts : fields (suc n * 16) bits 1 (8 * (b * 2))
        ≡ (fields 8 bits 1 (8 * (b * 2)) ++ fields 8 bits 1 (8 * (b * 2 + 1)))
          ++ fields (n * 16) bits 1 (8 * ((b + 1) * 2)) =
      rw
        (
          e,
          fields-append 8 (8 + n * 16) bits 1 (8 * (b * 2)),
          p,
          fields-append 8 (n * 16) bits 1 (8 * (b * 2 + 1)),
          q,
        )
        (sym
          (append_assoc (fields 8 bits 1 (8 * (b * 2))) (fields 8 bits 1 (8 * (b * 2 + 1))) _)) in
    rw (
      get_elem?-eq-get_or packed (b * 2) 0 (omega arith),
      get_elem?-eq-get_or packed (b * 2 + 1) 0 (omega arith),
      full_16_avx512_lem n packed (b + 1) hb (omega arith),
      parts,
      ← lanes,
    )

tail_bits_avx512_lem :
    (n : ℕ) (packed : List ℕ) (pos : ℕ)
    → All IsByte packed
    → pos + n ≤ 8 * length packed
    → tail_bits_avx512 n packed pos ≡ some (fields n (value packed) 1 pos)
unfolding tail_bits_avx512 fields
tail_bits_avx512_lem zero packed pos hb h = refl
tail_bits_avx512_lem (suc n) packed pos hb h = rw (
  get_elem?-eq-get_or packed (pos / 8) 0 (omega arith),
  tail_bits_avx512_lem n packed (pos + 1) hb (omega arith),
  chunk_field packed pos 1 hb (omega arith) (omega arith),
)

pub bit_unpack_1bit_avx512_lem :
    (packed : List ℕ) (count : ℕ)
    → All IsByte packed
    → count ≤ 8 * length packed
    → bit_unpack_1bit_avx512 packed count ≡ some (fields count (value packed) 1 0)
unfolding bit_unpack_1bit_avx512
bit_unpack_1bit_avx512_lem packed count hb h =
    let split : count ≡ count / 16 * 16 + (count - count / 16 * 16) = omega arith in
    let start : 0 + count / 16 * 16 * 1 ≡ count / 16 * 16 = omega arith in
    rw
      (
        full_16_avx512_lem (count / 16) packed 0 hb (omega arith),
        tail_bits_avx512_lem (count - count / 16 * 16) packed (count / 16 * 16) hb (omega arith),
      )
      (ap some (
        sym (
          ap (λ (t : ℕ). fields t (value packed) 1 0) split
          ∙ fields-append (count / 16 * 16) (count - count / 16 * 16) (value packed) 1 0
          ∙ rw start)))
