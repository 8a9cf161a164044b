-- ===== src/Simd/BitUnpack/Kernels.antt =====
-- The entry point, whichever kernel the build has.
use vec_fetch.Prelude.{
  ℕ, zero, suc, ◌*◌, ◌≤◌, ◌<◌, ◌^◌, ◌≡◌, refl, arith, List, some, length, All, IsByte, ◌==◌,
  Bool-cases, suc-ne-zero, ==_iff, inl, inr,
}
use vec_fetch.Bytes.{value}
use vec_fetch.Simd.Isa.{Isa, scalar, avx2, avx512}
use vec_fetch.Simd.BitUnpack.{bit_unpack, fields}
use vec_fetch.Simd.BitUnpack.Scalar.{bit_unpack_scalar_lem}
use vec_fetch.Simd.BitUnpack.Lanes.{bit_unpack_1bit_avx2_lem, bit_unpack_1bit_avx512_lem}

-- Every kernel, on a buffer of bytes that holds `count` values of at most 32 bits and is shorter
-- than 2^32 bits, stays inside the buffer and returns the bit fields of the buffer's value.
pub bit_unpack_reads_fields :
    (isa : Isa) (packed : List ℕ) (w count : ℕ)
    → All IsByte packed
    → w ≤ 32
    → count * w ≤ 8 * length packed
    → count * w < 2 ^ 32
    → bit_unpack isa packed w count ≡ some (fields count (value packed) w 0)
unfolding bit_unpack
bit_unpack_reads_fields isa packed w zero hb hw hp hl = unfold fields in refl
bit_unpack_reads_fields scalar packed w (suc n) hb hw hp hl =
    rw (suc-ne-zero n) (bit_unpack_scalar_lem packed w (suc n) hb hw hp hl)
bit_unpack_reads_fields avx2 packed w (suc n) hb hw hp hl =
    rw (suc-ne-zero n) (elim (Bool-cases (w == 1)) [
      | inl one ↦
          let e : w ≡ 1 = (==_iff w 1).0 one in
          let fits : suc n * 1 ≤ 8 * length packed = rw e at hp in
          rw (one, e) (bit_unpack_1bit_avx2_lem packed (suc n) hb (omega arith))
      | inr more ↦ rw more (bit_unpack_scalar_lem packed w (suc n) hb hw hp hl)
    ])
bit_unpack_reads_fields avx512 packed w (suc n) hb hw hp hl =
    rw (suc-ne-zero n) (elim (Bool-cases (w == 1)) [
      | inl one ↦
          let e : w ≡ 1 = (==_iff w 1).0 one in
          let fits : suc n * 1 ≤ 8 * length packed = rw e at hp in
          rw (one, e) (bit_unpack_1bit_avx512_lem packed (suc n) hb (omega arith))
      | inr more ↦ rw more (bit_unpack_scalar_lem packed w (suc n) hb hw hp hl)
    ])
