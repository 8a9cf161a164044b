-- ===== src/Query/BufferPool/Align.antt =====
-- The rounding of a size to pages.
use vec_fetch.Prelude.{
  ℕ, zero, suc, ◌+◌, ◌-◌, ◌*◌, ◌/◌, ◌%◌, ◌^◌, ◌<◌, ◌≡◌, sym, ap, ◌∙◌, arith, bit_and, u32, leb,
  if◌then◌else◌,
}
use vec_fetch.Bits.{bit_and_mask, bit_and_step, pow_double}
use native.Mathlib.Nat.{div-div-eq-div-mul}
use vec_fetch.Query.BufferPool.{aligned_size}

-- A mask of `w` bits above `k` zeros.
bit_and_high : (k w a : ℕ) → bit_and a ((2 ^ w - 1) * 2 ^ k) ≡ a / 2 ^ k % 2 ^ w * 2 ^ k
bit_and_high zero w a =
    let e : (2 ^ w - 1) * 1 ≡ 2 ^ w - 1 = omega arith in
    let one : a / 1 ≡ a = omega arith in
    let whole : a % 2 ^ w ≡ a / 1 % 2 ^ w * 1 = rw one (omega arith) in
    ap (bit_and a) e ∙ bit_and_mask w a ∙ whole
bit_and_high (suc k) w a =
    let e : (2 ^ w - 1) * 2 ^ suc k ≡ 2 * ((2 ^ w - 1) * 2 ^ k) =
      omega (arith, ap (λ (t : ℕ). (2 ^ w - 1) * t) (pow_double k)) in
    let half : 2 * ((2 ^ w - 1) * 2 ^ k) / 2 ≡ (2 ^ w - 1) * 2 ^ k = omega arith in
    let quotient : a / 2 ^ suc k ≡ a / 2 / 2 ^ k =
      ap (λ (t : ℕ). a / t) (pow_double k) ∙ sym (div-div-eq-div-mul a 2 (2 ^ k)) in
    rw (e, bit_and_step, half, bit_and_high k w (a / 2), quotient, pow_double k) (omega arith)

-- The size is rounded up to whole pages, and is 0 for the sizes within a page of 2^32.
pub aligned_size_lem :
    (size : ℕ)
    → size < 2 ^ 32
    → aligned_size size ≡ (if leb size (2 ^ 32 - 4096) then (size + 4095) / 4096 * 4096 else 0)
unfolding aligned_size
aligned_size_lem size h = grind (arith, bit_and_high 12 20 (u32 (size + 4095)))
