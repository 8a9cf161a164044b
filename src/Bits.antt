-- ===== src/Bits.antt =====
-- The bit operations of the C++ code as arithmetic, at every width: `&` with a mask of low bits
-- is a remainder, and `|` of two values with no bit in common is a sum.
mod Step
pub mod Fields
use Prim.Native.Nat.{bit_or-bitwise}
pub use Step.{bit_and_step, bit_or_step}
use native.Mathlib.Nat.{
  pow-suc, one-le-pow, mod-lt, mod-eq_of_lt, div-add-mod', mul-add-mod_self_right, div-eq_of_lt-le,
}
use vec_fetch.Prelude.{
  ℕ, zero, suc, ◌+◌, ◌-◌, ◌*◌, ◌/◌, ◌%◌, ◌^◌, ◌≤◌, ◌<◌, bit_and, bit_or, ◌≡◌, refl, ap, arith,
}

-- `a & 0`: one digit at a time.
and_zero_below : (n a : ℕ) → a ≤ n → bit_and a 0 ≡ 0
and_zero_below n zero h = refl
and_zero_below zero (suc a) h = absurd (omega arith)
and_zero_below (suc n) (suc a) h =
    omega (arith, bit_and_step (suc a) 0, and_zero_below n (suc a / 2) (omega arith))

pub pow_pos : (k : ℕ) → 0 < 2 ^ k
pow_pos k = ground (arith, one-le-pow k 2)

pub pow_double : (k : ℕ) → 2 ^ suc k ≡ 2 * 2 ^ k
pow_double k = ground (arith, pow-suc 2 k)

pub pow-add : (j k : ℕ) → 2 ^ (j + k) ≡ 2 ^ j * 2 ^ k
pow-add zero k = ground arith
pow-add (suc j) k =
    let e : suc j + k ≡ suc (j + k) = omega arith in
    rw (e, pow_double (j + k), pow_double j) (omega (arith, ap (λ (t : ℕ). 2 * t) (pow-add j k)))

-- A remainder and a quotient, from the equation that determines them.
module _ (x m q r : ℕ) (e : x ≡ q * m + r) (h : r < m) where
  pub mod_unique : x % m ≡ r
  mod_unique = rw (e, mul-add-mod_self_right q m r) (mod-eq_of_lt h)

  pub div_unique : x / m ≡ q
  div_unique = div-eq_of_lt-le m (omega arith) (omega arith)

-- The remainder by twice a number, one digit first.
mod_double : (a p : ℕ) → 0 < p → a % (2 * p) ≡ a / 2 % p * 2 + a % 2
mod_double a p h =
    mod_unique a (2 * p) (a / 2 / p) (a / 2 % p * 2 + a % 2)
      (omega (arith, ap (λ (t : ℕ). 2 * t) (div-add-mod' (a / 2) p)))
      (omega (arith, mod-lt (a / 2) h))

-- A mask of `k` low bits is the remainder by `2 ^ k`.
pub bit_and_mask : (k a : ℕ) → bit_and a (2 ^ k - 1) ≡ a % 2 ^ k
bit_and_mask zero a = omega (arith, and_zero_below a a (omega arith))
bit_and_mask (suc k) a =
    let halved : (2 ^ suc k - 1) / 2 ≡ 2 ^ k - 1 = omega (arith, pow_double k, pow_pos k) in
    let odd : (2 ^ suc k - 1) % 2 ≡ 1 = omega (arith, pow_double k, pow_pos k) in
    rw
      (
        bit_and_step,
        halved,
        odd,
        bit_and_mask k (a / 2),
        pow_double k,
        mod_double a (2 ^ k) (pow_pos k),
      )
      (omega arith)

-- `r | (q << k)` is a sum when `r` fits `k` bits.
zero-bit_or : (b : ℕ) → bit_or 0 b ≡ b
zero-bit_or b = simp bit_or-bitwise (omega arith)

pub bit_or_shifted : (k r q : ℕ) → r < 2 ^ k → bit_or r (q * 2 ^ k) ≡ r + q * 2 ^ k
bit_or_shifted zero r q h = let e : r ≡ 0 = omega arith in rw (e, zero-bit_or) (omega arith)
bit_or_shifted (suc k) r q h =
    let e : q * 2 ^ suc k ≡ 2 * (q * 2 ^ k) = omega (arith, ap (λ (t : ℕ). q * t) (pow_double k)) in
    let half : 2 * (q * 2 ^ k) / 2 ≡ q * 2 ^ k = omega arith in
    rw (e, bit_or_step, half)
      (omega (arith, bit_or_shifted k (r / 2) q (omega (arith, pow_double k))))
