-- ===== src/Bits/Step.antt =====
-- The lowest digit of `&` and `|`, from the digit recursion that the native operations stand for.
use Prim.Native.Nat.{digits, bitwise, bit_and-bitwise, bit_or-bitwise}
use vec_fetch.Prelude.{
  ℕ, zero, suc, ◌+◌, ◌*◌, ◌/◌, ◌%◌, ◌≤◌, min, max, bit_and, bit_or, ◌≡◌, refl, arith,
}

-- The fuel of `digits` does not count, as soon as it reaches the first number.
module _ (rest : ℕ → ℕ) (op : ℕ → ℕ → ℕ) where
  enough : (a b f g : ℕ) → a ≤ f → a ≤ g → digits rest op f a b ≡ digits rest op g a b
  enough (suc a) b (suc f) (suc g) hf hg =
      let half_f : suc a / 2 ≤ f = omega arith in
      let half_g : suc a / 2 ≤ g = omega arith in rw (enough (suc a / 2) (b / 2) f g half_f half_g)
  enough (suc a) b zero g hf hg = absurd (omega arith)
  enough (suc a) b (suc f) zero hf hg = absurd (omega arith)
  enough zero b zero zero hf hg = refl
  enough zero b zero (suc g) hf hg = refl
  enough zero b (suc f) zero hf hg = refl
  enough zero b (suc f) (suc g) hf hg = refl

  halves :
      (a b : ℕ)
      → let n = suc a in
        bitwise rest op n b ≡ op (n % 2) (b % 2) + 2 * bitwise rest op (n / 2) (b / 2)
  halves a b =
      let half : suc a / 2 ≤ a = omega arith in
      omega (arith, enough (suc a / 2) (b / 2) a (suc a / 2) half (omega arith))

pub bit_and_step : (a b : ℕ) → bit_and a b ≡ bit_and (a / 2) (b / 2) * 2 + min (a % 2) (b % 2)
bit_and_step (suc a) b = simp bit_and-bitwise (omega (arith, halves (λ _. zero) min a b))
bit_and_step zero b = simp bit_and-bitwise (omega arith)

pub bit_or_step : (a b : ℕ) → bit_or a b ≡ bit_or (a / 2) (b / 2) * 2 + max (a % 2) (b % 2)
bit_or_step (suc a) b = simp bit_or-bitwise (omega (arith, halves (λ m. m) max a b))
bit_or_step zero b = simp bit_or-bitwise (omega arith)
