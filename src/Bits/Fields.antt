-- ===== src/Bits/Fields.antt =====
-- Bit fields of a number: bits `pos` to `pos + w` are `x / 2 ^ pos % 2 ^ w`.
use native.Mathlib.Nat.{mod-lt, div-add-mod', div-div-eq-div-mul, mul-add-mod_self_right}
use vec_fetch.Prelude.{ℕ, ◌+◌, ◌-◌, ◌*◌, ◌/◌, ◌%◌, ◌^◌, ◌≤◌, ◌<◌, ◌≡◌, sym, ap, ◌∙◌, arith}
use vec_fetch.Bits.{pow_pos, pow-add, mod_unique, div_unique}

abbrev pub field : ℕ → ℕ → ℕ → ℕ
field x pos w = x / 2 ^ pos % 2 ^ w

-- The remainder by a product: the low digit, and the next one.
pub mod_mul : (x m n : ℕ) → 0 < m → 0 < n → x % (m * n) ≡ x % m + x / m % n * m
mod_mul x m n hm hn =
    mod_unique x (m * n) (x / m / n) (x % m + x / m % n * m)
      (omega (arith, div-add-mod' x m, ap (λ (t : ℕ). t * m) (div-add-mod' (x / m) n)))
      (grind (arith, mod-lt x hm, mod-lt (x / m) hn))

-- A digit of the remainder is a digit of the number.
mod-div-mod : (x m n k : ℕ) → 0 < m → 0 < n → x % (m * n * k) / m % n ≡ x / m % n
mod-div-mod x m n k hm hn =
    let q = x / (m * n * k) in
    let r = x % (m * n * k) in
    let split : x ≡ (q * n * k + r / m) * m + r % m =
      omega (arith, div-add-mod' x (m * n * k), div-add-mod' r m) in
    let quotient : x / m ≡ q * k * n + r / m =
      div_unique x m (q * n * k + r / m) (r % m) split (mod-lt r hm) ∙ omega arith in
    rw (quotient, mul-add-mod_self_right (q * k) n (r / m))

pub field-lt : (x pos w : ℕ) → field x pos w < 2 ^ w
field-lt x pos w = mod-lt (x / 2 ^ pos) (pow_pos w)

-- Two adjacent fields join to one.
pub field_join : (x pos a b : ℕ) → field x pos a + field x (pos + a) b * 2 ^ a ≡ field x pos (a + b)
field_join x pos a b =
    rw (pow-add pos a, pow-add a b, mod_mul (x / 2 ^ pos) (2 ^ a) (2 ^ b) (pow_pos a) (pow_pos b))
      (ap (λ (t : ℕ). x / 2 ^ pos % 2 ^ a + t % 2 ^ b * 2 ^ a)
        (sym (div-div-eq-div-mul x (2 ^ pos) (2 ^ a))))

-- A field inside the low `a` bits.
pub field_mod : (x a pos w : ℕ) → pos + w ≤ a → x % 2 ^ a / 2 ^ pos % 2 ^ w ≡ field x pos w
field_mod x a pos w h =
    let e : a ≡ pos + w + (a - (pos + w)) = omega arith in
    let p : 2 ^ a ≡ 2 ^ pos * 2 ^ w * 2 ^ (a - (pos + w)) =
      ap (λ (t : ℕ). 2 ^ t) e
      ∙ pow-add (pos + w) (a - (pos + w))
      ∙ ap (λ (t : ℕ). t * 2 ^ (a - (pos + w))) (pow-add pos w) in
    rw p (mod-div-mod x (2 ^ pos) (2 ^ w) (2 ^ (a - (pos + w))) (pow_pos pos) (pow_pos w))
