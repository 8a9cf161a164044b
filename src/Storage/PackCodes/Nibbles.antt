-- ===== src/Storage/PackCodes/Nibbles.antt =====
-- Nibbles of sign bits.
use vec_fetch.Prelude.{
  ℕ, zero, suc, ◌+◌, ◌*◌, ◌/◌, ◌%◌, ◌^◌, ◌≤◌, ◌<◌, ◌≡◌, ◌⊎◌, inl, inr, refl, ap, arith, List, some,
  bit_or, lt→leb, ◌<<<◌, length, get_or, get_elem?-eq-get_or, u8,
}
use vec_fetch.Bits.{bit_and_mask}
use vec_fetch.Storage.PackCodes.{sign_bit, nibble_from}

-- Bit `d` of a code.
abbrev pub sign : List ℕ → ℕ → ℕ
sign code d = get_or code (d / 64) 0 / 2 ^ (d % 64) % 2

-- The bits of four dimensions, the first one highest.
abbrev pub nibble_of : List ℕ → ℕ → ℕ
nibble_of code m =
    sign code (m * 4 + 0) * 8
    + sign code (m * 4 + 1) * 4
    + sign code (m * 4 + 2) * 2
    + sign code (m * 4 + 3)

sign_bit_lem : (code : List ℕ) (d : ℕ) → d < 64 * length code → sign_bit code d ≡ some (sign code d)
unfolding sign_bit
sign_bit_lem code d h = rw (
  get_elem?-eq-get_or code (d / 64) 0 (omega arith),
  bit_and_mask 1 (get_or code (d / 64) 0 / 2 ^ (d % 64)),
)

bit-cases : (x : ℕ) → x < 2 → (x ≡ 0) ⊎ (x ≡ 1)
bit-cases zero h = inl refl
bit-cases (suc zero) h = inr refl
bit-cases (suc (suc x)) h = absurd (omega arith)

assembled :
    (a b c d : ℕ)
    → a < 2
    → b < 2
    → c < 2
    → d < 2
    → bit_or
        (bit_or (bit_or (bit_or 0 (u8 (a <<< 3))) (u8 (b <<< 2))) (u8 (c <<< 1)))
        (u8 (d <<< 0))
      ≡ a * 8 + b * 4 + c * 2 + d
assembled a b c d ha hb hc hd = elim (bit-cases a ha) [
  | inl a₀ ↦ elim (bit-cases b hb) [
    | inl b₀ ↦ elim (bit-cases c hc) [
      | inl c₀ ↦ elim (bit-cases d hd) [
        | inl d₀ ↦ rw (a₀, b₀, c₀, d₀)
        | inr d₁ ↦ rw (a₀, b₀, c₀, d₁)
      ]
      | inr c₁ ↦ elim (bit-cases d hd) [
        | inl d₀ ↦ rw (a₀, b₀, c₁, d₀)
        | inr d₁ ↦ rw (a₀, b₀, c₁, d₁)
      ]
    ]
    | inr b₁ ↦ elim (bit-cases c hc) [
      | inl c₀ ↦ elim (bit-cases d hd) [
        | inl d₀ ↦ rw (a₀, b₁, c₀, d₀)
        | inr d₁ ↦ rw (a₀, b₁, c₀, d₁)
      ]
      | inr c₁ ↦ elim (bit-cases d hd) [
        | inl d₀ ↦ rw (a₀, b₁, c₁, d₀)
        | inr d₁ ↦ rw (a₀, b₁, c₁, d₁)
      ]
    ]
  ]
  | inr a₁ ↦ elim (bit-cases b hb) [
    | inl b₀ ↦ elim (bit-cases c hc) [
      | inl c₀ ↦ elim (bit-cases d hd) [
        | inl d₀ ↦ rw (a₁, b₀, c₀, d₀)
        | inr d₁ ↦ rw (a₁, b₀, c₀, d₁)
      ]
      | inr c₁ ↦ elim (bit-cases d hd) [
        | inl d₀ ↦ rw (a₁, b₀, c₁, d₀)
        | inr d₁ ↦ rw (a₁, b₀, c₁, d₁)
      ]
    ]
    | inr b₁ ↦ elim (bit-cases c hc) [
      | inl c₀ ↦ elim (bit-cases d hd) [
        | inl d₀ ↦ rw (a₁, b₁, c₀, d₀)
        | inr d₁ ↦ rw (a₁, b₁, c₀, d₁)
      ]
      | inr c₁ ↦ elim (bit-cases d hd) [
        | inl d₀ ↦ rw (a₁, b₁, c₁, d₀)
        | inr d₁ ↦ rw (a₁, b₁, c₁, d₁)
      ]
    ]
  ]
]

pub sign-lt : (code : List ℕ) (d : ℕ) → sign code d < 2
sign-lt code d = omega arith

pub nibble_of-lt : (code : List ℕ) (m : ℕ) → nibble_of code m < 16
nibble_of-lt code m = omega (
  arith,
  sign-lt code (m * 4 + 0),
  sign-lt code (m * 4 + 1),
  sign-lt code (m * 4 + 2),
  sign-lt code (m * 4 + 3),
)

pub nibble_from_lem :
    (code : List ℕ) (dim m : ℕ)
    → m < dim / 4
    → dim ≤ 64 * length code
    → nibble_from 4 code dim m 0 0 ≡ some (nibble_of code m)
unfolding nibble_from
nibble_from_lem code dim m h words =
    let bit = λ (b : ℕ) (hb : b < 4). sign_bit_lem code (m * 4 + b) (omega arith) in
    rw
      (
        lt→leb dim (m * 4 + 0) (omega arith),
        bit 0 (omega arith),
        lt→leb dim (m * 4 + 1) (omega arith),
        bit 1 (omega arith),
        lt→leb dim (m * 4 + 2) (omega arith),
        bit 2 (omega arith),
        lt→leb dim (m * 4 + 3) (omega arith),
        bit 3 (omega arith),
      )
      (ap (λ (n : ℕ). some n)
        (assembled (sign code (m * 4 + 0)) (sign code (m * 4 + 1)) (sign code (m * 4 + 2))
          (sign code (m * 4 + 3)) (sign-lt code (m * 4 + 0)) (sign-lt code (m * 4 + 1))
          (sign-lt code (m * 4 + 2)) (sign-lt code (m * 4 + 3))))
