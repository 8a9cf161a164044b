-- ===== src/Codec/Bitpack/Width.antt =====
-- The width that is chosen is the least that holds every value.
use mathlib.Core.Logic.{dif_pos, dif_neg}
use mathlib.Core.WellFounded.{Acc}
use vec_fetch.Prelude.{
  ℕ, zero, suc, ◌+◌, ◌-◌, ◌/◌, ◌^◌, ◌≤◌, ◌<◌, ◌≡◌, arith, List, [], ◌∷◌, length, All, IsU32, ltb,
  ◌==◌, if◌then◌else◌, u8, inl, inr, dec_lt, ◌↔◌, suc-ne-zero, le→ltb, lt→ltb, Bool-cases,
}
use native.Mathlib.Bridge.{le_prop}
use vec_fetch.Prelude.Loops.{lt_wf}
use vec_fetch.Bits.{pow_pos, pow_double}
use vec_fetch.Codec.Bitpack.{
  max_value, halving_shrinks, count_bits, bits_needed, compute_min_bit_width,
}

max_value-le : (m : ℕ) (vs : List ℕ) → m ≤ max_value m vs
unfolding max_value
max_value-le m [] = omega arith
max_value-le m (v ∷ vs) = ground (arith, max_value-le (if ltb m v then v else m) vs)

max_value-lt : (b m : ℕ) (vs : List ℕ) → m < b → All (λ v. v < b) vs → max_value m vs < b
unfolding max_value
max_value-lt b m [] h hs = h
max_value-lt b m (v ∷ vs) h (hv, hs) =
    max_value-lt b (if ltb m v then v else m) vs (ground arith) hs

All-lt_max : (b m : ℕ) (vs : List ℕ) → max_value m vs < b → All (λ v. v < b) vs
unfolding max_value
All-lt_max b m [] h = tt
All-lt_max b m (v ∷ vs) h = (
  ground (arith, max_value-le (if ltb m v then v else m) vs),
  All-lt_max b (if ltb m v then v else m) vs h,
)

-- `r` is the number of bits of `s`, on top of `bits`.
record IsBitCount (bits s r : ℕ) : Type 0 where
  above : bits ≤ r
  fits : s < 2 ^ (r - bits)
  least : (j : ℕ) → s < 2 ^ j → r ≤ bits + j

no_bits : (bits s : ℕ) → s ≡ 0 → IsBitCount bits s bits
no_bits bits s h = record {
  above = omega arith;
  fits = let e : bits - bits ≡ 0 = omega arith in rw e (omega arith);
  least = λ j p. omega arith;
}

one_more_bit : (bits s r : ℕ) → 0 < s → IsBitCount (bits + 1) (s / 2) r → IsBitCount bits s r
one_more_bit bits s r pos c = record {
  above = omega arith;
  fits =
      let e : r - bits ≡ suc (r - (bits + 1)) = omega arith in
      rw (e, pow_double (r - (bits + 1))) (omega arith);
  least = λ j p. elim (dec_lt 0 j) [
    | no e ↦ let z : j ≡ 0 = omega arith in absurd (let q : s < 2 ^ 0 = rw z at p in omega arith)
    | yes q ↦
        let z : j ≡ suc (j - 1) = omega arith in
        let p' : s < 2 ^ suc (j - 1) = rw z at p in
        omega (arith, c.least (j - 1) (omega (arith, pow_double (j - 1))))
  ];
}

count_bits-IsBitCount :
    (k bits s : ℕ) (w : Acc ◌<◌ s)
    → s < 2 ^ k
    → bits + k ≤ 32
    → IsBitCount bits s (count_bits bits s w)
unfolding count_bits
count_bits-IsBitCount zero bits s (Acc.intro _ smaller) h hk =
    let e : ¬ (0 < s) = omega arith in rw (dif_neg _ e) (no_bits bits s (omega arith))
count_bits-IsBitCount (suc k) bits s (Acc.intro _ smaller) h hk = elim (dec_lt 0 s) [
  | no zero_left ↦ rw (dif_neg _ zero_left) (no_bits bits s (omega arith))
  | yes more ↦
      let e : u8 (bits + 1) ≡ bits + 1 = omega arith in
      rw (dif_pos _ le_prop more, e)
        (one_more_bit bits s _ more (
          count_bits-IsBitCount k (bits + 1) (s / 2) (smaller (s / 2) (halving_shrinks s more))
            (omega (arith, pow_double k)) (omega arith)))
]

bits_needed-IsBitCount : (m : ℕ) → IsU32 m → IsBitCount 0 m (bits_needed m)
unfolding bits_needed
bits_needed-IsBitCount m h = count_bits-IsBitCount 32 0 m (lt_wf.apply m) h (omega arith)

bits_needed_bounds :
    (m : ℕ)
    → IsU32 m
    → 0 < m
    → (0 < bits_needed m) × (m < 2 ^ bits_needed m) × ((j : ℕ) → m < 2 ^ j → bits_needed m ≤ j)
bits_needed_bounds m h pos =
    let c = bits_needed-IsBitCount m h in
    let e : bits_needed m - 0 ≡ bits_needed m = omega arith in
    let fits : m < 2 ^ bits_needed m = rw e at c.fits in
    let some_bit : 0 < bits_needed m = elim (dec_lt 0 (bits_needed m)) [
      | yes p ↦ p
      | no p ↦
          let z : bits_needed m ≡ 0 = omega arith in
          let small : m < 2 ^ 0 = rw z at fits in absurd (omega arith)
    ] in
    (some_bit, fits, λ j p. omega (arith, c.least j p))

abbrev pub Fits : ℕ → List ℕ → Type 0
Fits w vs = All (λ v. v < 2 ^ w) vs

-- `w` is the least width of at least one bit that holds every value.
pub record IsLeastWidth (vs : List ℕ) (w : ℕ) : Type 0 where
  pub positive : 1 ≤ w
  pub within : w ≤ 32
  pub fits : Fits w vs
  pub least : (k : ℕ) → 1 ≤ k → Fits k vs → w ≤ k

All-le_lt : (b : ℕ) (vs : List ℕ) → All (λ v. v ≤ b) vs → All (λ v. v < suc b) vs
All-le_lt b [] h = tt
All-le_lt b (v ∷ vs) (hv, h) = (omega arith, All-le_lt b vs h)

All-lt_le : (b : ℕ) (vs : List ℕ) → All (λ v. v < suc b) vs → All (λ v. v ≤ b) vs
All-lt_le b [] h = tt
All-lt_le b (v ∷ vs) (hv, h) = (omega arith, All-lt_le b vs h)

-- The width chosen for values of 32 bits, none of them over the threshold, is the least width of
-- at least one bit that holds them all.
pub min_bit_width-IsLeastWidth :
    (vs : List ℕ) (limit : ℕ)
    → All IsU32 vs
    → All (λ v. v ≤ limit) vs
    → IsLeastWidth vs (compute_min_bit_width vs limit)
unfolding compute_min_bit_width
min_bit_width-IsLeastWidth [] limit h hl = record {
  positive = omega arith;
  within = omega arith;
  fits = tt;
  least = λ k p q. p;
}
min_bit_width-IsLeastWidth (v ∷ vs) limit h hl =
    let m = max_value 0 (v ∷ vs) in
    let under = max_value-lt (suc limit) 0 (v ∷ vs) (omega arith) (All-le_lt limit (v ∷ vs) hl) in
    let word = max_value-lt (2 ^ 32) 0 (v ∷ vs) (omega arith) h in
    rw (suc-ne-zero (length vs), le→ltb limit m (omega arith))
      (elim (Bool-cases (m == 0)) [
        | inl e ↦ rw e (record {
          positive = omega arith;
          within = omega arith;
          fits = All-lt_max 2 0 (v ∷ vs) (ground arith);
          least = λ k p q. p;
        })
        | inr e ↦
            let (some_bit, fits, least) = bits_needed_bounds m word (ground arith) in
            rw e (record {
              positive = some_bit;
              within = least 32 word;
              fits = All-lt_max (2 ^ bits_needed m) 0 (v ∷ vs) fits;
              least = λ k p q. least k (max_value-lt (2 ^ k) 0 (v ∷ vs) (pow_pos k) q);
            })
      ])

over : (vs : List ℕ) (limit : ℕ) → (¬ All (λ v. v ≤ limit) vs) → compute_min_bit_width vs limit ≡ 0
unfolding compute_min_bit_width
over [] limit n = absurd (n tt)
over (v ∷ vs) limit n = elim (dec_lt limit (max_value 0 (v ∷ vs))) [
  | yes p ↦ rw (suc-ne-zero (length vs), lt→ltb limit (max_value 0 (v ∷ vs)) p)
  | no p ↦ absurd (n (All-lt_le limit (v ∷ vs) (All-lt_max (suc limit) 0 (v ∷ vs) (omega arith))))
]

-- The width 0 is returned exactly when some value is over the threshold.
pub min_bit_width_zero :
    (vs : List ℕ) (limit : ℕ)
    → All IsU32 vs
    → (compute_min_bit_width vs limit ≡ 0) ↔ (¬ All (λ v. v ≤ limit) vs)
min_bit_width_zero vs limit h = (refused, none_fits)
  where
    refused : compute_min_bit_width vs limit ≡ 0 → ¬ All (λ v. v ≤ limit) vs
    refused e hl = omega (arith, (min_bit_width-IsLeastWidth vs limit h hl).positive)

    none_fits : (¬ All (λ v. v ≤ limit) vs) → compute_min_bit_width vs limit ≡ 0
    none_fits n = over vs limit n
