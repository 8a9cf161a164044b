-- ===== src/Storage/PackCodes/Words.antt =====
-- The words that the nibbles are spread to.
use native.Mathlib.Nat.{mod-lt}
use mathlib.Core.Path.{subst}
use vec_fetch.Prelude.{
  u32, ℕ, zero, suc, ◌+◌, ◌-◌, ◌*◌, ◌/◌, ◌%◌, ◌^◌, ◌≤◌, ◌<◌, ◌≡◌, inl, inr, refl, sym, ap, ◌∙◌,
  arith, Bool, Bool-cases, List, some, bit_and, bit_or, min, ltb, lt→ltb, ltb→lt, ◌<<<◌, ◌>>>◌,
  if◌then◌else◌, ◌>>=◌, length, length-set, get_elem?, get_or, get_elem?-eq-get_or, set, u64,
  ℕ_discrete,
}
use vec_fetch.Bits.{bit_and_mask, bit_or_shifted, pow_double, pow_pos, pow-add}
use vec_fetch.Bits.Fields.{mod_mul}
use vec_fetch.Storage.PackCodes.Nibbles.{sign, sign-lt, nibble_of}
use vec_fetch.Storage.PackCodes.Rows.{get_or-set, get_or-set_other}
use vec_fetch.Storage.PackCodes.Unpack.{spread_from, half, unpack_pairs}

-- The words of a code, without the bits from `n` on.
abbrev pub word_below : List ℕ → ℕ → ℕ → ℕ
word_below code n i = get_or code i 0 % 2 ^ min 64 (n - 64 * i)

abbrev pub IsUnpacked : List ℕ → ℕ → List ℕ → Type 0
IsUnpacked code n out = (i : ℕ) → get_or out i 0 ≡ word_below code n i

pow-le : (j k : ℕ) → j ≤ k → 2 ^ j ≤ 2 ^ k
pow-le j k h =
    let e : k ≡ j + (k - j) = omega arith in
    let f : 2 ^ k ≡ 2 ^ j * 2 ^ (k - j) = ap (λ (t : ℕ). 2 ^ t) e ∙ pow-add j (k - j) in
    let q = 2 ^ (k - j) - 1 in
    let g : 2 ^ (k - j) ≡ q + 1 = omega (arith, pow_pos (k - j)) in
    let m : 2 ^ j * 2 ^ (k - j) ≡ 2 ^ j * (q + 1) = ap (λ (t : ℕ). 2 ^ j * t) g in
    omega (arith, f, m)

small_shift : (b k : ℕ) → b < 2 → k < 64 → u64 (b <<< k) ≡ b * 2 ^ k
small_shift zero k h hk = omega arith
small_shift (suc zero) k h hk = omega (arith, pow-le k 63 (omega arith))
small_shift (suc (suc b)) k h hk = absurd (omega arith)

add_bit : (x k : ℕ) → k < 64 → bit_or (x % 2 ^ k) (u64 ((x / 2 ^ k % 2) <<< k)) ≡ x % 2 ^ (k + 1)
add_bit x k h =
    let b = x / 2 ^ k % 2 in
    let small : b < 2 = omega arith in
    let fits : u64 (b <<< k) ≡ b * 2 ^ k = small_shift b k small h in
    let split = mod_mul x (2 ^ k) 2 (pow_pos k) (omega arith) in
    let e : k + 1 ≡ suc k = omega arith in
    let power : 2 ^ (k + 1) ≡ 2 ^ k * 2 = ap (λ (t : ℕ). 2 ^ t) e ∙ pow_double k ∙ omega arith in
    ap (bit_or (x % 2 ^ k)) fits
    ∙ bit_or_shifted k (x % 2 ^ k) b (mod-lt x (pow_pos k))
    ∙ sym split
    ∙ ap (λ (t : ℕ). x % t) (sym power)

-- Setting the bit of dimension `d`.
spread_bit :
    (code out : List ℕ) (d : ℕ)
    → d < 64 * length out
    → IsUnpacked code d out
    → IsUnpacked code
        (d + 1)
        (set out (d / 64) (bit_or (get_or out (d / 64) 0) (u64 (sign code d <<< (d % 64)))))
spread_bit code out d h is i =
    let w = d / 64 in
    let new = bit_or (get_or out w 0) (u64 (sign code d <<< (d % 64))) in
    elim (ℕ_discrete w i) [
      | yes same ↦
          let before : min 64 (d - 64 * w) ≡ d % 64 = omega arith in
          let after : d % 64 + 1 ≡ min 64 (d + 1 - 64 * w) = omega arith in
          let x = get_or code w 0 in
          ap (λ (k : ℕ). get_or (set out w new) k 0) (sym same)
          ∙ get_or-set out w new (omega arith)
          ∙ ap (λ (o : ℕ). bit_or o (u64 (sign code d <<< (d % 64))))
              (is w ∙ ap (λ (k : ℕ). x % 2 ^ k) before)
          ∙ add_bit x (d % 64) (omega arith)
          ∙ ap (λ (k : ℕ). x % 2 ^ k) after
          ∙ ap (word_below code (d + 1)) same
      | no other ↦
          let stays : min 64 (d - 64 * i) ≡ min 64 (d + 1 - 64 * i) = ground arith in
          get_or-set_other out w i new other ∙ is i ∙ ap (λ (k : ℕ). get_or code i 0 % 2 ^ k) stays
    ]

module _ (a b c d : ℕ) (ha : a < 2) (hb : b < 2) (hc : c < 2) (hd : d < 2) where
  bit_of_four :
      (bit_and ((a * 8 + b * 4 + c * 2 + d) >>> 3) 1 ≡ a)
      × (bit_and ((a * 8 + b * 4 + c * 2 + d) >>> 2) 1 ≡ b)
      × (bit_and ((a * 8 + b * 4 + c * 2 + d) >>> 1) 1 ≡ c)
      × (bit_and ((a * 8 + b * 4 + c * 2 + d) >>> 0) 1 ≡ d)
  bit_of_four =
      let n = a * 8 + b * 4 + c * 2 + d in
      (
        omega (arith, bit_and_mask 1 (n >>> 3)),
        omega (arith, bit_and_mask 1 (n >>> 2)),
        omega (arith, bit_and_mask 1 (n >>> 1)),
        omega (arith, bit_and_mask 1 (n >>> 0)),
      )

nibble_bit :
    (code : List ℕ) (m b : ℕ)
    → b < 4
    → bit_and (nibble_of code m >>> (3 - b)) 1 ≡ sign code (m * 4 + b)
nibble_bit code m b h = go b h (
    bit_of_four (sign code (m * 4 + 0)) (sign code (m * 4 + 1)) (sign code (m * 4 + 2))
      (sign code (m * 4 + 3)) (sign-lt code (m * 4 + 0)) (sign-lt code (m * 4 + 1))
      (sign-lt code (m * 4 + 2)) (sign-lt code (m * 4 + 3)))
  where
    go :
        (b : ℕ)
        → b < 4
        → (bit_and (nibble_of code m >>> 3) 1 ≡ sign code (m * 4 + 0))
          × (bit_and (nibble_of code m >>> 2) 1 ≡ sign code (m * 4 + 1))
          × (bit_and (nibble_of code m >>> 1) 1 ≡ sign code (m * 4 + 2))
          × (bit_and (nibble_of code m >>> 0) 1 ≡ sign code (m * 4 + 3))
        → bit_and (nibble_of code m >>> (3 - b)) 1 ≡ sign code (m * 4 + b)
    go zero h four = four.0
    go (suc zero) h four = four.1
    go (suc (suc zero)) h four = four.2
    go (suc (suc (suc zero))) h four = four.3
    go (suc (suc (suc (suc b)))) h four = absurd (omega arith)

spread_from_lem :
    (rounds b m dim : ℕ) (code out : List ℕ)
    → rounds + b ≡ 4
    → m * 4 + 3 < dim
    → dim ≤ 64 * length out
    → IsUnpacked code (m * 4 + b) out
    → (after : List ℕ) × (spread_from rounds dim m b (nibble_of code m) out ≡ some after)
      × (length after ≡ length out)
      × IsUnpacked code (m * 4 + 4) after
unfolding spread_from
spread_from_lem zero b m dim code out last inside room is =
    let e : b ≡ 4 = omega arith in
    (out, refl, refl, subst (λ (k : ℕ). IsUnpacked code (m * 4 + k) out) e is)
spread_from_lem (suc rounds) b m dim code out last inside room is =
    let d = m * 4 + b in
    let w = d / 64 in
    let bit = bit_and (nibble_of code m >>> (3 - b)) 1 in
    let is_bit : bit ≡ sign code d = nibble_bit code m b (omega arith) in
    let word = get_or out w 0 in
    let set_bit = spread_bit code out d (omega arith) is in
    let stored = set out w (bit_or word (u64 (bit <<< (d % 64)))) in
    let e : d + 1 ≡ m * 4 + (b + 1) = omega arith in
    let next : IsUnpacked code (m * 4 + (b + 1)) stored =
      subst (λ (k : ℕ). IsUnpacked code k stored) e
        (subst (λ (s : ℕ). IsUnpacked code (d + 1) (set out w (bit_or word (u64 (s <<< (d % 64))))))
          (sym is_bit) set_bit) in
    let same = length-set out w (bit_or word (u64 (bit <<< (d % 64)))) in
    let (after, run, long, done) =
      spread_from_lem rounds (b + 1) m dim code stored (omega arith) inside (omega arith) next in
    (
      after,
      rw (lt→ltb d dim (omega arith), get_elem?-eq-get_or out w 0 (omega arith), run),
      long ∙ same,
      done,
    )

-- The pairs of the packed bytes hold the nibbles of the code, at the vector's place and half.
abbrev pub HasNibbles : List ℕ → ℕ → Bool → ℕ → List ℕ → Type 0
HasNibbles code nibbles in_high_half perm_pos packed =
    (j : ℕ)
    → (j * 2 < nibbles
        → half in_high_half (get_or packed (j * 32 + perm_pos) 0) ≡ nibble_of code (j * 2))
      × (j * 2 + 1 < nibbles
          → half in_high_half (get_or packed (j * 32 + (perm_pos + 16)) 0)
            ≡ nibble_of code (j * 2 + 1))

-- The second nibble of a pair, if there is one.
second_nibble :
    (j dim perm_pos : ℕ) (in_high_half : Bool) (code packed first : List ℕ)
    → j * 2 < dim / 4
    → perm_pos < 16
    → (dim / 4 + 1) / 2 * 32 ≤ length packed
    → dim ≤ 64 * length first
    → HasNibbles code (dim / 4) in_high_half perm_pos packed
    → IsUnpacked code (j * 2 * 4 + 4) first
    → (after : List ℕ) × ((if ltb (j * 2 + 1) (dim / 4)
          then (get_elem? packed (j * 32 + (perm_pos + 16)) >>= λ byte₁.
              spread_from 4 dim (j * 2 + 1) 0 (half in_high_half byte₁) first)
          else some first)
        ≡ some after)
      × (length after ≡ length first)
      × IsUnpacked code (min (suc j * 2) (dim / 4) * 4) after
second_nibble j dim pos high code packed first inside hp room words has is =
    elim (Bool-cases (ltb (j * 2 + 1) (dim / 4))) [
      | inl more ↦
          let there : j * 2 + 1 < dim / 4 = ltb→lt (j * 2 + 1) (dim / 4) more in
          let start : j * 2 * 4 + 4 ≡ (j * 2 + 1) * 4 + 0 = omega arith in
          let end : (j * 2 + 1) * 4 + 4 ≡ min (suc j * 2) (dim / 4) * 4 = omega arith in
          let (after, run, long, done) =
            spread_from_lem 4 0 (j * 2 + 1) dim code first refl (omega arith) words
              (subst (λ (k : ℕ). IsUnpacked code k first) start is) in
          (
            after,
            rw (
              more,
              get_elem?-eq-get_or packed (j * 32 + (pos + 16)) 0 (omega arith),
              (has j).1 there,
              run,
            ),
            long,
            subst (λ (k : ℕ). IsUnpacked code k after) end done,
          )
      | inr last ↦
          let end : j * 2 * 4 + 4 ≡ min (suc j * 2) (dim / 4) * 4 = ground arith in
          (first, rw last, refl, subst (λ (k : ℕ). IsUnpacked code k first) end is)
    ]

pair_offset : (j dim : ℕ) → j < (dim / 4 + 1) / 2 → dim + 8 ≤ 2 ^ 30 → u32 (j * 2 / 2 * 32) ≡ j * 32
pair_offset j dim h small = omega arith

pub unpack_pairs_lem :
    (rounds j dim perm_pos : ℕ) (in_high_half : Bool) (code packed out : List ℕ)
    → rounds + j ≡ (dim / 4 + 1) / 2
    → perm_pos < 16
    → dim + 8 ≤ 2 ^ 30
    → (dim / 4 + 1) / 2 * 32 ≤ length packed
    → dim ≤ 64 * length out
    → HasNibbles code (dim / 4) in_high_half perm_pos packed
    → IsUnpacked code (min (j * 2) (dim / 4) * 4) out
    → (after : List ℕ) × (unpack_pairs rounds packed in_high_half perm_pos dim (j * 2) out
        ≡ some after)
      × (length after ≡ length out)
      × IsUnpacked code (dim / 4 * 4) after
unfolding unpack_pairs
unpack_pairs_lem zero j dim pos high code packed out last hp small room words has is =
    let e : min (j * 2) (dim / 4) ≡ dim / 4 = omega arith in
    (out, refl, refl, subst (λ (k : ℕ). IsUnpacked code (k * 4) out) e is)
unpack_pairs_lem (suc rounds) j dim pos high code packed out last hp small room words has is =
    let m = j * 2 in
    let start : min m (dim / 4) * 4 ≡ m * 4 + 0 = omega arith in
    let (first, run, long, done) =
      spread_from_lem 4 0 m dim code out refl (omega arith) words
        (subst (λ (k : ℕ). IsUnpacked code k out) start is) in
    let byte₀ = get_elem?-eq-get_or packed (j * 32 + pos) 0 (omega arith) in
    let nibble₀ = (has j).0 (omega arith) in
    let next_m : m + 2 ≡ suc j * 2 = omega arith in
    let (second, run₂, long₂, done₂) =
      second_nibble j dim pos high code packed first (omega arith) hp room (omega arith) has done in
    let (after, runs, longs, all) =
      unpack_pairs_lem rounds (suc j) dim pos high code packed second (omega arith) hp small room
        (omega arith) has done₂ in
    (
      after,
      rw (pair_offset j dim (omega arith) small, byte₀, nibble₀, run, run₂, next_m, runs),
      longs ∙ long₂ ∙ long,
      all,
    )
