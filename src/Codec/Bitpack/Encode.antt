-- ===== src/Codec/Bitpack/Encode.antt =====
-- The encoder writes each value's low bits behind those of the values before it.
use mathlib.Core.Path.{subst}
use native.Mathlib.Nat.{mod-eq_of_lt, mod-lt, mod-le, pow-le-pow_right, div-lt_iff_lt-mul}
use vec_fetch.Prelude.{
  ℕ, zero, suc, ◌+◌, ◌-◌, ◌*◌, ◌/◌, ◌%◌, ◌^◌, ◌≤◌, ◌<◌, ◌≡◌, refl, sym, ap, ◌∙◌, arith, List, some,
  length, All, IsByte, u8, u32, bit_and, bit_or, min, get_elem?, get_or, set, length-set,
  get_elem?-eq-get_or, ◌<<<◌, ◌>>>◌, dec_lt, lt→ltb, le→ltb,
}
use vec_fetch.Bits.{pow_pos, pow-add, bit_and_mask, bit_or_shifted}
use vec_fetch.Bits.Fields.{mod_mul}
use vec_fetch.Bytes.{value, byte_field, value-set, All-IsByte-set}
use vec_fetch.Codec.Bitpack.{write_value}

pow_le : (a b : ℕ) → a ≤ b → 2 ^ a ≤ 2 ^ b
pow_le a b h = pow-le-pow_right (omega arith) h

-- The number of bits that a round writes.
abbrev round_width : ℕ → ℕ → ℕ
round_width cur rem = min (8 - bit_and cur 7) rem

-- The byte that a round stores.
abbrev round_byte : ℕ → ℕ → ℕ → ℕ → ℕ
round_byte old val cur t =
    u8 (bit_or old (u8 (bit_and val (u8 (u32 (1 <<< t) - 1)) <<< bit_and cur 7)))

write_round :
    (f : ℕ) (packed : List ℕ) (val cur rem old : ℕ)
    → 0 < rem
    → get_elem? packed (cur / 8) ≡ some old
    → write_value (suc f) packed val cur rem
      ≡ write_value f
          (set packed (cur / 8) (round_byte old val cur (round_width cur rem)))
          (val >>> round_width cur rem)
          (u32 (cur + round_width cur rem))
          (rem - round_width cur rem)
unfolding write_value
write_round f packed val cur rem old h e = rw (lt→ltb 0 rem h, e)

-- No bit is set from `cur` on: the byte at `cur` holds less than `2 ^ (cur % 8)`.
free_byte :
    (packed : List ℕ) (cur : ℕ)
    → All IsByte packed
    → cur / 8 < length packed
    → value packed < 2 ^ cur
    → get_or packed (cur / 8) 0 < 2 ^ (cur % 8)
free_byte packed cur hb h hv =
    let place : cur ≡ cur % 8 + 8 * (cur / 8) = omega arith in
    let split : 2 ^ cur ≡ 2 ^ (cur % 8) * 2 ^ (8 * (cur / 8)) =
      ap (λ (p : ℕ). 2 ^ p) place ∙ pow-add (cur % 8) (8 * (cur / 8)) in
    let quotient : value packed / 2 ^ (8 * (cur / 8)) < 2 ^ (cur % 8) =
      (div-lt_iff_lt-mul (pow_pos (8 * (cur / 8)))).1 (omega (arith, split)) in
    omega
      (arith, byte_field packed (cur / 8) hb h, mod-le (value packed / 2 ^ (8 * (cur / 8))) (2 ^ 8))

round_byte_lem :
    (old val cur t : ℕ)
    → old < 2 ^ (cur % 8)
    → cur % 8 + t ≤ 8
    → (round_byte old val cur t ≡ old + val % 2 ^ t * 2 ^ (cur % 8))
      × (old + val % 2 ^ t * 2 ^ (cur % 8) < 256)
round_byte_lem old val cur t ho ht =
    let total = pow-add t (cur % 8) in
    let whole = pow_le (t + cur % 8) 8 (omega arith) in
    let mask_fits = pow_le t 8 (omega arith) in
    let digit = mod-lt val (pow_pos t) in
    let sum : old + val % 2 ^ t * 2 ^ (cur % 8) < 256 = grind arith in
    let one : u32 (1 <<< t) ≡ 2 ^ t = mod-eq_of_lt {n = 1 * 2 ^ t} (omega arith) ∙ omega arith in
    let mask : u8 (2 ^ t - 1) ≡ 2 ^ t - 1 =
      mod-eq_of_lt {n = 2 ^ t - 1} (omega (arith, pow_pos t)) in
    let low : u8 (val % 2 ^ t * 2 ^ (cur % 8)) ≡ val % 2 ^ t * 2 ^ (cur % 8) =
      mod-eq_of_lt {n = val % 2 ^ t * 2 ^ (cur % 8)} (omega arith) in
    (
      rw
          (
            bit_and_mask 3 cur,
            one,
            mask,
            bit_and_mask t val,
            low,
            bit_or_shifted (cur % 8) old (val % 2 ^ t) ho,
          )
          (mod-eq_of_lt sum),
      sum,
    )

-- The buffer after `n` bits of `val` are written from bit `cur` on.
pub record IsWritten (packed : List ℕ) (val cur n : ℕ) (packed' : List ℕ) : Type 0 where
  pub bytes : All IsByte packed'
  pub same_length : length packed' ≡ length packed
  pub bits : value packed' ≡ value packed + val % 2 ^ n * 2 ^ cur
  pub free : value packed' < 2 ^ (cur + n)

-- What lies below bit `cur`, and `n` bits above it.
bits-lt : (v m cur n : ℕ) → v < 2 ^ cur → m < 2 ^ n → v + m * 2 ^ cur < 2 ^ (cur + n)
bits-lt v m cur n hv hm = rw (pow-add cur n) (grind arith)

round-IsWritten :
    (packed : List ℕ) (val cur t : ℕ)
    → All IsByte packed
    → value packed < 2 ^ cur
    → cur / 8 < length packed
    → cur % 8 + t ≤ 8
    → IsWritten packed val cur t
        (set packed (cur / 8) (round_byte (get_or packed (cur / 8) 0) val cur t))
round-IsWritten packed val cur t hb hv inside fits =
    let old = get_or packed (cur / 8) 0 in
    let m = val % 2 ^ t in
    let (stored, small) = round_byte_lem old val cur t (free_byte packed cur hb inside hv) fits in
    let place : cur % 8 + 8 * (cur / 8) ≡ cur = omega arith in
    let split : 2 ^ (cur % 8) * 2 ^ (8 * (cur / 8)) ≡ 2 ^ cur =
      sym (pow-add (cur % 8) (8 * (cur / 8))) ∙ ap (λ (p : ℕ). 2 ^ p) place in
    let written : value (set packed (cur / 8) (old + m * 2 ^ (cur % 8)))
        ≡ value packed + m * 2 ^ cur =
      value-set packed (cur / 8) (m * 2 ^ (cur % 8)) inside
      ∙ omega (arith, ap (λ (p : ℕ). m * p) split) in
    rw stored (record {
      bytes = All-IsByte-set packed (cur / 8) _ hb small;
      same_length = length-set packed (cur / 8) _;
      bits = written;
      free = rw written (bits-lt (value packed) m cur t hv (mod-lt val (pow_pos t)));
    })

-- Two runs of bits that follow one another are one run.
IsWritten-join :
    (packed : List ℕ) (val cur t rest : ℕ) (packed₁ packed₂ : List ℕ)
    → IsWritten packed val cur t packed₁
    → IsWritten packed₁ (val / 2 ^ t) (cur + t) rest packed₂
    → IsWritten packed val cur (t + rest) packed₂
IsWritten-join packed val cur t rest packed₁ packed₂ first second =
    let digits : val % 2 ^ (t + rest) ≡ val % 2 ^ t + val / 2 ^ t % 2 ^ rest * 2 ^ t =
      ap (λ (p : ℕ). val % p) (pow-add t rest)
      ∙ mod_mul val (2 ^ t) (2 ^ rest) (pow_pos t) (pow_pos rest) in
    let sum : cur + t + rest ≡ cur + (t + rest) = omega arith in
    record {
      bytes = second.bytes;
      same_length = second.same_length ∙ first.same_length;
      bits = omega (
        arith,
        second.bits,
        first.bits,
        ap (λ (p : ℕ). p * 2 ^ cur) digits,
        ap (λ (p : ℕ). val / 2 ^ t % 2 ^ rest * p) (pow-add cur t),
      );
      free = rw sum at second.free;
    }

-- The run of the loop from these arguments writes `rem` bits.
abbrev pub Writes : ℕ → List ℕ → ℕ → ℕ → ℕ → Type 0
Writes f packed val cur rem =
    (packed' : List ℕ) × (write_value f packed val cur rem ≡ some packed')
    × IsWritten packed val cur rem packed'

-- A round, and the rest of the loop after it.
Writes-round :
    (f : ℕ) (packed : List ℕ) (val cur rem t : ℕ) (packed₁ : List ℕ)
    → t ≤ rem
    → write_value (suc f) packed val cur rem
      ≡ write_value f packed₁ (val / 2 ^ t) (cur + t) (rem - t)
    → IsWritten packed val cur t packed₁
    → Writes f packed₁ (val / 2 ^ t) (cur + t) (rem - t)
    → Writes (suc f) packed val cur rem
Writes-round f packed val cur rem t packed₁ h round first (packed₂, run, second) =
    let all : t + (rem - t) ≡ rem = omega arith in
    (
      packed₂,
      round ∙ run,
      subst (λ n. IsWritten packed val cur n packed₂) all
          (IsWritten-join packed val cur t (rem - t) packed₁ packed₂ first second),
    )

pub write_value_lem :
    (f : ℕ) (packed : List ℕ) (val cur rem : ℕ)
    → All IsByte packed
    → value packed < 2 ^ cur
    → cur + rem ≤ 8 * length packed
    → cur + rem < 2 ^ 32
    → rem < f
    → Writes f packed val cur rem
write_value_lem zero packed val cur rem hb hv hp hl hf = absurd (omega arith)
write_value_lem (suc f) packed val cur rem hb hv hp hl hf = elim (dec_lt 0 rem) [
  | no done ↦
      let e : rem ≡ 0 = omega arith in
      let none_left : val % 2 ^ 0 ≡ 0 = omega arith in
      let here : cur + 0 ≡ cur = omega arith in
      (
        packed,
        unfold write_value in rw (le→ltb 0 rem (omega arith)),
        rw e (record {
          bytes = hb;
          same_length = refl;
          bits = rw none_left (omega arith);
          free = rw here hv;
        }),
      )
  | yes more ↦
      let t = round_width cur rem in
      let off : bit_and cur 7 ≡ cur % 8 = bit_and_mask 3 cur in
      let inside : cur / 8 < length packed = omega arith in
      let first = round-IsWritten packed val cur t hb hv inside (omega arith) in
      let next : u32 (cur + t) ≡ cur + t = mod-eq_of_lt {n = cur + t} (omega arith) in
      let room : cur + t + (rem - t) ≤ 8 * length packed = omega arith in
      let read = get_elem?-eq-get_or packed (cur / 8) 0 inside in
      Writes-round f packed val cur rem t _ (omega arith)
        (write_round f packed val cur rem _ more read ∙ rw next) first
        (write_value_lem f _ (val / 2 ^ t) (cur + t) (rem - t) first.bytes first.free
          (rw first.same_length room) (omega arith) (omega arith))
]
