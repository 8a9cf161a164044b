-- ===== src/Simd/BitUnpack/Scalar.antt =====
-- The scalar kernel reads the fields of the buffer's value, inside the buffer.
use vec_fetch.Prelude.{
  ℕ, zero, suc, ◌+◌, ◌-◌, ◌*◌, ◌/◌, ◌%◌, ◌^◌, ◌≤◌, ◌<◌, ◌≡◌, refl, sym, ap, ◌∙◌, arith, List, some,
  bit_and, bit_or, ltb, length, get_elem?, get_or, get_elem?-eq-get_or, All, IsByte, u32, ◌<<<◌,
  ◌>>>◌, lt→ltb, le→ltb, dec_lt, if◌then◌else◌,
}
use native.Mathlib.Nat.{mod-eq_of_lt, pow-le-pow_right, div-div-eq-div-mul}
use vec_fetch.Bits.{pow_pos, pow-add, pow_double, bit_and_mask, bit_or_shifted}
use vec_fetch.Bits.Fields.{field, field-lt, field_join, field_mod}
use vec_fetch.Bytes.{value, byte_field}
use vec_fetch.Simd.BitUnpack.{read_value, value_mask, unpack_values, bit_unpack_scalar, fields}

pow_le : (a b : ℕ) → a ≤ b → 2 ^ a ≤ 2 ^ b
pow_le a b h = pow-le-pow_right (omega arith) h

u32_one_shifted : (t : ℕ) → t < 32 → u32 (1 <<< t) ≡ 2 ^ t
u32_one_shifted t h =
    let fits : 1 * 2 ^ t < 2 ^ 32 = omega (arith, pow_le (suc t) 32 h, pow_double t, pow_pos t) in
    mod-eq_of_lt fits ∙ omega arith

-- What a round takes from one byte.
pub chunk_field :
    (packed : List ℕ) (cur t : ℕ)
    → All IsByte packed
    → cur / 8 < length packed
    → cur % 8 + t ≤ 8
    → bit_and (get_or packed (cur / 8) 0 >>> bit_and cur 7) (u32 (1 <<< t) - 1)
      ≡ field (value packed) cur t
chunk_field packed cur t hb h ht =
    let place : 8 * (cur / 8) + cur % 8 ≡ cur = omega arith in
    let whole = ap (λ (p : ℕ). value packed / 2 ^ p % 2 ^ t) place in
    rw
      (
        bit_and_mask 3 cur,
        u32_one_shifted t (omega arith),
        bit_and_mask t,
        byte_field packed (cur / 8) hb h,
      )
      (field_mod (value packed / 2 ^ (8 * (cur / 8))) 8 (cur % 8) t ht
        ∙ ap (λ (x : ℕ). x % 2 ^ t)
            (div-div-eq-div-mul (value packed) (2 ^ (8 * (cur / 8))) (2 ^ (cur % 8)))
        ∙ ap (λ (p : ℕ). value packed / p % 2 ^ t) (sym (pow-add (8 * (cur / 8)) (cur % 8)))
        ∙ whole)

-- What a round adds to the value read so far.
round_field :
    (bits pos r t : ℕ)
    → r + t ≤ 32
    → bit_or (field bits pos r) (u32 (field bits (pos + r) t <<< r)) ≡ field bits pos (r + t)
round_field bits pos r t h =
    let fits : field bits (pos + r) t * 2 ^ r < 2 ^ 32 =
      grind (arith, field-lt bits (pos + r) t, pow-add r t, pow_pos r, pow_le (r + t) 32 h) in
    rw (mod-eq_of_lt fits, bit_or_shifted r _ _ (field-lt bits pos r)) (field_join bits pos r t)

-- How many bits a round reads, of those left in the value and in the byte.
abbrev round_width : ℕ → ℕ → ℕ → ℕ
round_width w r cur = if ltb (8 - bit_and cur 7) (w - r) then 8 - bit_and cur 7 else w - r

round_width_bounds :
    (w r cur : ℕ)
    → r < w
    → (0 < round_width w r cur)
      × (r + round_width w r cur ≤ w)
      × (cur % 8 + round_width w r cur ≤ 8)
round_width_bounds w r cur h = ground (arith, bit_and_mask 3 cur)

read_round :
    (f : ℕ) (packed : List ℕ) (w cur r val byte : ℕ)
    → r < w
    → get_elem? packed (cur / 8) ≡ some byte
    → read_value (suc f) packed w cur r val
      ≡ read_value f packed w (u32 (cur + round_width w r cur)) (r + round_width w r cur) (
          bit_or val
            (u32 (bit_and (byte >>> bit_and cur 7) (u32 (1 <<< round_width w r cur) - 1) <<< r)))
unfolding read_value
read_round f packed w cur r val byte h e = rw (lt→ltb r w h, e)

read_value_lem :
    (f : ℕ) (packed : List ℕ) (w pos r : ℕ)
    → All IsByte packed
    → w ≤ 32
    → pos + w ≤ 8 * length packed
    → pos + w < 2 ^ 32
    → r ≤ w
    → w - r < f
    → read_value f packed w (pos + r) r (field (value packed) pos r)
      ≡ some (field (value packed) pos w)
read_value_lem zero packed w pos r hb hw hp hl hr hf = absurd (omega arith)
read_value_lem (suc f) packed w pos r hb hw hp hl hr hf = elim (dec_lt r w) [
  | yes h ↦
      let t = round_width w r (pos + r) in
      let bounds = round_width_bounds w r (pos + r) h in
      let inside : (pos + r) / 8 < length packed = omega arith in
      let next : u32 (pos + r + t) ≡ pos + (r + t) =
        mod-eq_of_lt {n = pos + r + t} (omega arith) ∙ omega arith in
      read_round f packed w (pos + r) r (field (value packed) pos r) _ h
        (get_elem?-eq-get_or packed ((pos + r) / 8) 0 inside)
      ∙ rw
          (
            chunk_field packed (pos + r) t hb inside bounds.2,
            round_field (value packed) pos r t (omega arith),
            next,
          )
          (read_value_lem f packed w pos (r + t) hb hw hp hl bounds.1 (omega arith))
  | no h ↦ let e : r ≡ w = omega arith in unfold read_value in rw (le→ltb r w (omega arith), e)
]

value_mask_lem : (x w : ℕ) → w ≤ 32 → x < 2 ^ w → bit_and x (value_mask w) ≡ x
unfolding value_mask
value_mask_lem x w hw hx = elim (dec_lt w 32) [
  | yes h ↦ rw (lt→ltb w 32 h, u32_one_shifted w h, bit_and_mask w x) (mod-eq_of_lt hx)
  | no h ↦
      let e : w ≡ 32 = omega arith in
      rw (le→ltb w 32 (omega arith), bit_and_mask 32 x) (mod-eq_of_lt (rw e at hx))
]

unpack_values_lem :
    (count : ℕ) (packed : List ℕ) (w pos : ℕ)
    → All IsByte packed
    → w ≤ 32
    → pos + count * w ≤ 8 * length packed
    → pos + count * w < 2 ^ 32
    → unpack_values count packed w pos ≡ some (fields count (value packed) w pos)
unfolding unpack_values fields
unpack_values_lem zero packed w pos hb hw hp hl = refl
unpack_values_lem (suc count) packed w pos hb hw hp hl =
    let none_read : field (value packed) pos 0 ≡ 0 = omega arith in
    let start : pos + 0 ≡ pos = omega arith in
    let first : read_value (w + 1) packed w pos 0 0 ≡ some (field (value packed) pos w) =
      rw (none_read, start) at
        (read_value_lem (w + 1) packed w pos 0 hb hw (omega arith) (omega arith) (omega arith)
          (omega arith)) in
    let next : u32 (pos + w) ≡ pos + w = mod-eq_of_lt {n = pos + w} (omega arith) in
    rw (
      first,
      next,
      unpack_values_lem count packed w (pos + w) hb hw (omega arith) (omega arith),
      value_mask_lem (field (value packed) pos w) w hw (field-lt (value packed) pos w),
    )

pub bit_unpack_scalar_lem :
    (packed : List ℕ) (w count : ℕ)
    → All IsByte packed
    → w ≤ 32
    → count * w ≤ 8 * length packed
    → count * w < 2 ^ 32
    → bit_unpack_scalar packed w count ≡ some (fields count (value packed) w 0)
unfolding bit_unpack_scalar
bit_unpack_scalar_lem packed w count hb hw hp hl =
    unpack_values_lem count packed w 0 hb hw (omega arith) (omega arith)
