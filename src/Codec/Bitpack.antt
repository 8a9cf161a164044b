-- ===== src/Codec/Bitpack.antt =====
-- src/codec/bitpack_codec.cpp and include/vdb/codec/bitpack_codec.h: arrays of uint32_t values,
-- packed at one bit width, lowest bit first. The pair `values`, `count` is a list.
pub mod Width
pub mod Encode
pub mod RoundTrip
use mathlib.Core.Logic.{dite}
use mathlib.Core.WellFounded.{Acc}
use vec_fetch.Prelude.{
  ℕ, zero, suc, ◌+◌, ◌-◌, ◌*◌, ◌/◌, ◌%◌, ◌^◌, ◌≤◌, ◌<◌, List, [], ◌∷◌, Option, none, some, bit_and,
  bit_or, ltb, ◌==◌, if◌then◌else◌, ◌>>=◌, get_elem?, set, replicate, length, u8, u32, u64, ◌<<<◌,
  ◌>>>◌, min, arith, dec_lt,
}
use vec_fetch.Prelude.Loops.{lt_wf}
use vec_fetch.Simd.Isa.{Isa}
use vec_fetch.Simd.BitUnpack.{bit_unpack}

-- The loop that finds the largest value.
max_value : ℕ → List ℕ → ℕ
max_value max_val [] = max_val
max_value max_val (v ∷ vs) = max_value (if ltb max_val v then v else max_val) vs

pub halving_shrinks : (n : ℕ) → 0 < n → n / 2 < n
halving_shrinks n h = omega arith

-- `while (shifted != 0u) { shifted >>= 1; bits++; }`, where `bits` is a uint8_t.
count_bits : ℕ → (shifted : ℕ) → Acc ◌<◌ shifted → ℕ
count_bits bits shifted (Acc.intro _ smaller) =
    dite (dec_lt 0 shifted)
      (λ more. count_bits (u8 (bits + 1)) (shifted / 2) (smaller _ (halving_shrinks shifted more)))
      (λ _. bits)

unfoldable pub bits_needed : ℕ → ℕ
unfolding count_bits lt_wf dec_lt
bits_needed max_val = count_bits 0 max_val (lt_wf.apply max_val)

unfoldable pub compute_min_bit_width : List ℕ → ℕ → ℕ
unfolding max_value
compute_min_bit_width values max_packable_value =
    if length values == 0
    then 1
    else let max_val = max_value 0 values in
      if ltb max_packable_value max_val then 0 else if max_val == 0 then 1 else bits_needed max_val

-- The product is computed in 64 bits, and the quotient returned in 32.
unfoldable pub encoded_size : ℕ → ℕ → ℕ
encoded_size count bit_width = u32 (u64 (u64 (count * bit_width) + 7) / 8)

-- The `while (bits_remaining > 0u)` loop. A round writes one bit at least: `bits_remaining + 1`
-- rounds are enough. With fewer, and on a write outside `packed`, the result is `none`.
pub write_value : ℕ → List ℕ → ℕ → ℕ → ℕ → Option (List ℕ)
write_value zero packed val cur_bit bits_remaining = none
write_value (suc fuel) packed val cur_bit bits_remaining =
    let round = do
      let byte_idx = cur_bit >>> 3
      let bit_off = bit_and cur_bit 7
      let space = 8 - bit_off
      let to_write = min space bits_remaining
      let mask = u8 (u32 (1 <<< to_write) - 1)
      old ← get_elem? packed byte_idx
      write_value fuel (set packed byte_idx (u8 (bit_or old (u8 (bit_and val mask <<< bit_off)))))
          (val >>> to_write) (u32 (cur_bit + to_write)) (bits_remaining - to_write)
    in if ltb 0 bits_remaining then round else some packed

pub write_values : List ℕ → ℕ → ℕ → List ℕ → Option (List ℕ)
write_values packed bit_width bit_pos [] = some packed
write_values packed bit_width bit_pos (val ∷ vals) = do
  packed' ← write_value (bit_width + 1) packed val bit_pos bit_width
  write_values packed' bit_width (u32 (bit_pos + bit_width)) vals

unfoldable pub encode : List ℕ → ℕ → Option (List ℕ)
unfolding write_values write_value encoded_size
encode values bit_width =
    write_values (replicate (encoded_size (length values) bit_width) 0) bit_width 0 values

unfoldable pub decode : Isa → List ℕ → ℕ → ℕ → Option (List ℕ)
unfolding bit_unpack
decode isa packed bit_width count =
    if ltb 0 count then bit_unpack isa packed bit_width count else some []
