-- ===== src/Simd/BitUnpack.antt =====
-- src/simd/bit_unpack.cpp: values of a fixed bit width, packed lowest bit first.
-- A read outside `packed` is `none`; the output buffer is the list that is returned.
pub mod Scalar
pub mod Lanes
pub mod Kernels
use vec_fetch.Prelude.{
  ℕ, zero, suc, ◌+◌, ◌-◌, ◌*◌, ◌/◌, ◌%◌, ◌^◌, Bool, List, [], ◌∷◌, ◌++◌, Option, none, some, map,
  bit_and, bit_or, ltb, ◌==◌, if◌then◌else◌, ◌>>=◌, get_elem?, u32, ◌<<<◌, ◌>>>◌,
}
use vec_fetch.Simd.Isa.{Isa, scalar, avx2, avx512}

-- The `while (bits_read < bit_width)` loop. A round reads one bit at least: `bit_width + 1` rounds
-- are enough, and with fewer the result is `none`.
read_value : ℕ → List ℕ → ℕ → ℕ → ℕ → ℕ → Option ℕ
read_value zero packed bit_width cur_bit bits_read val = none
read_value (suc fuel) packed bit_width cur_bit bits_read val =
    let round = do
      byte ← get_elem? packed (cur_bit >>> 3)
      let bit_off = bit_and cur_bit 7
      let avail = 8 - bit_off
      let left = bit_width - bits_read
      let to_read = if ltb avail left then avail else left
      let chunk = bit_and (byte >>> bit_off) (u32 (1 <<< to_read) - 1)
      read_value fuel packed bit_width (u32 (cur_bit + to_read)) (bits_read + to_read)
          (bit_or val (u32 (chunk <<< bits_read)))
    in if ltb bits_read bit_width then round else some val

value_mask : ℕ → ℕ
value_mask bit_width = if ltb bit_width 32 then u32 (1 <<< bit_width) - 1 else 0xFFFFFFFF

-- The loop over `i`, with `count` rounds left.
unpack_values : ℕ → List ℕ → ℕ → ℕ → Option (List ℕ)
unpack_values zero packed bit_width bit_pos = some []
unpack_values (suc count) packed bit_width bit_pos = do
  val ← read_value (bit_width + 1) packed bit_width bit_pos 0 0
  rest ← unpack_values count packed bit_width (u32 (bit_pos + bit_width))
  some (bit_and val (value_mask bit_width) ∷ rest)

pub bit_unpack_scalar : List ℕ → ℕ → ℕ → Option (List ℕ)
unfolding unpack_values read_value value_mask
bit_unpack_scalar packed bit_width count = unpack_values count packed bit_width 0

-- `_mm256_srlv_epi32` and `_mm256_and_si256` on one broadcast value: lane `s` holds bit `s`.
abbrev bit_lanes : ℕ → List ℕ → List ℕ
bit_lanes v shifts = map (λ s. bit_and (v >>> s) 1) shifts

abbrev shifts_8 : List ℕ
shifts_8 = 0 ∷ 1 ∷ 2 ∷ 3 ∷ 4 ∷ 5 ∷ 6 ∷ 7 ∷ []

abbrev shifts_16 : List ℕ
shifts_16 = 0 ∷ 1 ∷ 2 ∷ 3 ∷ 4 ∷ 5 ∷ 6 ∷ 7 ∷ 8 ∷ 9 ∷ 10 ∷ 11 ∷ 12 ∷ 13 ∷ 14 ∷ 15 ∷ []

-- One stored vector for each full byte, from byte `b` on.
full_bytes_avx2 : ℕ → List ℕ → ℕ → Option (List ℕ)
full_bytes_avx2 zero packed b = some []
full_bytes_avx2 (suc n) packed b = do
  v ← get_elem? packed b
  rest ← full_bytes_avx2 n packed (b + 1)
  some (bit_lanes v shifts_8 ++ rest)

-- The scalar tail of the AVX2 path: bits of one byte.
tail_bits_avx2 : ℕ → ℕ → ℕ → List ℕ
tail_bits_avx2 zero tail_byte bit = []
tail_bits_avx2 (suc n) tail_byte bit =
    bit_and (tail_byte >>> bit) 1 ∷ tail_bits_avx2 n tail_byte (bit + 1)

pub bit_unpack_1bit_avx2 : List ℕ → ℕ → Option (List ℕ)
unfolding full_bytes_avx2 tail_bits_avx2
bit_unpack_1bit_avx2 packed count = do
  let full_bytes = count >>> 3
  out ← full_bytes_avx2 full_bytes packed 0
  let done = full_bytes * 8
  let remaining = count - done
  let tail = do
    tail_byte ← get_elem? packed full_bytes
    some (out ++ tail_bits_avx2 remaining tail_byte 0)
  if ltb 0 remaining then tail else some out

-- `std::memcpy(&val, packed + b * 2, 2)` on a little-endian machine, one stored vector for each.
full_16_avx512 : ℕ → List ℕ → ℕ → Option (List ℕ)
full_16_avx512 zero packed b = some []
full_16_avx512 (suc n) packed b = do
  low ← get_elem? packed (b * 2)
  high ← get_elem? packed (b * 2 + 1)
  rest ← full_16_avx512 n packed (b + 1)
  some (bit_lanes (low + high * 256) shifts_16 ++ rest)

-- The scalar tail of the AVX-512 path: bits from `bit_pos` on, each from its own byte.
tail_bits_avx512 : ℕ → List ℕ → ℕ → Option (List ℕ)
tail_bits_avx512 zero packed bit_pos = some []
tail_bits_avx512 (suc n) packed bit_pos = do
  byte ← get_elem? packed (bit_pos >>> 3)
  rest ← tail_bits_avx512 n packed (bit_pos + 1)
  some (bit_and (byte >>> bit_and bit_pos 7) 1 ∷ rest)

pub bit_unpack_1bit_avx512 : List ℕ → ℕ → Option (List ℕ)
unfolding full_16_avx512 tail_bits_avx512
bit_unpack_1bit_avx512 packed count = do
  let full_16 = count >>> 4
  out ← full_16_avx512 full_16 packed 0
  let done = full_16 * 16
  tail ← tail_bits_avx512 (count - done) packed done
  some (out ++ tail)

-- The entry point, with the kernel that the build options and the width choose.
unfoldable pub bit_unpack : Isa → List ℕ → ℕ → ℕ → Option (List ℕ)
unfolding bit_unpack_scalar bit_unpack_1bit_avx2 bit_unpack_1bit_avx512
bit_unpack isa packed bit_width count = if count == 0 then some [] else elim isa [
  | avx512 ↦
      if bit_width == 1
      then bit_unpack_1bit_avx512 packed count
      else bit_unpack_scalar packed bit_width count
  | avx2 ↦
      if bit_width == 1
      then bit_unpack_1bit_avx2 packed count
      else bit_unpack_scalar packed bit_width count
  | scalar ↦ bit_unpack_scalar packed bit_width count
]

-- What the packed bits mean: `count` fields of `width` bits, one after the other from bit `pos` on.
unfoldable pub fields : ℕ → ℕ → ℕ → ℕ → List ℕ
fields zero bits width pos = []
fields (suc count) bits width pos =
    bits / 2 ^ pos % 2 ^ width ∷ fields count bits width (pos + width)
