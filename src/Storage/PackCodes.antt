-- ===== src/Storage/PackCodes.antt =====
-- src/storage/pack_codes.cpp and include/vdb/storage/pack_codes.h: the sign bits of up to 32 codes in the
-- layout of the fast scan. A code is its words, and an access out of bounds is `none`.
pub mod Unpack
pub mod Nibbles
pub mod Rows
pub mod Pairs
pub mod Words
pub mod RoundTrip
use vec_fetch.Prelude.{
  ℕ, zero, suc, ◌+◌, ◌-◌, ◌*◌, ◌/◌, ◌%◌, Bool, true, false, List, [], ◌∷◌, ◌++◌, Option, none, some,
  bit_and, bit_or, ltb, leb, ◌==◌, ◌<<<◌, ◌>>>◌, if◌then◌else◌, ◌>>=◌, length, get_elem?, set,
  replicate, map, u8, u32, u64,
}

abbrev pub kperm : List ℕ
kperm = 0 ∷ 8 ∷ 1 ∷ 9 ∷ 2 ∷ 10 ∷ 3 ∷ 11 ∷ 4 ∷ 12 ∷ 5 ∷ 13 ∷ 6 ∷ 14 ∷ 7 ∷ 15 ∷ []

-- FastScanPackedSize, a uint32_t.
abbrev pub fast_scan_packed_size : ℕ → ℕ
fast_scan_packed_size dim = u32 (u32 (dim + 7) / 8 * 32)

-- The sign bit of dimension `d`.
unfoldable pub sign_bit : List ℕ → ℕ → Option ℕ
sign_bit code d = do word ← get_elem? code (d / 64); some (bit_and (word >>> (d % 64)) 1)

-- The loop over the bits of nibble `m`, from bit `b` on.
unfoldable pub nibble_from : ℕ → List ℕ → ℕ → ℕ → ℕ → ℕ → Option ℕ
nibble_from zero code dim m b nibble = some nibble
nibble_from (suc rounds) code dim m b nibble =
    let d = m * 4 + b in
    let next = do
      bit ← sign_bit code d
      nibble_from rounds code dim m (b + 1) (bit_or nibble (u8 (bit <<< (3 - b))))
    in if leb dim d then some nibble else next

-- The nibble in its half of the byte.
unfoldable pub store_nibble : List ℕ → ℕ → ℕ → ℕ → Option (List ℕ)
store_nibble flat i m nibble = do
  old ← get_elem? flat i
  some (set flat i (u8 (bit_or old (if m % 2 == 0 then nibble else nibble <<< 4))))

-- The nibbles of row `v`, from nibble `m` on.
unfoldable pub flatten_row : ℕ → List ℕ → ℕ → ℕ → ℕ → ℕ → List ℕ → Option (List ℕ)
flatten_row zero code dim bytes_per_vec v m flat = some flat
flatten_row (suc rounds) code dim bytes_per_vec v m flat = do
  nibble ← nibble_from 4 code dim m 0 0
  stored ← store_nibble flat (v * bytes_per_vec + m / 2) m nibble
  flatten_row rounds code dim bytes_per_vec v (m + 1) stored

unfoldable pub flatten_rows : List (List ℕ) → ℕ → ℕ → ℕ → List ℕ → Option (List ℕ)
flatten_rows [] dim bytes_per_vec v flat = some flat
flatten_rows (code ∷ codes) dim bytes_per_vec v flat = do
  row ← flatten_row (dim / 4) code dim bytes_per_vec v 0 flat
  flatten_rows codes dim bytes_per_vec (v + 1) row

-- The bytes `j` of the rows, from row `k` on, and zeros for the rows that are missing.
unfoldable pub column_from : ℕ → ℕ → List ℕ → ℕ → ℕ → ℕ → Option (List ℕ)
column_from zero num_codes flat bytes_per_vec j k = some []
column_from (suc rounds) num_codes flat bytes_per_vec j k = do
  c ← (if ltb k num_codes then get_elem? flat (k * bytes_per_vec + j) else some 0)
  rest ← column_from rounds num_codes flat bytes_per_vec j (k + 1)
  some (c ∷ rest)

-- The lanes at the places that `kperm` lists.
unfoldable pub interleave : List ℕ → List ℕ → Option (List ℕ)
interleave [] c = some []
interleave (p ∷ places) c = do
  low ← get_elem? c p
  high ← get_elem? c (p + 16)
  rest ← interleave places c
  some (bit_or low (u8 (high <<< 4)) ∷ rest)

-- The 32 bytes of two neighbouring nibbles.
unfoldable pub pack_pair : ℕ → List ℕ → ℕ → ℕ → Option (List ℕ)
pack_pair num_codes flat bytes_per_vec j = do
  c ← column_from 32 num_codes flat bytes_per_vec j 0
  lows ← interleave kperm (map (λ byte. bit_and byte 15) c)
  highs ← interleave kperm (map (λ byte. byte >>> 4) c)
  some (lows ++ highs)

-- The loop over the pairs, which has half as many rounds as nibbles, rounded up.
unfoldable pub pack_pairs : ℕ → ℕ → List ℕ → ℕ → ℕ → Option (List ℕ)
pack_pairs zero num_codes flat bytes_per_vec j = some []
pack_pairs (suc rounds) num_codes flat bytes_per_vec j = do
  pair ← pack_pair num_codes flat bytes_per_vec j
  rest ← pack_pairs rounds num_codes flat bytes_per_vec (j + 1)
  some (pair ++ rest)

-- PackSignBitsForFastScan. What no pair covers stays zero. The size of `flat` is a uint32_t, and `out`
-- has the packed size: pairs behind it are out of bounds.
unfoldable pub pack_sign_bits : List (List ℕ) → ℕ → Option (List ℕ)
pack_sign_bits codes dim = do
  let bytes_per_vec = (dim / 4 + 1) / 2
  flat ← flatten_rows codes dim bytes_per_vec 0 (replicate (u32 (32 * bytes_per_vec)) 0)
  pairs ← pack_pairs bytes_per_vec (length codes) flat bytes_per_vec 0
  if leb (length pairs) (fast_scan_packed_size dim)
      then some (pairs ++ replicate (fast_scan_packed_size dim - length pairs) 0)
      else none
