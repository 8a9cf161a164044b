-- ===== src/Storage/PackCodes/Unpack.antt =====
-- UnpackSignBitsFromFastScan.
use vec_fetch.Prelude.{
  ℕ, zero, suc, ◌+◌, ◌-◌, ◌*◌, ◌/◌, ◌%◌, Bool, List, [], ◌∷◌, Option, some, bit_and, bit_or, ltb,
  leb, ◌<<<◌, ◌>>>◌, if◌then◌else◌, ◌>>=◌, get_elem?, set, replicate, u32, u64,
}

abbrev pub kinv_perm : List ℕ
kinv_perm = 0 ∷ 2 ∷ 4 ∷ 6 ∷ 8 ∷ 10 ∷ 12 ∷ 14 ∷ 1 ∷ 3 ∷ 5 ∷ 7 ∷ 9 ∷ 11 ∷ 13 ∷ 15 ∷ []

-- The loop over the bits of nibble `m`, from bit `b` on.
unfoldable pub spread_from : ℕ → ℕ → ℕ → ℕ → ℕ → List ℕ → Option (List ℕ)
spread_from zero dim m b nibble out = some out
spread_from (suc rounds) dim m b nibble out =
    let d = m * 4 + b in
    let bit = bit_and (nibble >>> (3 - b)) 1 in
    let next = do
      word ← get_elem? out (d / 64)
      spread_from rounds dim m (b + 1) nibble
          (set out (d / 64) (bit_or word (u64 (bit <<< (d % 64)))))
    in if ltb d dim then next else some out

-- The vector's half of a byte.
unfoldable pub half : Bool → ℕ → ℕ
half in_high_half byte = if in_high_half then bit_and (byte >>> 4) 15 else bit_and byte 15

-- The loop over the pairs, from nibble `m` on. The offset of a pair is a uint32_t.
unfoldable pub unpack_pairs : ℕ → List ℕ → Bool → ℕ → ℕ → ℕ → List ℕ → Option (List ℕ)
unpack_pairs zero packed in_high_half perm_pos dim m out = some out
unpack_pairs (suc rounds) packed in_high_half perm_pos dim m out = do
  let pair = u32 (m / 2 * 32)
  byte₀ ← get_elem? packed (pair + perm_pos)
  first ← spread_from 4 dim m 0 (half in_high_half byte₀) out
  let both = do
    byte₁ ← get_elem? packed (pair + (perm_pos + 16))
    spread_from 4 dim (m + 1) 0 (half in_high_half byte₁) first
  next ← (if ltb (m + 1) (dim / 4) then both else some first)
  unpack_pairs rounds packed in_high_half perm_pos dim (m + 2) next

unfoldable pub unpack_sign_bits : List ℕ → ℕ → ℕ → Option (List ℕ)
unpack_sign_bits packed_block vec_in_block dim = do
  let in_high_half = leb 16 vec_in_block
  perm_pos ← get_elem? kinv_perm (if in_high_half then vec_in_block - 16 else vec_in_block)
  unpack_pairs ((dim / 4 + 1) / 2) packed_block in_high_half perm_pos dim 0
      (replicate (u32 (dim + 63) / 64) 0)
