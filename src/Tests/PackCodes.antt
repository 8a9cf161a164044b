-- ===== src/Tests/PackCodes.antt =====
-- Concrete runs of the sign bit packing.
use vec_fetch.Prelude.{
  ℕ, ◌+◌, ◌*◌, ◌/◌, ◌≡◌, refl, arith, List, [], ◌∷◌, some, ◌>>=◌, length, get_or,
}
use vec_fetch.Storage.PackCodes.{
  pack_sign_bits, flatten_rows, flatten_row, nibble_from, sign_bit, store_nibble, column_from,
  interleave, pack_pair, pack_pairs, fast_scan_packed_size,
}
use vec_fetch.Storage.PackCodes.Unpack.{unpack_sign_bits, unpack_pairs, spread_from, half}
use vec_fetch.Storage.PackCodes.Words.{IsUnpacked}
use vec_fetch.Storage.PackCodes.RoundTrip.{unpack-pack_sign_bits}

abbrev two_codes : List (List ℕ)
two_codes = (45213 ∷ []) ∷ (1234 ∷ []) ∷ []

-- With 13 dimensions the last one is not packed.
unpack_sign_bits_test :
    (pack_sign_bits two_codes 13 >>= λ packed. unpack_sign_bits packed 0 13) ≡ some (157 ∷ [])
unfolding pack_sign_bits flatten_rows flatten_row nibble_from sign_bit store_nibble column_from
    interleave pack_pair pack_pairs unpack_sign_bits unpack_pairs spread_from half
unpack_sign_bits_test = refl

unpack-pack_sign_bits_example :
    (packed out : List ℕ) × (pack_sign_bits two_codes 16 ≡ some packed)
    × (length packed ≡ fast_scan_packed_size 16)
    × (unpack_sign_bits packed 1 16 ≡ some out)
    × (length out ≡ (16 + 63) / 64)
    × IsUnpacked (get_or two_codes 1 []) (16 / 4 * 4) out
unpack-pack_sign_bits_example =
    unpack-pack_sign_bits two_codes 16 1 (omega arith) (omega arith)
      (omega arith, (omega arith, tt)) (omega arith)
