-- ===== src/Tests/Simd.antt =====
-- Concrete runs of the SIMD kernels.
use vec_fetch.Prelude.{ℕ, zero, suc, ◌≡◌, ◌<◌, arith, List, [], ◌∷◌, some, get_or, map, u32}
use vec_fetch.Bytes.{value}
use vec_fetch.Simd.Isa.{avx2, avx512}
use vec_fetch.Simd.Register.{M256, m256}
use vec_fetch.Simd.Register.Lane.{stream}
use vec_fetch.Simd.BitUnpack.{bit_unpack, fields}
use vec_fetch.Simd.BitUnpack.Kernels.{bit_unpack_reads_fields}
use vec_fetch.Simd.PrefixSum.{prefix_sum_scalar, exclusive_prefix_sum, exclusive_prefix_sum_multi}
use vec_fetch.Simd.PrefixSum.Single.{partial_sums, exclusive_prefix_sum_lem}
use vec_fetch.Simd.PrefixSum.Multi.{prefix_sum_multi_lem}
use vec_fetch.Simd.Transpose.{transpose_8x8, transpose_8xn, transpose_nx8}
use vec_fetch.Simd.Transpose.Network.{transpose_8x8_lem}
use vec_fetch.Simd.Transpose.Interleave.{Hold, rows, transpose_8xn_lem}
use vec_fetch.Simd.Transpose.Separate.{transpose_nx8_lem}

abbrev three_bytes : List ℕ
three_bytes = 0xB5 ∷ 0x0F ∷ 0xC3 ∷ []

bit_unpack_reads_fields_example :
    bit_unpack avx512 three_bytes 1 21 ≡ some (fields 21 (value three_bytes) 1 0)
bit_unpack_reads_fields_example =
    bit_unpack_reads_fields avx512 three_bytes 1 21 (omega arith, (omega arith, (omega arith, tt)))
      (omega arith) (omega arith) (omega arith)

abbrev ten_sizes : List ℕ
ten_sizes = 3 ∷ 1 ∷ 4 ∷ 1 ∷ 5 ∷ 9 ∷ 2 ∷ 6 ∷ 4294967295 ∷ 5 ∷ []

exclusive_prefix_sum_lem_example :
    exclusive_prefix_sum avx2 ten_sizes ≡ some (map u32 (partial_sums 0 ten_sizes))
exclusive_prefix_sum_lem_example = exclusive_prefix_sum_lem avx2 ten_sizes (omega arith)

abbrev two_rows : List M256
two_rows = m256 1 2 3 4 5 6 7 8 ∷ m256 9 10 11 12 13 14 15 16 ∷ []

prefix_sum_multi_lem_example :
    (sums : List M256) × (exclusive_prefix_sum_multi avx2 two_rows 3 [] ≡ some sums)
    × ((k : ℕ) → k < 3 → stream k sums ≡ prefix_sum_scalar 0 (stream k two_rows))
prefix_sum_multi_lem_example =
    prefix_sum_multi_lem avx2 two_rows 3 [] (omega arith) (omega arith) (omega arith) (omega arith)

abbrev a_row : M256
a_row = m256 1 2 3 4 5 6 7 8

abbrev another_row : M256
another_row = m256 21 22 23 24 25 26 27 28

transpose_8x8_lem_example :
    transpose_8x8 a_row another_row a_row another_row a_row another_row a_row another_row
    ≡ m256 1 21 1 21 1 21 1 21
      ∷ m256 2 22 2 22 2 22 2 22
      ∷ m256 3 23 3 23 3 23 3 23
      ∷ m256 4 24 4 24 4 24 4 24
      ∷ m256 5 25 5 25 5 25 5 25
      ∷ m256 6 26 6 26 6 26 6 26
      ∷ m256 7 27 7 27 7 27 7 27
      ∷ m256 8 28 8 28 8 28 8 28
      ∷ []
transpose_8x8_lem_example =
    transpose_8x8_lem a_row another_row a_row another_row a_row another_row a_row another_row

abbrev one_stream : List (List ℕ)
one_stream = (1 ∷ 2 ∷ 3 ∷ 4 ∷ 5 ∷ 6 ∷ 7 ∷ 8 ∷ 9 ∷ []) ∷ []

one_stream-Hold : Hold 1 one_stream 9
unfolding Hold
one_stream-Hold zero h = (omega arith, omega arith)
one_stream-Hold (suc k) h = absurd (omega arith)

transpose_8xn_lem_example : transpose_8xn avx2 one_stream [] 1 9 ≡ some (rows 1 one_stream 9 0)
transpose_8xn_lem_example =
    transpose_8xn_lem avx2 one_stream [] 1 9 (omega arith) (omega arith) (omega arith) (omega arith)
      one_stream-Hold

transpose_nx8_lem_example :
    (streams : List (List ℕ)) × (transpose_nx8 avx2 two_rows 3 ≡ some streams)
    × ((k : ℕ) → k < 3 → get_or streams k [] ≡ stream k two_rows)
transpose_nx8_lem_example =
    transpose_nx8_lem avx2 two_rows 3 (omega arith) (omega arith) (omega arith) (omega arith)
