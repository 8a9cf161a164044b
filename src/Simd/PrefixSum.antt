-- ===== src/Simd/PrefixSum.antt =====
-- src/simd/prefix_sum.cpp: exclusive prefix sums of uint32_t values. The pair `in`, `count` is a
-- list, and the output buffer is the list that is returned. An interleaved buffer is a list of
-- rows of eight entries: entry `j * 8 + k` is lane `k` of row `j`. The counters and indexes are
-- uint32_t: where one wraps, the loop leaves its buffers or the rows, and the kernel is `none`.
pub mod Single
pub mod Multi
use vec_fetch.Prelude.{
  ℕ, zero, suc, ◌+◌, List, [], ◌∷◌, ◌++◌, ◌*◌, ◌^◌, Option, none, some, ltb, leb, ◌==◌, ◌||◌, ◌&&◌,
  if◌then◌else◌, u32, length,
}
use vec_fetch.Simd.Isa.{Isa, scalar, avx2, avx512}
use vec_fetch.Simd.Register.{
  M256, M128, m256, m128, setzero, to_list, add_epi32, add_epi32_128, slli_4, slli_8, low_half,
  high_half, set_halves, set1, alignr_12, lane, from_lanes,
}

-- The scalar loop, from a running sum.
pub prefix_sum_scalar : ℕ → List ℕ → List ℕ
prefix_sum_scalar running [] = []
prefix_sum_scalar running (x ∷ xs) = running ∷ prefix_sum_scalar (u32 (running + x)) xs

pub inc_prefix_sum8 : M256 → M256
inc_prefix_sum8 v =
    let v₁ = add_epi32 v (slli_4 v) in
    let v₂ = add_epi32 v₁ (slli_8 v₁) in
    let lo_total = (low_half v₂).e3 in
    set_halves (add_epi32_128 (high_half v₂) (set1 lo_total)) (low_half v₂)

pub inc_to_excl8 : M256 → ℕ → M256
inc_to_excl8 inc running_sum =
    let new_lo = alignr_12 (low_half inc) (m128 0 0 0 0) in
    let new_hi = alignr_12 (high_half inc) (low_half inc) in
    let carry = set1 running_sum in
    set_halves (add_epi32_128 new_hi carry) (add_epi32_128 new_lo carry)

-- Eight values a round, while there are eight; then the scalar tail.
pub prefix_sum_rounds : ℕ → List ℕ → List ℕ
prefix_sum_rounds running_sum (x0 ∷ x1 ∷ x2 ∷ x3 ∷ x4 ∷ x5 ∷ x6 ∷ x7 ∷ xs) =
    let inc = inc_prefix_sum8 (m256 x0 x1 x2 x3 x4 x5 x6 x7) in
    to_list (inc_to_excl8 inc running_sum)
    ++ prefix_sum_rounds (u32 (running_sum + (high_half inc).e3)) xs
prefix_sum_rounds running_sum xs = prefix_sum_scalar running_sum xs

-- The test `i + 8u <= count` of the last round is made at the last multiple of 8 that is not above
-- `count`: it wraps, and the loop goes on behind the input, for a `count` from 2^32 - 8 on.
pub prefix_sum_avx2 : List ℕ → Option (List ℕ)
unfolding prefix_sum_rounds
prefix_sum_avx2 xs = if ltb (length xs + 8) (2 ^ 32) then some (prefix_sum_rounds 0 xs) else none

-- The AVX2 kernel is compiled wherever AVX2 is, also beside AVX-512.
unfoldable pub exclusive_prefix_sum : Isa → List ℕ → Option (List ℕ)
unfolding prefix_sum_scalar prefix_sum_avx2
exclusive_prefix_sum isa xs =
    if length xs == 0
    then some []
    else elim isa [ scalar ↦ some (prefix_sum_scalar 0 xs) | _ ↦ prefix_sum_avx2 xs ]

-- One row of the scalar loop over streams: lanes from `num_streams` on are written as zero.
prefix_row_out : ℕ → M256 → M256
prefix_row_out num_streams running =
    from_lanes (λ k. if ltb k num_streams then lane k running else 0)

prefix_row_running : ℕ → M256 → M256 → M256
prefix_row_running num_streams running row =
    from_lanes
      (λ k. if ltb k num_streams then u32 (lane k running + lane k row) else lane k running)

pub prefix_sum_rows : ℕ → M256 → List M256 → List M256
unfolding prefix_row_out prefix_row_running
prefix_sum_rows num_streams running [] = []
prefix_sum_rows num_streams running (row ∷ rows) =
    prefix_row_out num_streams running
    ∷ prefix_sum_rows num_streams (prefix_row_running num_streams running row) rows

-- The index `j * 8 + k` is a uint32_t, and the running sums are eight.
pub prefix_sum_multi_scalar : ℕ → List M256 → Option (List M256)
unfolding prefix_sum_rows
prefix_sum_multi_scalar num_streams rows =
    if leb num_streams 8 && leb (length rows * 8) (2 ^ 32)
    then some (prefix_sum_rows num_streams setzero rows)
    else none

pub prefix_sum_registers : M256 → List M256 → List M256
prefix_sum_registers running [] = []
prefix_sum_registers running (row ∷ rows) =
    running ∷ prefix_sum_registers (add_epi32 running row) rows

-- The offset `j * 8` of a row is a uint32_t.
pub prefix_sum_multi_avx2 : List M256 → Option (List M256)
unfolding prefix_sum_registers
prefix_sum_multi_avx2 rows =
    if leb (length rows * 8) (2 ^ 32) then some (prefix_sum_registers setzero rows) else none

-- With nothing to do the output buffer keeps `out`, what it held.
unfoldable pub exclusive_prefix_sum_multi : Isa → List M256 → ℕ → List M256 → Option (List M256)
unfolding prefix_sum_multi_scalar prefix_sum_multi_avx2
exclusive_prefix_sum_multi isa rows num_streams out =
    if length rows == 0 || num_streams == 0 then some out else elim isa [
      | scalar ↦ prefix_sum_multi_scalar num_streams rows
      | _ ↦ prefix_sum_multi_avx2 rows
    ]
