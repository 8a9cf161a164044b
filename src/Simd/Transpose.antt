-- ===== src/Simd/Transpose.antt =====
-- src/simd/transpose.cpp: between streams (one list for each) and an interleaved buffer (a list of
-- rows of eight entries: entry `j * 8 + k` is lane `k` of row `j`). A read outside a stream is
-- `none`. An output buffer is what is returned. The index `j * 8 + k` is a uint32_t: where it wraps,
-- beyond 2^29 rows, and for more streams than the eight entries of a row, which the header rules
-- out, a kernel is `none`.
pub mod Network
pub mod Interleave
pub mod Separate
use vec_fetch.Prelude.{
  ℕ, zero, suc, ◌+◌, List, [], ◌∷◌, ◌++◌, Option, none, some, Bool, ◌*◌, ◌^◌, ltb, leb, ◌==◌, ◌||◌,
  ◌&&◌, if◌then◌else◌, ◌>>=◌, length, get_elem?, get_or, replicate,
}
use vec_fetch.Simd.Isa.{Isa, scalar, avx2, avx512}
use vec_fetch.Simd.Register.{
  M256, setzero, to_list, lane, from_lanes, unpacklo_32, unpackhi_32, unpacklo_64, unpackhi_64,
  permute_20, permute_31,
}

-- Entry `j` of each of the first `num_streams` streams.
pub column : ℕ → List (List ℕ) → ℕ → Option (List ℕ)
column zero streams j = some []
column (suc n) [] j = none
column (suc n) (s ∷ streams) j = do x ← get_elem? s j; rest ← column n streams j; some (x ∷ rest)

-- The scalar loop, `count` rows from `j` on: lanes past the streams are zero.
pub interleave_rows : ℕ → List (List ℕ) → ℕ → ℕ → Option (List M256)
interleave_rows num_streams streams zero j = some []
interleave_rows num_streams streams (suc count) j = do
  xs ← column num_streams streams j
  rows ← interleave_rows num_streams streams count (j + 1)
  some (from_lanes (λ k. get_or xs k 0) ∷ rows)

-- The entries of `num_streams` lanes in each of `count` rows have their own indexes.
unfoldable pub are_indexed : ℕ → ℕ → Bool
are_indexed num_streams count = leb num_streams 8 && leb (count * 8) (2 ^ 32)

pub interleave_scalar : ℕ → List (List ℕ) → ℕ → Option (List M256)
unfolding column interleave_rows
interleave_scalar num_streams streams count =
    if are_indexed num_streams count then interleave_rows num_streams streams count 0 else none

-- The 8 × 8 network on registers.
pub transpose_8x8 : M256 → M256 → M256 → M256 → M256 → M256 → M256 → M256 → List M256
transpose_8x8 r0 r1 r2 r3 r4 r5 r6 r7 =
    let t0 = unpacklo_32 r0 r1 in
    let t1 = unpackhi_32 r0 r1 in
    let t2 = unpacklo_32 r2 r3 in
    let t3 = unpackhi_32 r2 r3 in
    let t4 = unpacklo_32 r4 r5 in
    let t5 = unpackhi_32 r4 r5 in
    let t6 = unpacklo_32 r6 r7 in
    let t7 = unpackhi_32 r6 r7 in
    let u0 = unpacklo_64 t0 t2 in
    let u1 = unpackhi_64 t0 t2 in
    let u2 = unpacklo_64 t1 t3 in
    let u3 = unpackhi_64 t1 t3 in
    let u4 = unpacklo_64 t4 t6 in
    let u5 = unpackhi_64 t4 t6 in
    let u6 = unpacklo_64 t5 t7 in
    let u7 = unpackhi_64 t5 t7 in
    permute_20 u0 u4
    ∷ permute_20 u1 u5
    ∷ permute_20 u2 u6
    ∷ permute_20 u3 u7
    ∷ permute_31 u0 u4
    ∷ permute_31 u1 u5
    ∷ permute_31 u2 u6
    ∷ permute_31 u3 u7
    ∷ []

-- _mm256_loadu_si256 at `s + j`.
pub load : List ℕ → ℕ → Option M256
load s j = do
  a ← get_elem? s (j + 0)
  b ← get_elem? s (j + 1)
  c ← get_elem? s (j + 2)
  d ← get_elem? s (j + 3)
  e ← get_elem? s (j + 4)
  f ← get_elem? s (j + 5)
  g ← get_elem? s (j + 6)
  h ← get_elem? s (j + 7)
  some (from_lanes (get_lane (a ∷ b ∷ c ∷ d ∷ e ∷ f ∷ g ∷ h ∷ [])))
  where
    get_lane : List ℕ → ℕ → ℕ
    get_lane xs k = get_or xs k 0

-- Stream `k` at `j`, or zeros past the streams in use.
pub load_stream : ℕ → List (List ℕ) → ℕ → ℕ → Option M256
load_stream num_streams streams j k =
    if ltb k num_streams then get_elem? streams k >>= (λ s. load s j) else some setzero

-- Eight rows a round, while there are eight to come; then the scalar tail.
pub interleave_rounds : ℕ → List (List ℕ) → ℕ → ℕ → Option (List M256)
interleave_rounds num_streams streams (suc (suc (suc (suc (suc (suc (suc (suc count)))))))) j = do
  r0 ← load_stream num_streams streams j 0
  r1 ← load_stream num_streams streams j 1
  r2 ← load_stream num_streams streams j 2
  r3 ← load_stream num_streams streams j 3
  r4 ← load_stream num_streams streams j 4
  r5 ← load_stream num_streams streams j 5
  r6 ← load_stream num_streams streams j 6
  r7 ← load_stream num_streams streams j 7
  rows ← interleave_rounds num_streams streams count (j + 8)
  some (transpose_8x8 r0 r1 r2 r3 r4 r5 r6 r7 ++ rows)
interleave_rounds num_streams streams count j = interleave_rows num_streams streams count j

-- The test `j + 8 <= count` does not wrap where the indexes do not.
pub interleave_avx2 : ℕ → List (List ℕ) → ℕ → Option (List M256)
unfolding column interleave_rows transpose_8x8 load load_stream interleave_rounds
interleave_avx2 num_streams streams count =
    if are_indexed num_streams count then interleave_rounds num_streams streams count 0 else none

-- With nothing to do the output buffer keeps `out`, what it held.
unfoldable pub transpose_8xn : Isa → List (List ℕ) → List M256 → ℕ → ℕ → Option (List M256)
unfolding interleave_scalar interleave_avx2
transpose_8xn isa streams out num_streams count =
    if count == 0 || num_streams == 0 then some out else elim isa [
      | scalar ↦ interleave_scalar num_streams streams count
      | _ ↦ interleave_avx2 num_streams streams count
    ]

-- One row, handed out to the streams from `k` on.
pub cons_lanes : ℕ → M256 → List (List ℕ) → List (List ℕ)
cons_lanes k row [] = []
cons_lanes k row (s ∷ streams) = (lane k row ∷ s) ∷ cons_lanes (suc k) row streams

pub separate_rows : ℕ → List M256 → List (List ℕ)
separate_rows num_streams [] = replicate num_streams []
separate_rows num_streams (row ∷ rows) = cons_lanes 0 row (separate_rows num_streams rows)

pub separate_scalar : ℕ → List M256 → Option (List (List ℕ))
unfolding cons_lanes separate_rows
separate_scalar num_streams rows =
    if are_indexed num_streams (length rows) then some (separate_rows num_streams rows) else none

-- Register `k`, stored in front of stream `k`, for the streams in use.
pub store_each : List M256 → List (List ℕ) → List (List ℕ)
store_each [] streams = streams
store_each (r ∷ rs) [] = []
store_each (r ∷ rs) (s ∷ streams) = (to_list r ++ s) ∷ store_each rs streams

pub separate_rounds : ℕ → List M256 → List (List ℕ)
separate_rounds num_streams (r0 ∷ r1 ∷ r2 ∷ r3 ∷ r4 ∷ r5 ∷ r6 ∷ r7 ∷ rows) =
    store_each (transpose_8x8 r0 r1 r2 r3 r4 r5 r6 r7) (separate_rounds num_streams rows)
separate_rounds num_streams rows = separate_rows num_streams rows

pub separate_avx2 : ℕ → List M256 → Option (List (List ℕ))
unfolding cons_lanes separate_rows store_each transpose_8x8 separate_rounds
separate_avx2 num_streams rows =
    if are_indexed num_streams (length rows) then some (separate_rounds num_streams rows) else none

-- The streams in use, of as many entries as there are rows.
unfoldable pub transpose_nx8 : Isa → List M256 → ℕ → Option (List (List ℕ))
unfolding separate_scalar separate_avx2
transpose_nx8 isa rows num_streams =
    if length rows == 0 || num_streams == 0
    then some (replicate num_streams [])
    else elim isa [ scalar ↦ separate_scalar num_streams rows | _ ↦ separate_avx2 num_streams rows ]
