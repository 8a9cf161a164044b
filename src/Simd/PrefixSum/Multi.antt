-- ===== src/Simd/PrefixSum/Multi.antt =====
-- The multi-stream kernels sum each stream by itself.
use vec_fetch.Prelude.{
  ℕ, zero, suc, ◌+◌, ◌≤◌, ◌<◌, ◌≡◌, refl, ap, ◌∙◌, arith, List, [], ◌∷◌, u32, length, ltb, lt→ltb,
  le→leb, ◌*◌, ◌^◌, some, if◌then◌else◌, suc-ne-zero,
}
use vec_fetch.Simd.Isa.{Isa, scalar, avx2, avx512}
use vec_fetch.Simd.Register.{M256, setzero, add_epi32, lane}
use vec_fetch.Simd.Register.Lane.{lane-from_lanes, lane-add_epi32, lane-setzero, stream}
use vec_fetch.Simd.PrefixSum.{
  prefix_sum_scalar, prefix_row_out, prefix_row_running, prefix_sum_rows, prefix_sum_multi_scalar,
  prefix_sum_registers, prefix_sum_multi_avx2, exclusive_prefix_sum_multi,
}

prefix_sum_registers_lem :
    (rows : List M256) (running : M256) (k : ℕ)
    → k < 8
    → stream k (prefix_sum_registers running rows)
      ≡ prefix_sum_scalar (lane k running) (stream k rows)
unfolding prefix_sum_registers prefix_sum_scalar
prefix_sum_registers_lem [] running k h = refl
prefix_sum_registers_lem (row ∷ rows) running k h =
    rw (prefix_sum_registers_lem rows (add_epi32 running row) k h, lane-add_epi32 running row k h)

prefix_sum_rows_lem :
    (rows : List M256) (num : ℕ) (running : M256) (k : ℕ)
    → k < num
    → num ≤ 8
    → stream k (prefix_sum_rows num running rows)
      ≡ prefix_sum_scalar (lane k running) (stream k rows)
unfolding prefix_sum_rows prefix_sum_scalar
prefix_sum_rows_lem [] num running k h hn = refl
prefix_sum_rows_lem (row ∷ rows) num running k h hn =
    let out : lane k (prefix_row_out num running) ≡ lane k running =
      unfold prefix_row_out in
      lane-from_lanes (λ j. if ltb j num then lane j running else 0) k (omega arith)
      ∙ rw (lt→ltb k num h) in
    let next : lane k (prefix_row_running num running row) ≡ u32 (lane k running + lane k row) =
      unfold prefix_row_running in
      lane-from_lanes (λ j. if ltb j num then u32 (lane j running + lane j row) else lane j running)
        k (omega arith)
      ∙ rw (lt→ltb k num h) in
    rw (prefix_sum_rows_lem rows num (prefix_row_running num running row) k h hn, out, next)

-- What the kernels compute for stream `k`.
summed :
    (rows sums : List M256) (k : ℕ)
    → stream k sums ≡ prefix_sum_scalar (lane k setzero) (stream k rows)
    → k < 8
    → stream k sums ≡ prefix_sum_scalar 0 (stream k rows)
summed rows sums k run h =
    run ∙ ap (λ (s : ℕ). prefix_sum_scalar s (stream k rows)) (lane-setzero k h)

-- With every build, on at least one and at most 2^29 rows and at least one and at most eight streams,
-- the kernel stays inside its buffers, and each of the streams in use comes out as the scalar kernel
-- sums it.
pub prefix_sum_multi_lem :
    (isa : Isa) (rows : List M256) (num : ℕ) (out : List M256)
    → 0 < num
    → num ≤ 8
    → 0 < length rows
    → length rows * 8 ≤ 2 ^ 32
    → (sums : List M256) × (exclusive_prefix_sum_multi isa rows num out ≡ some sums)
      × ((k : ℕ) → k < num → stream k sums ≡ prefix_sum_scalar 0 (stream k rows))
unfolding exclusive_prefix_sum_multi prefix_sum_multi_scalar prefix_sum_multi_avx2
prefix_sum_multi_lem isa [] num out h hn hr hi = absurd (omega arith)
prefix_sum_multi_lem isa (row ∷ rows) zero out h hn hr hi = absurd (omega arith)
prefix_sum_multi_lem scalar (row ∷ rows) (suc num) out h hn hr hi = (
  prefix_sum_rows (suc num) setzero (row ∷ rows),
  rw (
    suc-ne-zero (length rows),
    suc-ne-zero num,
    le→leb (suc num) 8 hn,
    le→leb (length (row ∷ rows) * 8) (2 ^ 32) hi,
  ),
  λ k q.
      summed (row ∷ rows) (prefix_sum_rows (suc num) setzero (row ∷ rows)) k
        (prefix_sum_rows_lem (row ∷ rows) (suc num) setzero k q hn) (omega arith),
)
prefix_sum_multi_lem avx2 (row ∷ rows) (suc num) out h hn hr hi = (
  prefix_sum_registers setzero (row ∷ rows),
  rw (suc-ne-zero (length rows), suc-ne-zero num, le→leb (length (row ∷ rows) * 8) (2 ^ 32) hi),
  λ k q.
      summed (row ∷ rows) (prefix_sum_registers setzero (row ∷ rows)) k
        (prefix_sum_registers_lem (row ∷ rows) setzero k (omega arith)) (omega arith),
)
prefix_sum_multi_lem avx512 (row ∷ rows) (suc num) out h hn hr hi = (
  prefix_sum_registers setzero (row ∷ rows),
  rw (suc-ne-zero (length rows), suc-ne-zero num, le→leb (length (row ∷ rows) * 8) (2 ^ 32) hi),
  λ k q.
      summed (row ∷ rows) (prefix_sum_registers setzero (row ∷ rows)) k
        (prefix_sum_registers_lem (row ∷ rows) setzero k (omega arith)) (omega arith),
)
