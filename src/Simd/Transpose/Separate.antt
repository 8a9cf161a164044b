-- ===== src/Simd/Transpose/Separate.antt =====
-- Separating: stream `k` is lane `k` of every row.
use vec_fetch.Prelude.{
  ℕ, zero, suc, ◌+◌, ◌≤◌, ◌<◌, ◌≡◌, refl, ap, ◌∙◌, arith, List, [], ◌∷◌, ◌++◌, length, get_or,
  replicate, suc-ne-zero, some, ◌*◌, ◌^◌,
}
use vec_fetch.Simd.Isa.{Isa, scalar, avx2, avx512}
use vec_fetch.Simd.Register.{M256, to_list, lane}
use vec_fetch.Simd.Register.Lane.{each_lane, stream}
use vec_fetch.Simd.Transpose.Interleave.{are_indexed_lem}
use vec_fetch.Simd.Transpose.{
  transpose_8x8, cons_lanes, separate_rows, separate_scalar, store_each, separate_rounds,
  separate_avx2, transpose_nx8,
}

get_or-cons_lanes :
    (i : ℕ) (row : M256) (streams : List (List ℕ)) (k : ℕ)
    → k < length streams
    → get_or (cons_lanes i row streams) k [] ≡ lane (i + k) row ∷ get_or streams k []
unfolding cons_lanes
get_or-cons_lanes i row [] k h = absurd (omega arith)
get_or-cons_lanes i row (s ∷ streams) zero h = let e : i + 0 ≡ i = omega arith in rw e
get_or-cons_lanes i row (s ∷ streams) (suc k) h =
    let e : i + suc k ≡ suc i + k = omega arith in
    rw e (get_or-cons_lanes (suc i) row streams k (omega arith))

length-cons_lanes :
    (i : ℕ) (row : M256) (streams : List (List ℕ))
    → length (cons_lanes i row streams) ≡ length streams
unfolding cons_lanes
length-cons_lanes i row [] = refl
length-cons_lanes i row (s ∷ streams) = ap suc (length-cons_lanes (suc i) row streams)

get_or-replicate : (n k : ℕ) → get_or (replicate {A = List ℕ} n []) k [] ≡ []
get_or-replicate zero k = refl
get_or-replicate (suc n) zero = refl
get_or-replicate (suc n) (suc k) = get_or-replicate n k

length-separate_rows : (num : ℕ) (rows : List M256) → length (separate_rows num rows) ≡ num
unfolding separate_rows
length-separate_rows zero [] = refl
length-separate_rows (suc num) [] = ap suc (length-separate_rows num [])
length-separate_rows num (row ∷ rows) =
    length-cons_lanes 0 row (separate_rows num rows) ∙ length-separate_rows num rows

separate_rows_lem :
    (num : ℕ) (rows : List M256) (k : ℕ)
    → k < num
    → get_or (separate_rows num rows) k [] ≡ stream k rows
unfolding separate_rows
separate_rows_lem num [] k h = get_or-replicate num k
separate_rows_lem num (row ∷ rows) k h =
    let e : 0 + k ≡ k = omega arith in
    rw (
      get_or-cons_lanes 0 row (separate_rows num rows) k (rw length-separate_rows h),
      e,
      separate_rows_lem num rows k h,
    )

length-store_each :
    (rs : List M256) (streams : List (List ℕ)) → length (store_each rs streams) ≡ length streams
unfolding store_each
length-store_each [] streams = refl
length-store_each (r ∷ rs) [] = refl
length-store_each (r ∷ rs) (s ∷ streams) = ap suc (length-store_each rs streams)

get_or-store_each :
    (rs : List M256) (d : M256) (streams : List (List ℕ)) (k : ℕ)
    → k < length rs
    → k < length streams
    → get_or (store_each rs streams) k [] ≡ to_list (get_or rs k d) ++ get_or streams k []
unfolding store_each
get_or-store_each [] d streams k h p = absurd (omega arith)
get_or-store_each (r ∷ rs) d [] k h p = absurd (omega arith)
get_or-store_each (r ∷ rs) d (s ∷ streams) zero h p = refl
get_or-store_each (r ∷ rs) d (s ∷ streams) (suc k) h p =
    get_or-store_each rs d streams k (omega arith) (omega arith)

-- Register `k` of the network holds lane `k` of its eight rows.
network_stream :
    (r0 r1 r2 r3 r4 r5 r6 r7 : M256) (k : ℕ)
    → k < 8
    → to_list (get_or (transpose_8x8 r0 r1 r2 r3 r4 r5 r6 r7) k r0)
      ≡ stream k (r0 ∷ r1 ∷ r2 ∷ r3 ∷ r4 ∷ r5 ∷ r6 ∷ r7 ∷ [])
unfolding transpose_8x8
network_stream r0 r1 r2 r3 r4 r5 r6 r7 =
    each_lane
      (λ k.
        to_list (get_or (transpose_8x8 r0 r1 r2 r3 r4 r5 r6 r7) k r0)
        ≡ stream k (r0 ∷ r1 ∷ r2 ∷ r3 ∷ r4 ∷ r5 ∷ r6 ∷ r7 ∷ []))
      refl refl refl refl refl refl refl refl

length-separate_rounds : (num : ℕ) (rows : List M256) → length (separate_rounds num rows) ≡ num
unfolding separate_rounds
length-separate_rounds num (r0 ∷ r1 ∷ r2 ∷ r3 ∷ r4 ∷ r5 ∷ r6 ∷ r7 ∷ rows) =
    length-store_each _ (separate_rounds num rows) ∙ length-separate_rounds num rows
length-separate_rounds num rows = length-separate_rows num rows

separate_rounds_lem :
    (num : ℕ) (rows : List M256) (k : ℕ)
    → k < num
    → num ≤ 8
    → get_or (separate_rounds num rows) k [] ≡ stream k rows
unfolding separate_rounds
separate_rounds_lem num (r0 ∷ r1 ∷ r2 ∷ r3 ∷ r4 ∷ r5 ∷ r6 ∷ r7 ∷ rows) k h hn =
    get_or-store_each (transpose_8x8 r0 r1 r2 r3 r4 r5 r6 r7) r0 (separate_rounds num rows) k
      (unfold transpose_8x8 in omega arith) (rw length-separate_rounds h)
    ∙ rw (separate_rounds_lem num rows k h hn) (
        ap (λ (l : List ℕ). l ++ stream k rows)
          (network_stream r0 r1 r2 r3 r4 r5 r6 r7 k (omega arith)))
separate_rounds_lem num rows k h hn = separate_rows_lem num rows k h

-- With every build, separating at least one and at most 2^29 rows into at least one and at most eight
-- streams stays inside the buffers and gives, as stream `k`, lane `k` of every row.
pub transpose_nx8_lem :
    (isa : Isa) (rows : List M256) (num : ℕ)
    → 0 < num
    → num ≤ 8
    → 0 < length rows
    → length rows * 8 ≤ 2 ^ 32
    → (streams : List (List ℕ)) × (transpose_nx8 isa rows num ≡ some streams)
      × ((k : ℕ) → k < num → get_or streams k [] ≡ stream k rows)
unfolding transpose_nx8 separate_scalar separate_avx2
transpose_nx8_lem isa [] num hn h8 hr hi = absurd (omega arith)
transpose_nx8_lem isa (row ∷ rows) zero hn h8 hr hi = absurd (omega arith)
transpose_nx8_lem scalar (row ∷ rows) (suc num) hn h8 hr hi = (
  separate_rows (suc num) (row ∷ rows),
  rw (
    suc-ne-zero (length rows),
    suc-ne-zero num,
    are_indexed_lem (suc num) (length (row ∷ rows)) h8 hi,
  ),
  λ k h. separate_rows_lem (suc num) (row ∷ rows) k h,
)
transpose_nx8_lem avx2 (row ∷ rows) (suc num) hn h8 hr hi = (
  separate_rounds (suc num) (row ∷ rows),
  rw (
    suc-ne-zero (length rows),
    suc-ne-zero num,
    are_indexed_lem (suc num) (length (row ∷ rows)) h8 hi,
  ),
  λ k h. separate_rounds_lem (suc num) (row ∷ rows) k h h8,
)
transpose_nx8_lem avx512 (row ∷ rows) (suc num) hn h8 hr hi = (
  separate_rounds (suc num) (row ∷ rows),
  rw (
    suc-ne-zero (length rows),
    suc-ne-zero num,
    are_indexed_lem (suc num) (length (row ∷ rows)) h8 hi,
  ),
  λ k h. separate_rounds_lem (suc num) (row ∷ rows) k h h8,
)
