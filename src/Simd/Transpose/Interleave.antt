-- ===== src/Simd/Transpose/Interleave.antt =====
-- Interleaving: lane `k` of row `j` is entry `j` of stream `k`, and zero past the streams in use.
use vec_fetch.Prelude.{
  ℕ, zero, suc, ◌+◌, ◌≤◌, ◌<◌, ◌≡◌, refl, ap, ◌∙◌, arith, List, [], ◌∷◌, some, length, get_or,
  get_elem?-eq-get_or, ltb, lt→ltb, le→ltb, if◌then◌else◌, suc-ne-zero, dec_lt, true, le→leb, ◌*◌,
  ◌^◌,
}
use vec_fetch.Simd.Isa.{Isa, scalar, avx2, avx512}
use vec_fetch.Simd.Register.{M256, lane, from_lanes}
use vec_fetch.Simd.Register.Lane.{lane-from_lanes, from_lanes_ext, stream}
use vec_fetch.Simd.Transpose.{
  column, are_indexed, interleave_rows, interleave_scalar, load, load_stream, interleave_rounds,
  interleave_avx2, transpose_8xn,
}
use vec_fetch.Simd.Transpose.Network.{transpose_8x8_lem}

-- Lane `k` of row `j`.
pub entry : ℕ → List (List ℕ) → ℕ → ℕ → ℕ
entry num streams j k = if ltb k num then get_or (get_or streams k []) j 0 else 0

abbrev pub row : ℕ → List (List ℕ) → ℕ → M256
row num streams j = from_lanes (entry num streams j)

abbrev pub rows : ℕ → List (List ℕ) → ℕ → ℕ → List M256
rows num streams zero j = []
rows num streams (suc count) j = row num streams j ∷ rows num streams count (j + 1)

-- The first `num` streams hold `n` entries at least.
unfoldable pub Hold : ℕ → List (List ℕ) → ℕ → Type 0
Hold num streams n = (k : ℕ) → k < num → (k < length streams) × (n ≤ length (get_or streams k []))

column_lem :
    (num : ℕ) (streams : List (List ℕ)) (j : ℕ)
    → Hold num streams (suc j)
    → (xs : List ℕ) × (column num streams j ≡ some xs)
      × ((k : ℕ) → get_or xs k 0 ≡ entry num streams j k)
unfolding column entry Hold
column_lem zero streams j h = ([], refl, λ k. ground arith)
column_lem (suc num) [] j h = absurd (omega (arith, (h 0 (omega arith)).0))
column_lem (suc num) (s ∷ streams) j h =
    let (xs, run, at) =
      column_lem num streams j (λ k p. let (a, b) = h (suc k) (omega arith) in (omega arith, b)) in
    (
      get_or s j 0 ∷ xs,
      rw (get_elem?-eq-get_or s j 0 (h 0 (omega arith)).1, run),
      elim [ zero ↦ ground arith | suc k ↦ ground (arith, at k) ],
    )

interleave_rows_lem :
    (count num : ℕ) (streams : List (List ℕ)) (j : ℕ)
    → Hold num streams (j + count)
    → interleave_rows num streams count j ≡ some (rows num streams count j)
unfolding interleave_rows
interleave_rows_lem zero num streams j h = refl
interleave_rows_lem (suc count) num streams j h =
    let (xs, run, at) =
      column_lem num streams j (unfold Hold in λ k p. let (a, b) = h k p in (a, omega arith)) in
    let e : j + suc count ≡ j + 1 + count = omega arith in
    let whole : from_lanes (λ k. get_or xs k 0) ≡ row num streams j =
      from_lanes_ext _ _ (λ k p. at k) in
    rw (run, interleave_rows_lem count num streams (j + 1) (rw e at h), whole)

load_lem :
    (s : List ℕ) (j : ℕ) → j + 8 ≤ length s → load s j ≡ some (from_lanes (λ i. get_or s (j + i) 0))
unfolding load
load_lem s j h =
    let at = λ (i : ℕ) (p : i < 8). get_elem?-eq-get_or s (j + i) 0 (omega arith) in
    rw (
      at 0 (omega arith),
      at 1 (omega arith),
      at 2 (omega arith),
      at 3 (omega arith),
      at 4 (omega arith),
      at 5 (omega arith),
      at 6 (omega arith),
      at 7 (omega arith),
    )

load_stream_lem :
    (num : ℕ) (streams : List (List ℕ)) (j k : ℕ)
    → Hold num streams (j + 8)
    → load_stream num streams j k ≡ some (from_lanes (λ i. entry num streams (j + i) k))
unfolding load_stream Hold
load_stream_lem num streams j k h = elim (dec_lt k num) [
  | yes p ↦
      let (a, b) = h k p in
      let used : (i : ℕ) → get_or (get_or streams k []) (j + i) 0 ≡ entry num streams (j + i) k =
        λ i. unfold entry in rw (lt→ltb k num p) in
      rw (lt→ltb k num p, get_elem?-eq-get_or streams k [] a, load_lem (get_or streams k []) j b)
        (ap some (from_lanes_ext _ (λ i. entry num streams (j + i) k) (λ i q. used i)))
  | no p ↦
      let unused : (i : ℕ) → 0 ≡ entry num streams (j + i) k =
        λ i. unfold entry in rw (le→ltb k num (omega arith)) in
      rw (le→ltb k num (omega arith))
        (ap some (from_lanes_ext (λ _. 0) (λ i. entry num streams (j + i) k) (λ i q. unused i)))
]

Hold-le :
    (num : ℕ) (streams : List (List ℕ)) (m n : ℕ) → m ≤ n → Hold num streams n → Hold num streams m
unfolding Hold
Hold-le num streams m n h hold k p = let (a, b) = hold k p in (a, omega arith)

interleave_rounds_lem :
    (count num : ℕ) (streams : List (List ℕ)) (j : ℕ)
    → Hold num streams (j + count)
    → interleave_rounds num streams count j ≡ some (rows num streams count j)
unfolding interleave_rounds
interleave_rounds_lem (suc (suc (suc (suc (suc (suc (suc (suc count)))))))) num streams j h =
    let e0 : j + 0 ≡ j = omega arith in
    let e2 : j + 1 + 1 ≡ j + 2 = omega arith in
    let e3 : j + 2 + 1 ≡ j + 3 = omega arith in
    let e4 : j + 3 + 1 ≡ j + 4 = omega arith in
    let e5 : j + 4 + 1 ≡ j + 5 = omega arith in
    let e6 : j + 5 + 1 ≡ j + 6 = omega arith in
    let e7 : j + 6 + 1 ≡ j + 7 = omega arith in
    let e8 : j + 7 + 1 ≡ j + 8 = omega arith in
    let at = λ (k : ℕ). load_stream_lem num streams j k (Hold-le num streams _ _ (omega arith) h) in
    let later =
      interleave_rounds_lem count num streams (j + 8) (Hold-le num streams _ _ (omega arith) h) in
    rw (
      at 0,
      at 1,
      at 2,
      at 3,
      at 4,
      at 5,
      at 6,
      at 7,
      later,
      transpose_8x8_lem,
      e0,
      e2,
      e3,
      e4,
      e5,
      e6,
      e7,
      e8,
    )
interleave_rounds_lem count num streams j h = interleave_rows_lem count num streams j h

pub are_indexed_lem : (num count : ℕ) → num ≤ 8 → count * 8 ≤ 2 ^ 32 → are_indexed num count ≡ true
unfolding are_indexed
are_indexed_lem num count h8 hi = rw (le→leb num 8 h8, le→leb (count * 8) (2 ^ 32) hi)

-- With every build, interleaving at least one and at most eight streams that hold `count` entries,
-- at least one and at most 2^29, stays inside the buffers, and row `j` holds entry `j` of each
-- stream, with zeros past the streams.
pub transpose_8xn_lem :
    (isa : Isa) (streams : List (List ℕ)) (out : List M256) (num count : ℕ)
    → 0 < num
    → num ≤ 8
    → 0 < count
    → count * 8 ≤ 2 ^ 32
    → Hold num streams count
    → transpose_8xn isa streams out num count ≡ some (rows num streams count 0)
unfolding transpose_8xn interleave_scalar interleave_avx2
transpose_8xn_lem isa streams out zero count hn h8 hc hi h = absurd (omega arith)
transpose_8xn_lem isa streams out (suc num) zero hn h8 hc hi h = absurd (omega arith)
transpose_8xn_lem scalar streams out (suc num) (suc count) hn h8 hc hi h =
    rw (suc-ne-zero count, suc-ne-zero num, are_indexed_lem (suc num) (suc count) h8 hi)
      (interleave_rows_lem (suc count) (suc num) streams 0
        (Hold-le (suc num) streams _ _ (omega arith) h))
transpose_8xn_lem avx2 streams out (suc num) (suc count) hn h8 hc hi h =
    rw (suc-ne-zero count, suc-ne-zero num, are_indexed_lem (suc num) (suc count) h8 hi)
      (interleave_rounds_lem (suc count) (suc num) streams 0
        (Hold-le (suc num) streams _ _ (omega arith) h))
transpose_8xn_lem avx512 streams out (suc num) (suc count) hn h8 hc hi h =
    rw (suc-ne-zero count, suc-ne-zero num, are_indexed_lem (suc num) (suc count) h8 hi)
      (interleave_rounds_lem (suc count) (suc num) streams 0
        (Hold-le (suc num) streams _ _ (omega arith) h))

-- Stream `k` of the rows is stream `k`.
reads : List ℕ → ℕ → ℕ → List ℕ
reads s zero j = []
reads s (suc n) j = get_or s j 0 ∷ reads s n (j + 1)

reads-cons : (x : ℕ) (s : List ℕ) (n j : ℕ) → reads (x ∷ s) n (suc j) ≡ reads s n j
unfolding reads
reads-cons x s zero j = refl
reads-cons x s (suc n) j =
    let e : suc j + 1 ≡ suc (j + 1) = omega arith in rw (e, reads-cons x s n (j + 1))

reads_all : (s : List ℕ) → reads s (length s) 0 ≡ s
unfolding reads
reads_all [] = refl
reads_all (x ∷ s) =
    let e : 0 + 1 ≡ suc 0 = omega arith in
    ap (λ (l : List ℕ). x ∷ l)
      (ap (reads (x ∷ s) (length s)) e ∙ reads-cons x s (length s) 0 ∙ reads_all s)

stream-rows :
    (num : ℕ) (streams : List (List ℕ)) (count j k : ℕ)
    → k < num
    → k < 8
    → stream k (rows num streams count j) ≡ reads (get_or streams k []) count j
unfolding reads
stream-rows num streams zero j k h h8 = refl
stream-rows num streams (suc count) j k h h8 =
    let at : lane k (row num streams j) ≡ get_or (get_or streams k []) j 0 =
      lane-from_lanes (entry num streams j) k h8 ∙ unfold entry in rw (lt→ltb k num h) in
    rw (at, stream-rows num streams count (j + 1) k h h8)

pub stream-rows_all :
    (num : ℕ) (streams : List (List ℕ)) (count k : ℕ)
    → k < num
    → k < 8
    → length (get_or streams k []) ≡ count
    → stream k (rows num streams count 0) ≡ get_or streams k []
stream-rows_all num streams count k h h8 e =
    stream-rows num streams count 0 k h h8 ∙ rw (← e) (reads_all (get_or streams k []))

pub length-rows :
    (num : ℕ) (streams : List (List ℕ)) (count j : ℕ) → length (rows num streams count j) ≡ count
length-rows num streams zero j = refl
length-rows num streams (suc count) j = ap suc (length-rows num streams count (j + 1))
