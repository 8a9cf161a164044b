-- ===== src/Storage/AddressColumn/DecodeStreams.antt =====
-- Decoding a batch of up to eight blocks by the multi-stream pipeline.
use vec_fetch.Prelude.{
  ℕ, zero, suc, ◌+◌, ◌-◌, ◌≤◌, ◌<◌, ◌≡◌, refl, sym, ap, ◌∙◌, arith, List, [], ◌∷◌, ◌++◌, some, map,
  length, get_or, get_or-append, u32, ltb, false, ◌*◌, le→ltb, suc-ne-zero, replicate, length-map,
  length-append,
}
use native.Mathlib.Nat.{mod-eq_of_lt}
use vec_fetch.Simd.Isa.{Isa}
use vec_fetch.Simd.Register.{M256, setzero, lane}
use vec_fetch.Simd.Register.Lane.{stream}
use vec_fetch.Simd.PrefixSum.{prefix_sum_scalar}
use vec_fetch.Simd.PrefixSum.Single.{partial_sums, length-partial_sums, prefix_sum_scalar_lem}
use vec_fetch.Simd.PrefixSum.Multi.{prefix_sum_multi_lem}
use vec_fetch.Simd.Transpose.Interleave.{
  Hold, rows, transpose_8xn_lem, stream-rows_all, length-rows,
}
use vec_fetch.Simd.Transpose.Separate.{transpose_nx8_lem}
use vec_fetch.Storage.AddressColumn.{AddressBlock, AddressColumnLayout}
use vec_fetch.Storage.AddressColumn.Decoder.{
  materialize, materialize_streams, decode_streams, decode_multi_stream,
}
use vec_fetch.Storage.AddressColumn.Blocks.{
  sum, entries_at, entries_at-append, materialize_lem, IsBlock, concat, IsRun,
}
use vec_fetch.Storage.AddressColumn.DecodeBlock.{Within, Within-cons, unpack_streams_lem}

-- Stream `k` and its prefix sums, for each block.
materialize_streams_lem :
    (w g ps p k : ℕ) (cs : List (List ℕ)) (bs : List AddressBlock)
    (prefixes streams : List (List ℕ))
    → IsRun w g p cs bs
    → Within w g ps p cs
    → ((i : ℕ) → i < length cs → get_or streams (k + i) [] ≡ get_or cs i [])
    → ((i : ℕ)
        → i < length cs
        → get_or prefixes (k + i) [] ≡ map u32 (partial_sums 0 (get_or cs i [])))
    → materialize_streams ps bs k prefixes streams ≡ entries_at ps p (concat cs)
unfolding materialize_streams IsRun concat
materialize_streams_lem w g ps p k [] [] prefixes streams r h hs hp = unfold entries_at in refl
materialize_streams_lem w g ps p k [] (b ∷ bs) prefixes streams r h hs hp = absurd r
materialize_streams_lem w g ps p k (c ∷ cs) [] prefixes streams r h hs hp = absurd r
materialize_streams_lem w g ps p k (c ∷ cs) (b ∷ bs) prefixes streams (block, full, r) h hs hp =
    let (fc, tc, later) = Within-cons w g ps p c cs h in
    let here : k + 0 ≡ k = omega arith in
    let start : p + 0 ≡ p = omega arith in
    let stream_here : get_or streams k [] ≡ c = rw here at (hs 0 (omega arith)) in
    let prefix_here : get_or prefixes k [] ≡ map u32 (partial_sums 0 c) =
      rw here at (hp 0 (omega arith)) in
    let first : materialize ps p (map u32 (partial_sums 0 c)) c ≡ entries_at ps p c =
      rw start at (materialize_lem ps p 0 c (rw start tc)) in
    let next = λ (i : ℕ). let e : k + 1 + i ≡ k + suc i = omega arith in e in
    let rest : materialize_streams ps bs (k + 1) prefixes streams
        ≡ entries_at ps (p + sum c) (concat cs) =
      materialize_streams_lem w g ps (p + sum c) (k + 1) cs bs prefixes streams r later
        (λ i q. rw (next i) (hs (suc i) (omega arith)))
        (λ i q. rw (next i) (hp (suc i) (omega arith))) in
    rw (b_base block, stream_here, prefix_here, first, rest, entries_at-append ps p c (concat cs))
  where
    b_base : IsBlock w p c b → b.base_offset ≡ p
    b_base q = q.base

length-run :
    (w g p : ℕ) (cs : List (List ℕ)) (bs : List AddressBlock)
    → IsRun w g p cs bs
    → length cs ≡ length bs
unfolding IsRun
length-run w g p [] [] r = refl
length-run w g p [] (b ∷ bs) r = absurd r
length-run w g p (c ∷ cs) [] r = absurd r
length-run w g p (c ∷ cs) (b ∷ bs) (block, full, r) = ap suc (length-run w g (p + sum c) cs bs r)

run_full :
    (w g p : ℕ) (cs : List (List ℕ)) (bs : List AddressBlock) (k : ℕ)
    → IsRun w g p cs bs
    → k < length cs
    → length (get_or cs k []) ≡ g
unfolding IsRun
run_full w g p [] bs k r h = absurd (omega arith)
run_full w g p (c ∷ cs) [] k r h = absurd r
run_full w g p (c ∷ cs) (b ∷ bs) zero (block, full, r) h = full
run_full w g p (c ∷ cs) (b ∷ bs) (suc k) (block, full, r) h =
    run_full w g (p + sum c) cs bs k r (omega arith)

Hold-streams :
    (g num : ℕ) (cs pad : List (List ℕ))
    → length cs ≡ num
    → ((i : ℕ) → i < num → length (get_or cs i []) ≡ g)
    → Hold num (cs ++ pad) g
unfolding Hold
Hold-streams g num cs pad e full k h = (
  omega (arith, length-append cs pad),
  rw (get_or-append cs pad k [] (omega arith)) (omega (arith, full k h)),
)

-- A stream that comes out as the sums of the stream that went in.
summed_stream :
    (g num k : ℕ) (cs : List (List ℕ)) (ins sums : List M256)
    → stream k sums ≡ prefix_sum_scalar 0 (stream k ins)
    → stream k ins ≡ get_or cs k []
    → length (get_or cs k []) ≡ g
    → (stream k sums ≡ map u32 (partial_sums 0 (get_or cs k []))) × (length sums ≡ g)
summed_stream g num k cs ins sums run fed full =
    let summed : stream k sums ≡ map u32 (partial_sums 0 (get_or cs k [])) =
      run ∙ ap (prefix_sum_scalar 0) fed ∙ prefix_sum_scalar_lem (get_or cs k []) 0 in
    (
      summed,
      sym (length-map (lane k) sums)
          ∙ ap length summed
          ∙ length-map u32 (partial_sums 0 (get_or cs k []))
          ∙ length-partial_sums 0 (get_or cs k [])
          ∙ full,
    )

-- The phases after the first, on at most eight streams of `g` values.
decode_streams_lem :
    (isa : Isa) (layout : AddressColumnLayout) (p : ℕ) (cs pad : List (List ℕ))
    (bs : List AddressBlock)
    → IsRun layout.bit_width layout.block_granularity p cs bs
    → Within layout.bit_width layout.block_granularity layout.page_size p cs
    → 0 < length bs
    → length bs ≤ 8
    → decode_streams isa layout bs (cs ++ pad) ≡ some (entries_at layout.page_size p (concat cs))
unfolding decode_streams
decode_streams_lem isa layout p cs pad bs r h hn h8 =
    let w = layout.bit_width in
    let g = layout.block_granularity in
    let num = length bs in
    let out : List M256 = replicate g setzero in
    let same = length-run w g p cs bs r in
    let full = λ (i : ℕ) (q : i < num). run_full w g p cs bs i r (omega arith) in
    let from_zero = λ (i : ℕ). let e : 0 + i ≡ i = omega arith in e in
    let ins = rows num (cs ++ pad) g 0 in
    let ins_long : length ins ≡ g = length-rows num (cs ++ pad) g 0 in
    let room : ltb (u32 (g * 8)) (g * 8) ≡ false =
      le→ltb (u32 (g * 8)) (g * 8) (omega (arith, mod-eq_of_lt {n = g * 8} h.2.1)) in
    let fed = λ (k : ℕ) (q : k < num).
      let own = get_or-append cs pad k [] (omega arith) in
      stream-rows_all num (cs ++ pad) g k q (omega arith) (ap length own ∙ full k q) ∙ own in
    let (sums, run, sum_of) =
      prefix_sum_multi_lem isa ins num out hn h8 (omega (arith, h.1)) (omega (arith, h.2.1)) in
    let summed = λ (k : ℕ) (q : k < num).
      summed_stream g num k cs ins sums (sum_of k q) (fed k q) (full k q) in
    let long : length sums ≡ g = (summed 0 hn).1 in
    let (prefixes, separated, stream_of) =
      transpose_nx8_lem isa sums num hn h8 (omega (arith, h.1)) (omega (arith, h.2.1)) in
    rw
      (
        room,
        transpose_8xn_lem isa (cs ++ pad) out num g hn h8 h.1 (omega (arith, h.2.1))
            (Hold-streams g num cs pad same full),
        run,
        separated,
      )
      (ap some (
        materialize_streams_lem w g layout.page_size p 0 cs bs prefixes (cs ++ pad) r h
          (λ i q. rw (from_zero i) (get_or-append cs pad i [] q))
          (λ i q. rw (from_zero i) (stream_of i (omega arith) ∙ (summed i (omega arith)).0))))

-- The eight-stream pipeline, on at most eight full blocks that hold consecutive records, stays inside
-- its buffers and gives the records of the blocks in order, with every kernel: for blocks of at least
-- one record and a width of at most 32 bits that holds the page counts, if the bits of a block and
-- eight times its records fit 32 bits. The page size is positive and fits 32 bits, a size and a page
-- together take at most 2^32 bytes, and the last page number fits 32 bits.
pub decode_multi_stream_lem :
    (isa : Isa) (layout : AddressColumnLayout) (p : ℕ) (cs : List (List ℕ)) (bs : List AddressBlock)
    → IsRun layout.bit_width layout.block_granularity p cs bs
    → Within layout.bit_width layout.block_granularity layout.page_size p cs
    → length bs ≤ 8
    → decode_multi_stream isa layout bs ≡ some (entries_at layout.page_size p (concat cs))
unfolding decode_multi_stream
decode_multi_stream_lem isa layout p [] [] r h h8 = unfold concat entries_at in refl
decode_multi_stream_lem isa layout p cs (b ∷ bs) r h h8 =
    let w = layout.bit_width in
    let g = layout.block_granularity in
    let num = length (b ∷ bs) in
    rw
      (
        suc-ne-zero (length bs),
        le→ltb 8 num h8,
        unpack_streams_lem isa w g layout.page_size p cs (b ∷ bs) r h,
      )
      (decode_streams_lem isa layout p cs (replicate (8 - num) (replicate g 0)) (b ∷ bs) r h
        (omega arith) h8)
decode_multi_stream_lem isa layout p (c ∷ cs) [] r h h8 = absurd (unfold IsRun in r)
