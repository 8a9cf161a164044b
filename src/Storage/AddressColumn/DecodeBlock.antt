-- ===== src/Storage/AddressColumn/DecodeBlock.antt =====
-- Decoding a block: its page counts, and the records that it stands for.
use vec_fetch.Prelude.{
  ℕ, ◌+◌, ◌*◌, ◌^◌, ◌≤◌, ◌<◌, ◌≡◌, refl, ap, ◌∙◌, arith, List, [], ◌∷◌, some, length, suc-ne-zero,
}
use vec_fetch.Simd.Isa.{Isa}
use vec_fetch.Simd.BitUnpack.{bit_unpack}
use vec_fetch.Simd.BitUnpack.Kernels.{bit_unpack_reads_fields}
use vec_fetch.Simd.PrefixSum.Single.{exclusive_prefix_sum_lem}
use vec_fetch.Codec.Bitpack.Width.{Fits}
use vec_fetch.Codec.Bitpack.RoundTrip.{fields-packed_value}
use vec_fetch.Storage.AddressColumn.{AddressBlock, AddressColumnLayout}
use vec_fetch.Storage.AddressColumn.Decoder.{decode_single_block, unpack_streams}
use vec_fetch.Storage.AddressColumn.Blocks.{
  sum, entries_at, Fitting, Fitting-append, Fits-append, materialize_lem, IsBlock, concat, IsRun,
}

-- The kernel reads a block's page counts back.
unpack_block :
    (isa : Isa) (w p : ℕ) (sizes : List ℕ) (block : AddressBlock)
    → IsBlock w p sizes block
    → w ≤ 32
    → Fits w sizes
    → length sizes * w < 2 ^ 32
    → bit_unpack isa block.packed w (length sizes) ≡ some sizes
unpack_block isa w p sizes block b hw hf hl =
    bit_unpack_reads_fields isa block.packed w (length sizes) b.bytes hw b.room hl
    ∙ rw (b.bits, fields-packed_value sizes w hf)

pub decode_single_block_lem :
    (isa : Isa) (layout : AddressColumnLayout) (p : ℕ) (sizes : List ℕ) (block : AddressBlock)
    → IsBlock layout.bit_width p sizes block
    → layout.bit_width ≤ 32
    → Fits layout.bit_width sizes
    → length sizes * layout.bit_width < 2 ^ 32
    → length sizes + 8 < 2 ^ 32
    → Fitting layout.page_size p sizes
    → decode_single_block isa layout block (length sizes)
      ≡ some (entries_at layout.page_size p sizes)
unfolding decode_single_block
decode_single_block_lem isa layout p [] block b hw hf hl hn f = unfold entries_at in refl
decode_single_block_lem isa layout p (s ∷ sizes) block b hw hf hl hn f =
    let zero_prefix : p + 0 ≡ p = omega arith in
    rw
      (
        suc-ne-zero (length sizes),
        unpack_block isa layout.bit_width p (s ∷ sizes) block b hw hf hl,
        exclusive_prefix_sum_lem isa (s ∷ sizes) hn,
        b.base,
      )
      (ap some
        (rw zero_prefix at (materialize_lem layout.page_size p 0 (s ∷ sizes) (rw zero_prefix f))))

-- What the batch decoder needs of the page counts of its blocks.
abbrev pub Within : ℕ → ℕ → ℕ → ℕ → List (List ℕ) → Type 0
Within w g ps p cs =
    (w ≤ 32)
    × (0 < g)
    × ((g * w < 2 ^ 32) × (g * 8 < 2 ^ 32))
    × Fits w (concat cs)
    × Fitting ps p (concat cs)

pub Within-cons :
    (w g ps p : ℕ) (c : List ℕ) (cs : List (List ℕ))
    → Within w g ps p (c ∷ cs)
    → Fits w c × Fitting ps p c × Within w g ps (p + sum c) cs
unfolding concat
Within-cons w g ps p c cs (hw, hg, hl, hf, f) =
    let (fc, fcs) = Fits-append w c (concat cs) hf in
    let (tc, tcs) = Fitting-append ps p c (concat cs) f in (fc, tc, (hw, hg, hl, fcs, tcs))

pub unpack_streams_lem :
    (isa : Isa) (w g ps p : ℕ) (cs : List (List ℕ)) (bs : List AddressBlock)
    → IsRun w g p cs bs
    → Within w g ps p cs
    → unpack_streams isa w g bs ≡ some cs
unfolding unpack_streams IsRun
unpack_streams_lem isa w g ps p [] [] r h = refl
unpack_streams_lem isa w g ps p [] (b ∷ bs) r h = absurd r
unpack_streams_lem isa w g ps p (c ∷ cs) [] r h = absurd r
unpack_streams_lem isa w g ps p (c ∷ cs) (b ∷ bs) (block, full, r) h =
    let (fc, tc, later) = Within-cons w g ps p c cs h in
    let read : bit_unpack isa b.packed w g ≡ some c =
      rw full at (unpack_block isa w p c b block h.0 fc (rw full h.2.0)) in
    rw (read, unpack_streams_lem isa w g ps (p + sum c) cs bs r later)
