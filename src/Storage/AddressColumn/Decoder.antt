-- ===== src/Storage/AddressColumn/Decoder.antt =====
-- AddressColumn::Decode, DecodeBatchBlocks, DecodeMultiStream and DecodeSingleBlock. The entries are
-- written one after the other: `out` is what is written so far, and a write past `total_records`
-- is `none`. The spare entries of the work buffers, up to a multiple of 8, are left out: no kernel
-- touches them.
use vec_fetch.Prelude.{
  ℕ, zero, suc, ◌+◌, ◌-◌, ◌*◌, ◌||◌, List, [], ◌∷◌, ◌++◌, Option, none, some, ltb, leb, ◌==◌, not,
  if◌then◌else◌, ◌>>=◌, length, take, drop, get_or, get_elem?, replicate, u32, u64,
}
use vec_fetch.Types.{AddressEntry}
use vec_fetch.Status.{StatusOr, value, failed, invalid_argument_status, corruption_status}
use vec_fetch.Simd.Isa.{Isa}
use vec_fetch.Simd.Register.{setzero}
use vec_fetch.Simd.BitUnpack.{bit_unpack}
use vec_fetch.Simd.PrefixSum.{exclusive_prefix_sum, exclusive_prefix_sum_multi}
use vec_fetch.Simd.Transpose.{transpose_8xn, transpose_nx8}
use vec_fetch.Storage.AddressColumn.{
  AddressFormat, v1_packed, v2_raw_table, AddressColumnLayout, AddressBlock, EncodedAddressColumn,
  multi_stream_width, block_record_count,
}
use vec_fetch.Storage.AddressColumn.RawTable.{decode_raw_table_v2}

-- The loop that turns page units into bytes.
unfoldable pub materialize : ℕ → ℕ → List ℕ → List ℕ → List AddressEntry
materialize page_size base [] sizes = []
materialize page_size base (p ∷ prefix) [] = []
materialize page_size base (p ∷ prefix) (s ∷ sizes) =
    record { offset = u64 (u64 (base + p) * page_size); size = u32 (u64 (s * page_size)) }
    ∷ materialize page_size base prefix sizes

unfoldable pub decode_single_block :
    Isa → AddressColumnLayout → AddressBlock → ℕ → Option (List AddressEntry)
decode_single_block isa layout block record_count = if record_count == 0 then some [] else do
  sizes ← bit_unpack isa block.packed layout.bit_width record_count
  prefix ← exclusive_prefix_sum isa sizes
  some (materialize layout.page_size block.base_offset prefix sizes)

-- Phase 1: the streams of the blocks.
unfoldable pub unpack_streams : Isa → ℕ → ℕ → List AddressBlock → Option (List (List ℕ))
unpack_streams isa bit_width count [] = some []
unpack_streams isa bit_width count (block ∷ blocks) = do
  sizes ← bit_unpack isa block.packed bit_width count
  rest ← unpack_streams isa bit_width count blocks
  some (sizes ∷ rest)

-- Phase 5, over the blocks from stream `k` on.
unfoldable pub materialize_streams :
    ℕ → List AddressBlock → ℕ → List (List ℕ) → List (List ℕ) → List AddressEntry
materialize_streams page_size [] k prefixes streams = []
materialize_streams page_size (block ∷ blocks) k prefixes streams =
    materialize page_size block.base_offset (get_or prefixes k []) (get_or streams k [])
    ++ materialize_streams page_size blocks (k + 1) prefixes streams

-- Phases 2 to 5, on the eight streams. The interleaved buffers have `G * K` entries, a uint32_t: where
-- it wraps, the kernels write behind them.
unfoldable pub decode_streams :
    Isa → AddressColumnLayout → List AddressBlock → List (List ℕ) → Option (List AddressEntry)
decode_streams isa layout blocks streams =
    let num_blocks = length blocks in
    let count = layout.block_granularity in
    if ltb (u32 (count * multi_stream_width)) (count * multi_stream_width) then none else do
      sizes ← transpose_8xn isa streams (replicate count setzero) num_blocks count
      prefix ← exclusive_prefix_sum_multi isa sizes num_blocks (replicate count setzero)
      prefixes ← transpose_nx8 isa prefix num_blocks
      some (materialize_streams layout.page_size blocks 0 prefixes streams)

-- The stream buffers are eight: more blocks are out of bounds. The streams not in use are zeros.
unfoldable pub decode_multi_stream :
    Isa → AddressColumnLayout → List AddressBlock → Option (List AddressEntry)
unfolding decode_streams
decode_multi_stream isa layout blocks =
    let num_blocks = length blocks in
    let count = layout.block_granularity in
    if num_blocks == 0 then some [] else if ltb multi_stream_width num_blocks then none else do
      used ← unpack_streams isa layout.bit_width count blocks
      decode_streams isa layout blocks
          (used ++ replicate (multi_stream_width - num_blocks) (replicate count 0))

-- The loop over the batches of the regular blocks that are left. A batch takes one block at least:
-- as many rounds as blocks are enough. `out_offset` is a uint32_t.
unfoldable pub decode_batches :
    Isa
    → ℕ
    → AddressColumnLayout
    → ℕ
    → List AddressBlock
    → ℕ
    → List AddressEntry
    → Option (ℕ × List AddressEntry)
decode_batches isa fuel layout total_records [] out_offset out = some (out_offset, out)
decode_batches isa zero layout total_records (block ∷ blocks) out_offset out = none
decode_batches isa (suc fuel) layout total_records (block ∷ blocks) out_offset out = do
  let batch = take multi_stream_width (block ∷ blocks)
  entries ← decode_multi_stream isa layout batch
  let written = out ++ entries
  let next =
      decode_batches isa fuel layout total_records (drop multi_stream_width (block ∷ blocks))
        (u32 (out_offset + length batch * layout.block_granularity)) written
  if leb (length written) total_records then next else none

-- The tail block, behind the regular ones.
unfoldable pub decode_tail :
    Isa
    → AddressColumnLayout
    → List AddressBlock
    → ℕ
    → ℕ
    → ℕ
    → List AddressEntry
    → Option (ℕ × List AddressEntry)
decode_tail isa layout blocks tail_count total_records out_offset out = do
  last ← get_elem? blocks (length blocks - 1)
  tail_entries ← decode_single_block isa layout last tail_count
  let written = out ++ tail_entries
  if leb (length written) total_records then some (u32 (out_offset + tail_count), written) else none

-- The blocks of the column, the last by itself if it is shorter.
unfoldable pub decode_blocks :
    Isa → AddressColumnLayout → List AddressBlock → ℕ → Option (StatusOr (List AddressEntry))
decode_blocks isa layout blocks total_records = do
  let tail_count = block_record_count layout total_records (layout.num_address_blocks - 1)
  let has_separate_tail =
      ltb tail_count layout.block_granularity
      || not (layout.last_packed_size == layout.fixed_packed_size)
  let num_regular_blocks =
      if has_separate_tail then layout.num_address_blocks - 1 else layout.num_address_blocks
  (out_offset, out) ←
      decode_batches isa num_regular_blocks layout total_records (take num_regular_blocks blocks) 0
        []
  (out_offset', out') ←
      (if has_separate_tail
        then decode_tail isa layout blocks tail_count total_records out_offset out
        else some (out_offset, out))
  some (
      if out_offset' == total_records
      then value out'
      else failed (corruption_status "Decoded address count mismatch"))

unfoldable pub decode_batch_blocks :
    Isa → AddressColumnLayout → List AddressBlock → ℕ → Option (StatusOr (List AddressEntry))
decode_batch_blocks isa layout blocks total_records =
    if not (length blocks == layout.num_address_blocks)
    then some (failed (invalid_argument_status "Address block count does not match layout"))
    else if layout.num_address_blocks == 0
    then (if not (total_records == 0)
        then some (failed (corruption_status "Zero blocks with non-zero total_records"))
        else some (value []))
    else if layout.block_granularity == 0
    then some (failed (corruption_status "Invalid block granularity"))
    else decode_blocks isa layout blocks total_records

-- AddressColumn::Decode
unfoldable pub decode_format :
    Isa → EncodedAddressColumn → AddressFormat → Option (StatusOr (List AddressEntry))
decode_format isa column v2_raw_table = some (decode_raw_table_v2 column)
decode_format isa column v1_packed =
    decode_batch_blocks isa column.layout column.blocks column.total_records

unfoldable pub decode_column : Isa → EncodedAddressColumn → Option (StatusOr (List AddressEntry))
unfolding decode_format
decode_column isa column = decode_format isa column column.format
