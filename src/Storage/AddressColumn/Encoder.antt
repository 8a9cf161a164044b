-- ===== src/Storage/AddressColumn/Encoder.antt =====
-- AddressColumn::Encode and its helpers.
use vec_fetch.Prelude.{
  ℕ, zero, suc, ◌+◌, ◌-◌, ◌*◌, ◌/◌, List, [], ◌∷◌, ◌++◌, Option, some, ltb, ◌==◌, if◌then◌else◌,
  ◌>>=◌, min, max, length, take, drop, get_elem?, replicate, u8, u32, u64, u32_max,
}
use vec_fetch.Types.{AddressEntry}
use vec_fetch.Codec.Bitpack.{compute_min_bit_width, encode}
use vec_fetch.Storage.AddressColumn.{
  v1_packed, AddressColumnLayout, AddressBlock, EncodedAddressColumn, default_fixed_packed_size,
  quotient,
}

-- `(size + page_size - 1) / page_size` in 32 bits.
unfoldable pub page_sizes : List AddressEntry → ℕ → Option (List ℕ)
page_sizes [] page_size = some []
page_sizes (e ∷ entries) page_size = do
  pages ← quotient (u32 (u32 (e.size + page_size) + u32_max)) page_size
  rest ← page_sizes entries page_size
  some (pages ∷ rest)

unfoldable pub compute_shared_bit_width : List AddressEntry → ℕ → Option ℕ
compute_shared_bit_width entries page_size = if length entries == 0 then some 1 else do
  sizes ← page_sizes entries page_size
  let bit_width = compute_min_bit_width sizes u32_max
  some (if bit_width == 0 then 1 else bit_width)

unfoldable pub compute_block_granularity : ℕ → ℕ → ℕ
compute_block_granularity fixed_packed_size bit_width =
    if fixed_packed_size == 0
    then 0
    else if bit_width == 0
    then 0
    else max 1 (u32 (u64 (fixed_packed_size * 8) / bit_width))

-- The pointer `entries` and the count are a list.
unfoldable pub encode_single_block : List AddressEntry → ℕ → ℕ → ℕ → Option AddressBlock
encode_single_block entries page_size bit_width padded_size = do
  first ← get_elem? entries 0
  base ← quotient first.offset page_size
  sizes ← page_sizes entries page_size
  packed ← encode sizes bit_width
  some (record {
    base_offset = u32 base;
    packed =
        if ltb (length packed) padded_size
        then packed ++ replicate (padded_size - length packed) 0
        else packed;
  })

-- The loop over the blocks, from block `b` on, with `n` rounds left of `num_blocks`. The result
-- is the blocks and the value of `last_packed_size`.
unfoldable pub encode_blocks :
    ℕ → ℕ → ℕ → List AddressEntry → AddressColumnLayout → ℕ → Option (List AddressBlock × ℕ)
encode_blocks zero b num_blocks entries layout last = some ([], last)
encode_blocks (suc n) b num_blocks entries layout last = do
  let start = u32 (b * layout.block_granularity)
  let count = min layout.block_granularity (length entries - start)
  let is_last = u32 (b + 1) == num_blocks
  block ←
      encode_single_block (take count (drop start entries)) layout.page_size layout.bit_width
        (if is_last then 0 else layout.fixed_packed_size)
  (blocks, last') ←
      encode_blocks n (b + 1) num_blocks entries layout
        (if is_last then u32 (length block.packed) else last)
  some (block ∷ blocks, last')

-- AddressColumn::Encode
unfoldable pub encode_column : List AddressEntry → ℕ → ℕ → Option EncodedAddressColumn
encode_column entries fixed_packed_size page_size =
    if length entries == 0
    then some (record {
      format = v1_packed;
      layout = record {
        page_size = page_size;
        bit_width = 1;
        block_granularity = 0;
        fixed_packed_size = fixed_packed_size;
        last_packed_size = 0;
        num_address_blocks = 0;
      };
      blocks = [];
      raw_entries = [];
      total_records = 0;
    })
    else do
      let fixed = if fixed_packed_size == 0 then default_fixed_packed_size else fixed_packed_size
      shared ← compute_shared_bit_width entries page_size
      let bit_width = u8 shared
      let granularity = compute_block_granularity fixed bit_width
      let n = u32 (length entries)
      num_blocks ← quotient (u32 (u32 (n + granularity) + u32_max)) granularity
      let layout : AddressColumnLayout = record {
        page_size = page_size;
        bit_width = bit_width;
        block_granularity = granularity;
        fixed_packed_size = fixed;
        last_packed_size = 0;
        num_address_blocks = num_blocks;
      }
      (blocks, last) ← encode_blocks num_blocks 0 num_blocks entries layout 0
      some (record {
        format = v1_packed;
        layout = record layout { last_packed_size = last };
        blocks = blocks;
        raw_entries = [];
        total_records = n;
      })
