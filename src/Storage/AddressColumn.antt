-- ===== src/Storage/AddressColumn.antt =====
-- src/storage/address_column.cpp and include/vdb/storage/address_column.h: the address column of a
-- cluster. An access out of bounds and a division by zero are `none`. What an output vector holds
-- after an error is not modelled.
pub mod Encoder
pub mod Decoder
pub mod RawTable
pub mod Blocks
pub mod EncodeBlock
pub mod EncodeBlocks
pub mod DecodeBlock
pub mod DecodeStreams
pub mod DecodeBatches
pub mod RawRoundTrip
pub mod DecodeColumn
pub mod RoundTrip
use vec_fetch.Prelude.{
  ℕ, ◌+◌, ◌-◌, ◌*◌, ◌/◌, List, Option, none, some, ltb, leb, ◌==◌, if◌then◌else◌, u32, u64,
}

pub data AddressFormat : Type 0 where
  v1_packed : AddressFormat
  v2_raw_table : AddressFormat

pub record RawAddressEntryV2 : Type 0 where
  pub offset_pages : ℕ
  pub size_pages : ℕ

pub record AddressColumnLayout : Type 0 where
  pub page_size : ℕ
  pub bit_width : ℕ
  pub block_granularity : ℕ
  pub fixed_packed_size : ℕ
  pub last_packed_size : ℕ
  pub num_address_blocks : ℕ

pub record AddressBlock : Type 0 where
  pub base_offset : ℕ
  pub packed : List ℕ

pub record EncodedAddressColumn : Type 0 where
  pub format : AddressFormat
  pub layout : AddressColumnLayout
  pub blocks : List AddressBlock
  pub raw_entries : List RawAddressEntryV2
  pub total_records : ℕ

abbrev pub default_fixed_packed_size : ℕ
default_fixed_packed_size = 64

abbrev pub multi_stream_width : ℕ
multi_stream_width = 8

-- C++ division of unsigned values.
unfoldable pub quotient : ℕ → ℕ → Option ℕ
quotient n d = if d == 0 then none else some (n / d)

-- `num_address_blocks - 1` is computed behind the first test, and does not wrap.
unfoldable pub block_record_count : AddressColumnLayout → ℕ → ℕ → ℕ
block_record_count layout total_records block_idx =
    if leb layout.num_address_blocks block_idx
    then 0
    else if layout.num_address_blocks == 0
    then 0
    else if ltb (u32 (block_idx + 1)) layout.num_address_blocks
    then layout.block_granularity
    else let regular_records = u64 ((layout.num_address_blocks - 1) * layout.block_granularity) in
      if leb total_records regular_records then 0 else total_records - u32 regular_records

unfoldable pub block_packed_size : AddressColumnLayout → ℕ → ℕ
block_packed_size layout block_idx =
    if leb layout.num_address_blocks block_idx
    then 0
    else if layout.num_address_blocks == 0
    then 0
    else if ltb (u32 (block_idx + 1)) layout.num_address_blocks
    then layout.fixed_packed_size
    else layout.last_packed_size
