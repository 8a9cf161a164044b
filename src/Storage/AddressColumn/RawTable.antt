-- ===== src/Storage/AddressColumn/RawTable.antt =====
-- The V2 address table: one pair of page numbers for each record.
use vec_fetch.Prelude.{
  ℕ, ◌*◌, ◌%◌, Bool, true, false, not, ◌||◌, List, [], ◌∷◌, Option, some, ◌==◌, if◌then◌else◌,
  ◌>>=◌, length, u32, u64, map,
}
use vec_fetch.Types.{AddressEntry}
use vec_fetch.Status.{StatusOr, value, failed, invalid_argument_status, corruption_status}
use vec_fetch.Storage.AddressColumn.{
  AddressFormat, v1_packed, v2_raw_table, RawAddressEntryV2, EncodedAddressColumn, quotient,
}

unfoldable pub decode_raw_entry_v2 : RawAddressEntryV2 → ℕ → AddressEntry
decode_raw_entry_v2 entry page_size = record {
  offset = u64 (entry.offset_pages * page_size);
  size = u32 (u64 (entry.size_pages * page_size));
}

unfoldable pub is_aligned : List AddressEntry → ℕ → Bool
is_aligned [] page_size = true
is_aligned (e ∷ entries) page_size =
    if not (e.offset % page_size == 0) || not (e.size % page_size == 0)
    then false
    else is_aligned entries page_size

unfoldable pub validate_raw_table_v2_alignment : List AddressEntry → ℕ → Bool
unfolding is_aligned
validate_raw_table_v2_alignment entries page_size =
    if page_size == 0 then false else is_aligned entries page_size

unfoldable pub encode_raw_entries : List AddressEntry → ℕ → Option (List RawAddressEntryV2)
encode_raw_entries [] page_size = some []
encode_raw_entries (e ∷ entries) page_size = do
  offset_pages ← quotient e.offset page_size
  size_pages ← quotient e.size page_size
  rest ← encode_raw_entries entries page_size
  some (record { offset_pages = u32 offset_pages; size_pages = u32 size_pages } ∷ rest)

-- The fields of the layout that are not set keep their defaults.
unfoldable pub encode_raw_table_v2 : List AddressEntry → ℕ → Option EncodedAddressColumn
unfolding encode_raw_entries
encode_raw_table_v2 entries page_size = do
  raw ← encode_raw_entries entries page_size
  some (record {
    format = v2_raw_table;
    layout = record {
      page_size = page_size;
      bit_width = 1;
      block_granularity = 0;
      fixed_packed_size = 0;
      last_packed_size = 0;
      num_address_blocks = 0;
    };
    blocks = [];
    raw_entries = raw;
    total_records = u32 (length entries);
  })

is_raw_table : AddressFormat → Bool
is_raw_table v2_raw_table = true
is_raw_table v1_packed = false

unfoldable pub decode_raw_table_v2 : EncodedAddressColumn → StatusOr (List AddressEntry)
unfolding is_raw_table decode_raw_entry_v2
decode_raw_table_v2 column =
    if not (is_raw_table column.format)
    then failed (invalid_argument_status "column is not V2 raw address table")
    else if not (length column.raw_entries == column.total_records)
    then failed (corruption_status "raw address entry count mismatch")
    else value (map (λ entry. decode_raw_entry_v2 entry column.layout.page_size) column.raw_entries)
