-- ===== src/Tests/Storage.antt =====
-- Concrete runs of the storage layer.
use vec_fetch.Prelude.{ℕ, ◌≡◌, refl, arith, List, [], ◌∷◌, some, ◌>>=◌}
use vec_fetch.Types.{AddressEntry}
use vec_fetch.Status.{StatusOr}
use vec_fetch.Bytes.{value}
use vec_fetch.Codec.Bitpack.RoundTrip.{packed_value}
use vec_fetch.Simd.Isa.{avx2, avx512}
use vec_fetch.Storage.AddressColumn.{AddressColumnLayout, AddressBlock}
use vec_fetch.Storage.AddressColumn.Encoder.{encode_column}
use vec_fetch.Storage.AddressColumn.Decoder.{decode_multi_stream, decode_column}
use vec_fetch.Storage.AddressColumn.Blocks.{Fitting, sum, entries_at, IsRun, concat}
use vec_fetch.Storage.AddressColumn.DecodeBlock.{Within}
use vec_fetch.Storage.AddressColumn.DecodeStreams.{decode_multi_stream_lem}
use vec_fetch.Storage.AddressColumn.RawTable.{validate_raw_table_v2_alignment, encode_raw_table_v2}
use vec_fetch.Storage.AddressColumn.RawRoundTrip.{decode-encode_raw_table}
use vec_fetch.Storage.AddressColumn.RoundTrip.{decode-encode_column}

abbrev pages : List ℕ
pages = 2 ∷ 1 ∷ 3 ∷ []

pages-Fitting : Fitting 4096 7 pages
unfolding sum
pages-Fitting = record {
  positive = omega arith;
  page_fits = omega arith;
  sizes_fit = (omega arith, (omega arith, (omega arith, tt)));
  end_fits = omega arith;
}

decode-encode_column_example :
    (encode_column (entries_at 4096 7 pages) 64 4096 >>= decode_column avx2)
    ≡ some (StatusOr.value (entries_at 4096 7 pages))
decode-encode_column_example =
    decode-encode_column avx2 64 4096 7 pages pages-Fitting (omega arith) (omega arith)

abbrev two_entries : List AddressEntry
two_entries =
    record { offset = 8192; size = 4096 } ∷ record { offset = 1099511627776; size = 12288 } ∷ []

decode-encode_raw_table_example :
    (encode_raw_table_v2 two_entries 4096 >>= decode_column avx512)
    ≡ some (StatusOr.value two_entries)
decode-encode_raw_table_example =
    decode-encode_raw_table avx512 two_entries 4096 (unfold validate_raw_table_v2_alignment in refl)
      (
        record { offset_fits = omega arith; size_fits = omega arith; page_fits = omega arith },
        (
          record { offset_fits = omega arith; size_fits = omega arith; page_fits = omega arith },
          tt,
        ),
      )
      (omega arith)

abbrev packed_pages : List (List ℕ)
packed_pages = (1 ∷ 2 ∷ []) ∷ (3 ∷ 0 ∷ []) ∷ []

abbrev page_layout : AddressColumnLayout
page_layout = record {
  page_size = 4096;
  bit_width = 2;
  block_granularity = 2;
  fixed_packed_size = 1;
  last_packed_size = 1;
  num_address_blocks = 2;
}

abbrev packed_blocks : List AddressBlock
packed_blocks =
    record { base_offset = 5; packed = 9 ∷ [] } ∷ record { base_offset = 8; packed = 3 ∷ [] } ∷ []

packed_pages-IsRun : IsRun 2 2 5 packed_pages packed_blocks
unfolding IsRun packed_value value sum
packed_pages-IsRun = (
  record { base = refl; bytes = (omega arith, tt); bits = refl; room = omega arith },
  refl,
  (record { base = refl; bytes = (omega arith, tt); bits = refl; room = omega arith }, refl, tt),
)

packed_pages-Fitting : Fitting 4096 5 (concat packed_pages)
unfolding concat sum
packed_pages-Fitting = record {
  positive = omega arith;
  page_fits = omega arith;
  sizes_fit = (omega arith, (omega arith, (omega arith, (omega arith, tt))));
  end_fits = omega arith;
}

packed_pages-Within : Within 2 2 4096 5 packed_pages
unfolding concat
packed_pages-Within = (
  omega arith,
  omega arith,
  omega arith,
  (omega arith, (omega arith, (omega arith, (omega arith, tt)))),
  packed_pages-Fitting,
)

decode_multi_stream_lem_example :
    decode_multi_stream avx512 page_layout packed_blocks
    ≡ some (entries_at 4096 5 (concat packed_pages))
decode_multi_stream_lem_example =
    decode_multi_stream_lem avx512 page_layout 5 packed_pages packed_blocks packed_pages-IsRun
      packed_pages-Within (omega arith)
