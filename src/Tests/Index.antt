-- ===== src/Tests/Index.antt =====
-- Concrete runs of the index builder.
use Prim.Native.Nat.{min}
use vec_fetch.Prelude.{
  ℕ, ◌-◌, ◌≡◌, refl, arith, true, false, List, [], ◌∷◌, ◌++◌, none, some, get_or, length,
}
use vec_fetch.Types.{AddressEntry}
use vec_fetch.Types.Column.{dtype_size, dtype_is_fixed_width}
use vec_fetch.Status.{value}
use vec_fetch.Simd.Isa.{avx2}
use vec_fetch.Storage.DataFile.Writer.{
  DataFileWriter, open_writer, write_record, write_body, write_vector, write_bytes, write_payload,
  write_datum, write_padding, finalize_writer,
}
use vec_fetch.Storage.DataFile.Reader.{DataFileReader}
use vec_fetch.Storage.DataFile.Layout.{payload_bytes, datum_bytes}
use vec_fetch.Index.IvfBuilder.{cluster_members, addr_entries_per_cluster, push_member, group_from}
use vec_fetch.Index.IvfBuilder.Data.{Row, write_rows, write_data}
use vec_fetch.Index.IvfBuilder.Records.{IsRow}
use vec_fetch.Index.IvfBuilder.Clusters.{members_of, cluster_members_lem}
use vec_fetch.Index.IvfBuilder.Returns.{write_data_returns}
use vec_fetch.Index.IvfBuilder.Build.{IsTable, cluster_records}
use vec_fetch.Tests.DataFile.{memory, whole_file, columns, row, vector, written}

cluster_members_test : cluster_members 3 (2 ∷ 0 ∷ 2 ∷ []) ≡ some ((1 ∷ []) ∷ [] ∷ (0 ∷ 2 ∷ []) ∷ [])
unfolding cluster_members group_from push_member
cluster_members_test = refl

cluster_members_lem_example :
    (members : List (List ℕ)) × (cluster_members 3 (2 ∷ 0 ∷ 2 ∷ []) ≡ some members)
    × (length members ≡ 3)
    × ((c : ℕ) → get_or members c [] ≡ members_of c 0 (2 ∷ 0 ∷ 2 ∷ []))
cluster_members_lem_example =
    cluster_members_lem 3 (2 ∷ 0 ∷ 2 ∷ []) (omega arith, (omega arith, (omega arith, tt)))

abbrev closed_writer : DataFileWriter memory
closed_writer = record {
  path = "";
  file = (false, []);
  cluster_id = 0;
  dim = 0;
  payload_schemas = [];
  page_size = 1;
  current_offset = 0;
  num_records = 0;
  finalized = false;
}

abbrev rows : List Row
rows = (vector, row) ∷ (vector, row) ∷ []

abbrev places : List AddressEntry
places = record { offset = 0; size = 16 } ∷ record { offset = 16; size = 16 } ∷ []

abbrev built : DataFileWriter memory
built = record {
  path = "data.dat";
  file = (false, written ++ written);
  cluster_id = 0;
  dim = 1;
  payload_schemas = columns;
  page_size = 16;
  current_offset = 32;
  num_records = 2;
  finalized = true;
}

write_data_test :
    write_data memory "data.dat" 1 columns 16 rows closed_writer ≡ some (value places, built)
unfolding write_data write_rows open_writer finalize_writer write_record write_body write_vector
    write_bytes write_payload write_datum write_padding dtype_is_fixed_width dtype_size
write_data_test = refl

rows-IsRow : IsRow 1 columns 16 (vector, row)
unfolding payload_bytes datum_bytes dtype_is_fixed_width dtype_size
rows-IsRow = record {
  long = refl;
  columns = (
    (refl, (λ _. (refl, omega arith, refl)), λ h. absurd (let b : true ≡ false = h in cc)),
    ((refl, (λ h. absurd (let b : false ≡ true = h in cc)), λ _. (refl, omega arith)), tt),
  );
  fits = omega arith;
}

abbrev data_reader : DataFileReader
data_reader = record {
  fd = some (whole_file (written ++ written));
  path = "data.dat";
  dim = 1;
  payload_schemas = columns;
}

-- Both rows are in the second of two clusters.
cluster_records_example :
    (members : List (List ℕ)) × (tables : List (List AddressEntry)) × (cluster_members 2
        (1 ∷ 1 ∷ [])
      ≡ some members)
    × (addr_entries_per_cluster places members ≡ some tables)
    × ((c : ℕ) → IsTable data_reader avx2 16 rows (1 ∷ 1 ∷ []) c (get_or tables c []))
cluster_records_example =
    cluster_records memory closed_writer built "data.dat" 1 16 2 columns rows (1 ∷ 1 ∷ []) places
      avx2 data_reader (whole_file (written ++ written)) refl refl (λ s. refl) (omega arith)
      (rows-IsRow, (rows-IsRow, tt)) (omega arith) refl (omega arith, (omega arith, tt))
      write_data_test (omega arith) refl refl refl refl
      (λ o n h. let b : some (min n (32 - o)) ≡ none = h in cc)

write_data_returns_example :
    (es : List AddressEntry) × (w' : DataFileWriter memory) × (write_data memory "data.dat" 1
        columns 16 rows closed_writer
      ≡ some (value es, w'))
    × (length es ≡ 2)
write_data_returns_example =
    write_data_returns memory (λ s bs h. h) closed_writer "data.dat" 1 16 columns rows refl refl
      (rows-IsRow, (rows-IsRow, tt)) (omega arith)
