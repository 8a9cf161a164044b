-- ===== src/Tests/DataFile.antt =====
-- Concrete runs of the data file.
use mathlib.Core.Option.{some-injective}
use Prim.Native.Nat.{min}
use vec_fetch.Prelude.{
  ℕ, ◌+◌, ◌-◌, ◌%◌, ◌<◌, ◌≤◌, ◌≡◌, ◌⊎◌, inr, refl, arith, Bool, true, false, List, [], ◌∷◌, ◌++◌,
  none, some, length, replicate,
}
use vec_fetch.Bytes
use vec_fetch.Types.{AddressEntry}
use vec_fetch.Types.Column.{DType, ColumnSchema, Datum, dtype_size, dtype_is_fixed_width}
use vec_fetch.Status.{value, failed, Failure, StatusCode}
use vec_fetch.Storage.DataFile.Writer.{
  OutputStream, DataFileWriter, write_record, write_body, write_vector, write_bytes, write_payload,
  write_datum, write_padding, finalize_writer,
}
use vec_fetch.Storage.DataFile.Lifecycle.{finalize_writer_lem}
use vec_fetch.Storage.DataFile.Reader.{
  copy, InputFile, DataFileReader, read_record, read_raw, parse_payload,
}
use vec_fetch.Storage.DataFile.Layout.{record_bytes, payload_bytes, datum_bytes, padding}
use vec_fetch.Storage.DataFile.Append.{Records, write_record-Records, write_record_refused}
use vec_fetch.Storage.DataFile.Read.{ReadOutcome, read_raw-ReadOutcome}
use vec_fetch.Storage.DataFile.WriteRead.{read_record-write_record}
use vec_fetch.Storage.DataFile.Overflow.{parse_payload_wraps}

-- A stream whose writes all succeed while it is open.
abbrev pub memory : OutputStream
memory = record {
  Stream = Bool × List ℕ;
  is_open = λ s. s.0;
  contents = λ s. s.1;
  open_file = λ s path. (true, []);
  write = λ s bs. ((s.0, s.1 ++ bs), s.0);
  close = λ s. (false, s.1);
  contents-open_file = λ s path h. refl;
  contents-write = λ s bs h. refl;
  is_open-write = λ s bs. refl;
  is_open-close = λ s. refl;
}

pub pread-within :
    (size offset count n : ℕ) → min count (size - offset) ≡ n → (n ≡ 0) ⊎ (offset + n ≤ size)
pread-within size offset count n e = ground arith

pub pread-progress :
    (size offset count : ℕ) → min count (size - offset) ≡ 0 → (count ≡ 0) ⊎ (size ≤ offset)
pread-progress size offset count e = ground arith

pub pread-short : (size offset count n : ℕ) → min count (size - offset) ≡ n → n ≤ count
pread-short size offset count n e = omega arith

-- A file whose reads give all there is.
abbrev pub whole_file : List ℕ → InputFile
whole_file bs = record {
  contents = bs;
  pread = λ offset count. some (min count (length bs - offset));
  pread_within = λ offset count n h.
      let e = some-injective _ _ h in
      (pread-short (length bs) offset count n e, pread-within (length bs) offset count n e);
  pread_progress = λ offset count h. pread-progress (length bs) offset count (some-injective _ _ h);
}

abbrev pub columns : List ColumnSchema
columns =
    record { id = 0; name = "height"; dtype = DType.uint16; nullable = false }
    ∷ record { id = 1; name = "title"; dtype = DType.string; nullable = false }
    ∷ []

abbrev pub row : List Datum
row =
    record { dtype = DType.uint16; fixed = 9 ∷ 1 ∷ replicate 6 0; var_data = [] }
    ∷ record { dtype = DType.string; fixed = replicate 8 0; var_data = 65 ∷ 66 ∷ [] }
    ∷ []

abbrev pub vector : List ℕ
vector = 1 ∷ 2 ∷ 3 ∷ 4 ∷ []

-- A writer behind three bytes, with pages of 16 bytes.
abbrev writer : DataFileWriter memory
writer = record {
  path = "cluster.dat";
  file = (true, 7 ∷ 7 ∷ 7 ∷ []);
  cluster_id = 2;
  dim = 1;
  payload_schemas = columns;
  page_size = 16;
  current_offset = 3;
  num_records = 1;
  finalized = false;
}

abbrev pub written : List ℕ
written = vector ++ (9 ∷ 1 ∷ 2 ∷ 0 ∷ 0 ∷ 0 ∷ 65 ∷ 66 ∷ 0 ∷ 0 ∷ 0 ∷ 0 ∷ [])

record_bytes_test : record_bytes memory writer vector row ≡ written
unfolding payload_bytes datum_bytes dtype_is_fixed_width dtype_size padding
record_bytes_test = refl

abbrev behind : DataFileWriter memory
behind = record {
  path = "cluster.dat";
  file = (true, 7 ∷ 7 ∷ 7 ∷ [] ++ written);
  cluster_id = 2;
  dim = 1;
  payload_schemas = columns;
  page_size = 16;
  current_offset = 19;
  num_records = 2;
  finalized = false;
}

abbrev address : AddressEntry
address = record { offset = 3; size = 16 }

write_record_test : write_record memory vector row writer ≡ some (value address, behind)
unfolding write_record write_body write_vector write_bytes write_payload write_datum write_padding
    dtype_is_fixed_width dtype_size
write_record_test = refl

write_record-Records_example :
    Records memory writer
      (record_bytes memory writer vector row)
      (write_record memory vector row writer)
    × (1 < 16 → length (record_bytes memory writer vector row) % 16 ≡ 0)
unfolding payload_bytes datum_bytes dtype_is_fixed_width dtype_size padding
write_record-Records_example =
    write_record-Records memory writer vector row refl refl refl (omega arith) (omega arith)
      (omega arith)

write_record_refused_example :
    (f : Failure) × (write_record memory vector [] writer ≡ some (failed f, writer))
    × (f.code ≡ StatusCode.invalid_argument)
write_record_refused_example =
    write_record_refused memory writer vector [] (inr (inr (λ e. absurd (omega arith))))

abbrev reader : DataFileReader
reader = record {
  fd = some (whole_file (7 ∷ 7 ∷ 7 ∷ [] ++ written ++ 5 ∷ []));
  path = "cluster.dat";
  dim = 1;
  payload_schemas = columns;
}

read_raw-ReadOutcome_example :
    ReadOutcome (whole_file (7 ∷ 7 ∷ 7 ∷ [] ++ written ++ 5 ∷ [])) 18 4 (read_raw reader 18 4)
read_raw-ReadOutcome_example =
    read_raw-ReadOutcome reader (whole_file (7 ∷ 7 ∷ 7 ∷ [] ++ written ++ 5 ∷ [])) 18 4 refl

read_record-write_record_example : read_record reader address ≡ some (value (vector, row))
unfolding payload_bytes datum_bytes dtype_is_fixed_width dtype_size padding
read_record-write_record_example =
    read_record-write_record memory writer behind vector row address reader
      (whole_file (7 ∷ 7 ∷ 7 ∷ [] ++ written ++ 5 ∷ [])) (5 ∷ []) refl refl refl (omega arith)
      (omega arith) refl refl
      (
        (refl, (λ _. (refl, omega arith, refl)), λ h. absurd (let b : true ≡ false = h in cc)),
        ((refl, (λ h. absurd (let b : false ≡ true = h in cc)), λ _. (refl, omega arith)), tt),
      )
      write_record_test refl refl refl refl
      (λ o n lo hi h. let b : some (min n (20 - o)) ≡ none = h in cc)

-- A length prefix of 2^32 - 4.
abbrev crafted : List ℕ
crafted = 252 ∷ 255 ∷ 255 ∷ 255 ∷ []

parse_payload_wraps_example :
    parse_payload
      (record { id = 1; name = "title"; dtype = DType.string; nullable = false } ∷ [])
      crafted
      4
      0
    ≡ none
unfolding dtype_is_fixed_width dtype_size copy Bytes.value
parse_payload_wraps_example =
    parse_payload_wraps (record { id = 1; name = "title"; dtype = DType.string; nullable = false })
      [] crafted crafted 0 refl (omega arith) (omega arith) refl (omega arith) (omega arith)

finalize_writer_lem_example :
    (((memory.is_open writer.file ≡ false) ⊎ (writer.finalized ≡ true))
      → (f : Failure) × (finalize_writer memory writer ≡ some (failed f, writer))
        × (f.code ≡ StatusCode.invalid_argument))
    × (true ≡ true
        → writer.finalized ≡ false
        → let w' = record writer { file = memory.close writer.file; finalized = true } in
          (finalize_writer memory writer ≡ some (value tt, w'))
          × ((f : Failure) × (finalize_writer memory w' ≡ some (failed f, w'))
              × (f.code ≡ StatusCode.invalid_argument)))
finalize_writer_lem_example = finalize_writer_lem memory writer
