-- ===== src/Storage/DataFile/WriteRead.antt =====
-- ReadRecord on a record that WriteRecord wrote.
use mathlib.Core.List.{append_assoc}
use mathlib.Core.Path.{subst}
use vec_fetch.Prelude.{
  ℕ, ◌+◌, ◌*◌, ◌^◌, ◌<◌, ◌≡◌, refl, sym, ap, ◌∙◌, arith, true, false, List, [], ◌++◌, some, le→ltb,
  length, length-append, take, drop, replicate, take-append, take_self, drop-append, u32,
}
use vec_fetch.Types.{AddressEntry}
use vec_fetch.Types.Column.{ColumnSchema, Datum}
use vec_fetch.Status.{value}
use vec_fetch.Storage.DataFile.Writer.{OutputStream, DataFileWriter, write_record}
use vec_fetch.Storage.DataFile.Layout.{payload_bytes, padding, raw_bytes, record_bytes}
use vec_fetch.Storage.DataFile.Append.{Recorded, Records, write_record-Records}
use vec_fetch.Storage.DataFile.Reader.{
  InputFile, DataFileReader, slice, copy, with_vector, parse_record, read_record,
}
use vec_fetch.Storage.DataFile.Read.{Reads, read_raw_lem}
use vec_fetch.Storage.DataFile.RoundTrip.{AreColumns, copy_lem, parse_payload_lem}

parse_record_lem :
    (r : DataFileReader) (e : AddressEntry) (vec pad : List ℕ) (payload : List Datum)
    → length vec ≡ u32 (r.dim * 4)
    → AreColumns payload r.payload_schemas
    → e.size ≡ length (vec ++ payload_bytes payload r.payload_schemas ++ pad)
    → e.size < 2 ^ 32
    → parse_record r e (vec ++ payload_bytes payload r.payload_schemas ++ pad)
      ≡ some (value (vec, payload))
unfolding parse_record with_vector
parse_record_lem r e vec pad payload long columns whole small =
    let tail = payload_bytes payload r.payload_schemas in
    let buf = vec ++ tail ++ pad in
    let nested : buf ≡ vec ++ (tail ++ pad) = append_assoc vec tail pad in
    let enough : length buf ≡ length vec + length (tail ++ pad) =
      ap length nested ∙ length-append vec (tail ++ pad) in
    let vector : copy buf 0 (length vec) ≡ some vec =
      ap (λ (b : List ℕ). copy b 0 (length vec)) nested
      ∙ copy_lem [] vec (tail ++ pad) 0 (length vec) refl refl in
    rw (
      ← long,
      le→ltb e.size (length vec) (omega arith),
      vector,
      whole,
      parse_payload_lem vec pad payload r.payload_schemas buf columns nested (omega arith),
    )

-- A record that WriteRecord wrote: ReadRecord at the address it returned gives the same vector and the
-- same payload back, whatever is written behind it. The file was as long as the offset, it is read
-- with the dimension and the columns it was written with, the vector has as many bytes as they
-- say, every datum is of its column's type, the record overflows neither the offset nor its own
-- size, and no read of the file fails.
pub read_record-write_record :
    (os : OutputStream) (w w' : DataFileWriter os) (vec : List ℕ) (payload : List Datum)
    (e : AddressEntry) (r : DataFileReader) (f : InputFile) (more : List ℕ)
    → os.is_open w.file ≡ true
    → w.finalized ≡ false
    → length payload ≡ length w.payload_schemas
    → w.current_offset + length (raw_bytes os w vec payload) + w.page_size < 2 ^ 64
    → length (record_bytes os w vec payload) < 2 ^ 32
    → length (os.contents w.file) ≡ w.current_offset
    → length vec ≡ u32 (w.dim * 4)
    → AreColumns payload w.payload_schemas
    → write_record os vec payload w ≡ some (value e, w')
    → r.fd ≡ some f
    → r.dim ≡ w.dim
    → r.payload_schemas ≡ w.payload_schemas
    → f.contents ≡ os.contents w'.file ++ more
    → Reads f e.offset e.size
    → read_record r e ≡ some (value (vec, payload))
unfolding read_record
read_record-write_record os w w' vec payload e r f more opened live same room small at long columns
      run fd dim schemas file reads =
    let bs = record_bytes os w vec payload in
    let recorded : Recorded os w w' e bs =
      subst (Records os w bs) run
        (write_record-Records os w vec payload opened live same (omega arith) room small).0 in
    let before = os.contents w.file in
    let offset : e.offset ≡ length before =
      ap (λ (a : AddressEntry). a.offset) recorded.address ∙ sym at in
    let size : e.size ≡ length bs = ap (λ (a : AddressEntry). a.size) recorded.address in
    let fits : e.size < 2 ^ 32 = omega arith in
    let contents : f.contents ≡ before ++ (bs ++ more) =
      file ∙ ap (λ (l : List ℕ). l ++ more) recorded.contents ∙ append_assoc before bs more in
    let all : length f.contents ≡ length before + (length bs + length more) =
      ap length contents
      ∙ length-append before (bs ++ more)
      ∙ ap (λ (n : ℕ). length before + n) (length-append bs more) in
    let cut : slice e.offset e.size f.contents ≡ bs =
      ap (λ (l : List ℕ). slice e.offset e.size l) contents
      ∙ ap (λ (k : ℕ). take e.size (drop k (before ++ (bs ++ more)))) offset
      ∙ ap (take e.size) (drop-append before (bs ++ more))
      ∙ take-append e.size bs more size in
    let pad = replicate (padding (length (raw_bytes os w vec payload)) w.page_size) 0 in
    let is : bs ≡ vec ++ payload_bytes payload r.payload_schemas ++ pad =
      ap (λ (v : List ℕ). v ++ payload_bytes payload w.payload_schemas ++ pad)
        (take_self (u32 (w.dim * 4)) vec (sym long))
      ∙ ap (λ (s : List ColumnSchema). vec ++ payload_bytes payload s ++ pad) (sym schemas) in
    let parsed : parse_record r e bs ≡ some (value (vec, payload)) =
      ap (parse_record r e) is
      ∙ parse_record_lem r e vec pad payload (long ∙ ap (λ (d : ℕ). u32 (d * 4)) (sym dim))
          (subst (AreColumns payload) (sym schemas) columns) (size ∙ ap length is) fits in
    rw (read_raw_lem r f e.offset e.size fd reads (omega arith), cut, parsed)
