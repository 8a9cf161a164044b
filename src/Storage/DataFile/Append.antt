-- ===== src/Storage/DataFile/Append.antt =====
-- What WriteRecord does to the file, the offset and the count.
use native.Mathlib.Nat.{div-mul-le_self, lt-div-mul-add, mul-mod_left}
use vec_fetch.Prelude.{
  ℕ, ◌+◌, ◌-◌, ◌*◌, ◌/◌, ◌%◌, ◌^◌, ◌≤◌, ◌<◌, ◌≡◌, ◌≢◌, ◌⊎◌, refl, sym, ap, ◌∙◌, arith, true, false,
  Option, none, some, Bool-cases, inl, inr, List, ◌++◌, ltb, lt→ltb, ◌==◌, ==_iff, length,
  length-append, length-replicate, u32, u64,
}
use vec_fetch.Types.{AddressEntry}
use vec_fetch.Types.Column.{Datum}
use vec_fetch.Status.{StatusOr, value, failed, Failure, StatusCode, invalid_argument_status}
use vec_fetch.Status.Action.{and_then}
use vec_fetch.Storage.DataFile.Writer.{OutputStream, DataFileWriter, write_body, write_record}
use vec_fetch.Storage.DataFile.Writes.{write_body_lem}
use vec_fetch.Storage.DataFile.Layout.{padding, Failed, Wrote, raw_bytes, record_bytes}

module _ (os : OutputStream) where
  -- `w'` is `w` with a record of the bytes `bs`, at the address `e`.
  pub record Recorded (w w' : DataFileWriter os) (e : AddressEntry) (bs : List ℕ) : Type 0 where
    pub address : e ≡ record { offset = w.current_offset; size = length bs }
    pub contents : os.contents w'.file ≡ os.contents w.file ++ bs
    pub offset : w'.current_offset ≡ w.current_offset + length bs
    pub records : w'.num_records ≡ u64 (w.num_records + 1)
    pub open_still : os.is_open w'.file ≡ os.is_open w.file
    pub dim : w'.dim ≡ w.dim
    pub schemas : w'.payload_schemas ≡ w.payload_schemas
    pub page_size : w'.page_size ≡ w.page_size
    pub finalized : w'.finalized ≡ w.finalized

  abbrev pub Records :
      DataFileWriter os → List ℕ → Option (StatusOr AddressEntry × DataFileWriter os) → Type 0
  Records w bs none = ⊥
  Records w bs (some (value e, w')) = Recorded w w' e bs
  Records w bs (some (failed f, w')) = Failed os w w' bs f

  finish :
      (w : DataFileWriter os) (bs : List ℕ) (r : Option (StatusOr (Unit {0}) × DataFileWriter os))
      → w.current_offset + length bs < 2 ^ 64
      → length bs < 2 ^ 32
      → Wrote os w bs r
      → Records w bs (
          and_then r (λ _ s. some (
            value (record {
              offset = w.current_offset;
              size = u32 (u64 (s.current_offset + 2 ^ 64 - w.current_offset));
            }),
            record s { num_records = u64 (s.num_records + 1) },
          )))
  finish w bs none far long e = e
  finish w bs (some (value _, s)) far long e =
      let size : u32 (u64 (s.current_offset + 2 ^ 64 - w.current_offset)) ≡ length bs =
        omega (arith, e.offset) in
      record {
        address = rw size;
        contents = e.contents;
        offset = omega (arith, e.offset);
        records = ap (λ (n : ℕ). u64 (n + 1)) e.records;
        open_still = e.open_still;
        dim = e.dim;
        schemas = e.schemas;
        page_size = e.page_size;
        finalized = e.finalized;
      }
  finish w bs (some (failed f, s)) far long e = e

  padded : (n ps : ℕ) → 1 < ps → (n + padding n ps) % ps ≡ 0
  unfolding padding
  padded n ps h =
      let whole : ltb 1 ps ≡ true = lt→ltb 1 ps h in
      let positive : 0 < ps = omega arith in
      let total : n + ((n + ps - 1) / ps * ps - n) ≡ (n + ps - 1) / ps * ps =
        omega (arith, div-mul-le_self (n + ps - 1) ps, lt-div-mul-add {a = n + ps - 1} positive) in
      rw (whole, total) (mul-mod_left ((n + ps - 1) / ps) ps)

  pub padding-le : (n ps : ℕ) → padding n ps ≤ ps
  unfolding padding
  padding-le n ps = elim (Bool-cases (ltb 1 ps)) [
    | inl paged ↦ rw paged (omega (arith, div-mul-le_self (n + ps - 1) ps))
    | inr bytes ↦ rw bytes (omega arith)
  ]

  pub length-record_bytes :
      (w : DataFileWriter os) (vec : List ℕ) (payload : List Datum)
      → length (record_bytes os w vec payload)
        ≡ length (raw_bytes os w vec payload)
          + padding (length (raw_bytes os w vec payload)) w.page_size
  length-record_bytes w vec payload =
      length-append (raw_bytes os w vec payload) _
      ∙ ap (λ (n : ℕ). length (raw_bytes os w vec payload) + n) (length-replicate _ 0)

  -- WriteRecord on an open writer that is not finalized, with a value for each column, a vector of at
  -- least the dimension's bytes and a record that does not overflow the offset or its own size.
  -- Either it writes the vector, the columns and zeros up to whole pages behind what is in the
  -- file, returns their address, moves the offset there and counts the record; or the stream
  -- refused one of the writes: it was as open as the file, and held the file's bytes and the first
  -- bytes of the record, when it refused those that follow. Then that stream is the file, the
  -- offset is behind the bytes written, no record is counted, and the error is an I/O error. With
  -- pages of two bytes or more the size of a record is a number of whole pages.
  pub write_record-Records :
      (w : DataFileWriter os) (vec : List ℕ) (payload : List Datum)
      → os.is_open w.file ≡ true
      → w.finalized ≡ false
      → length payload ≡ length w.payload_schemas
      → u32 (w.dim * 4) ≤ length vec
      → w.current_offset + length (raw_bytes os w vec payload) + w.page_size < 2 ^ 64
      → length (record_bytes os w vec payload) < 2 ^ 32
      → Records w (record_bytes os w vec payload) (write_record os vec payload w)
        × (1 < w.page_size → length (record_bytes os w vec payload) % w.page_size ≡ 0)
  unfolding write_record
  write_record-Records w vec payload opened live columns long room small =
      let same : (length payload == length w.payload_schemas) ≡ true =
        (==_iff (length payload) (length w.payload_schemas)).1 columns in
      let far : w.current_offset + length (record_bytes os w vec payload) < 2 ^ 64 = omega (
        arith,
        length-record_bytes w vec payload,
        padding-le (length (raw_bytes os w vec payload)) w.page_size,
      ) in
      (
        simp (opened, live, same)
            (finish w _ (write_body os w vec payload w) far small
              (write_body_lem os w vec payload long room)),
        λ paged.
            rw (length-record_bytes w vec payload)
              (padded (length (raw_bytes os w vec payload)) w.page_size paged),
      )

  -- WriteRecord on a writer that is closed or finalized, or with another number of values than columns,
  -- is an invalid argument and changes nothing.
  pub write_record_refused :
      (w : DataFileWriter os) (vec : List ℕ) (payload : List Datum)
      → (os.is_open w.file ≡ false)
        ⊎ (w.finalized ≡ true)
        ⊎ (length payload ≢ length w.payload_schemas)
      → (f : Failure) × (write_record os vec payload w ≡ some (failed f, w))
        × (f.code ≡ StatusCode.invalid_argument)
  unfolding write_record
  write_record_refused w vec payload h = elim (Bool-cases (os.is_open w.file)) [
    | inr closed ↦ (invalid_argument_status "DataFileWriter not open", simp closed, refl)
    | inl opened ↦ elim (Bool-cases w.finalized) [
      | inl done ↦
          (invalid_argument_status "DataFileWriter already finalized", simp (opened, done), refl)
      | inr live ↦ elim (Bool-cases (length payload == length w.payload_schemas)) [
        | inr mismatch ↦
            (invalid_argument_status "Payload size mismatch", simp (opened, live, mismatch), refl)
        | inl same ↦ absurd (elim h [
          | inl closed ↦ let never : true ≡ false = sym opened ∙ closed in cc
          | inr (inl done) ↦ let never : true ≡ false = sym done ∙ live in cc
          | inr (inr other) ↦ other ((==_iff (length payload) (length w.payload_schemas)).0 same)
        ])
      ]
    ]
  ]
