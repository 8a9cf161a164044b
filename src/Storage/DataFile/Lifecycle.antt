-- ===== src/Storage/DataFile/Lifecycle.antt =====
-- Opening and finalizing.
use Prim.Native.String.{String}
use vec_fetch.Prelude.{
  ℕ, ◌≡◌, ◌⊎◌, inl, inr, refl, some, sym, ◌∙◌, true, false, Bool-cases, List, [],
}
use vec_fetch.Types.Column.{ColumnSchema}
use vec_fetch.Status.{value, failed, Failure, StatusCode, invalid_argument_status, io_error_status}
use vec_fetch.Storage.DataFile.Writer.{OutputStream, DataFileWriter, open_writer, finalize_writer}

module _ (os : OutputStream) where
  -- A writer of a new file.
  abbrev pub fresh : String → ℕ → ℕ → List ColumnSchema → ℕ → os.Stream → DataFileWriter os
  fresh path cluster_id raw_dim schemas page_size stream = record {
    path = path;
    file = os.open_file stream path;
    cluster_id = cluster_id;
    dim = raw_dim;
    payload_schemas = schemas;
    page_size = page_size;
    current_offset = 0;
    num_records = 0;
    finalized = false;
  }

  -- The branches of Open, for the phases that open a writer.
  pub open_writer_lem :
      (w : DataFileWriter os) (path : String) (cluster_id raw_dim page_size : ℕ)
      (schemas : List ColumnSchema)
      → let w' = fresh path cluster_id raw_dim schemas page_size w.file in
        let run = open_writer os path cluster_id raw_dim schemas page_size w in
        (os.is_open w.file ≡ true
          → (f : Failure) × (run ≡ some (failed f, w)) × (f.code ≡ StatusCode.invalid_argument))
        × (os.is_open w.file ≡ false
            → ((os.is_open w'.file ≡ true
                  → (run ≡ some (value tt, w')) × (os.contents w'.file ≡ []))
                × (os.is_open w'.file ≡ false
                    → (f : Failure) × (run ≡ some (failed f, w'))
                      × (f.code ≡ StatusCode.io_error))))
  unfolding open_writer
  open_writer_lem w path cluster_id raw_dim page_size schemas = (
    λ opened. (invalid_argument_status "DataFileWriter already open", simp opened, refl),
    λ closed. (
      λ ready. (simp (closed, ready), os.contents-open_file w.file path ready),
      λ missing.
          (io_error_status "Failed to open DataFile for writing", simp (closed, missing), refl),
    ),
  )

  -- Finalize closes a live writer and keeps its offset and its count, and a second Finalize fails. On a
  -- closed or finalized writer it fails and changes nothing.
  pub finalize_writer_lem :
      (w : DataFileWriter os)
      → (((os.is_open w.file ≡ false) ⊎ (w.finalized ≡ true))
          → (f : Failure) × (finalize_writer os w ≡ some (failed f, w))
            × (f.code ≡ StatusCode.invalid_argument))
        × (os.is_open w.file ≡ true
            → w.finalized ≡ false
            → let w' = record w { file = os.close w.file; finalized = true } in
              (finalize_writer os w ≡ some (value tt, w'))
              × ((f : Failure) × (finalize_writer os w' ≡ some (failed f, w'))
                  × (f.code ≡ StatusCode.invalid_argument)))
  unfolding finalize_writer
  finalize_writer_lem w =
      let closed_error = invalid_argument_status "DataFileWriter not open" in
      let done_error = invalid_argument_status "DataFileWriter already finalized" in
      (
        λ h. elim (Bool-cases (os.is_open w.file)) [
          | inr closed ↦ (closed_error, simp closed, refl)
          | inl opened ↦ elim h [
            | inl closed ↦ absurd (let never : true ≡ false = sym opened ∙ closed in cc)
            | inr done ↦ (done_error, simp (opened, done), refl)
          ]
        ],
        λ opened live. (simp (opened, live), (closed_error, simp (os.is_open-close w.file), refl)),
      )
