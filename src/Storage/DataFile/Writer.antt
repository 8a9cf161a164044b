-- ===== src/Storage/DataFile/Writer.antt =====
-- DataFileWriter.
use Prim.Native.String.{String}
use vec_fetch.Prelude.{
  ℕ, ◌+◌, ◌-◌, ◌*◌, ◌/◌, ◌^◌, ◌≡◌, ◌&&◌, Bool, true, false, not, List, [], ◌∷◌, ◌++◌, none, some,
  ltb, leb, ◌==◌, if◌then◌else◌, length, take, replicate, u32, u64,
}
use vec_fetch.Types.{AddressEntry}
use vec_fetch.Types.Column.{ColumnSchema, Datum, dtype_size, dtype_is_fixed_width}
use vec_fetch.Status.{value, failed, invalid_argument_status, io_error_status}
use vec_fetch.Status.Action.{Action, ◌>>=◌, ◌>>◌, pure, gets, modify, fail_if}
use vec_fetch.Storage.DataFile.{u32_bytes}

-- std::ofstream, truncated when it is opened. `contents` is what the stream took on; a write that
-- leaves the stream good took all its bytes on, behind the others.
pub record OutputStream : Type 1 where
  pub Stream : Type 0
  pub is_open : Stream → Bool
  pub contents : Stream → List ℕ
  pub open_file : Stream → String → Stream
  pub write : Stream → List ℕ → Stream × Bool
  pub close : Stream → Stream
  pub contents-open_file :
      (s : Stream) (path : String)
      → is_open (open_file s path) ≡ true
      → contents (open_file s path) ≡ []
  pub contents-write :
      (s : Stream) (bs : List ℕ)
      → (write s bs).1 ≡ true
      → contents (write s bs).0 ≡ contents s ++ bs
  pub is_open-write : (s : Stream) (bs : List ℕ) → is_open (write s bs).0 ≡ is_open s
  pub is_open-close : (s : Stream) → is_open (close s) ≡ false

module _ (os : OutputStream) where
  pub record DataFileWriter : Type 0 where
    pub path : String
    pub file : os.Stream
    pub cluster_id : ℕ
    pub dim : ℕ
    pub payload_schemas : List ColumnSchema
    pub page_size : ℕ
    pub current_offset : ℕ
    pub num_records : ℕ
    pub finalized : Bool

  -- DataFileWriter::Open
  unfoldable pub open_writer :
      String → ℕ → ℕ → List ColumnSchema → ℕ → Action DataFileWriter (Unit {0})
  open_writer path cluster_id raw_dim payload_schemas page_size = do
    opened ← gets (λ w. os.is_open w.file)
    fail_if opened (invalid_argument_status "DataFileWriter already open")
    modify (λ w. record {
      path = path;
      file = os.open_file w.file path;
      cluster_id = cluster_id;
      dim = raw_dim;
      payload_schemas = payload_schemas;
      page_size = page_size;
      current_offset = 0;
      num_records = 0;
      finalized = false;
    })
    ready ← gets (λ w. os.is_open w.file)
    fail_if (not ready) (io_error_status "Failed to open DataFile for writing")

  -- A write, the test of the stream, and `current_offset_ += size`.
  unfoldable pub write_bytes : List ℕ → String → Action DataFileWriter (Unit {0})
  write_bytes bs message w =
      let (file, good) = os.write w.file bs in
      if good
      then some
          (value tt, record w { file = file; current_offset = u64 (w.current_offset + length bs) })
      else some (failed (io_error_status message), record w { file = file })

  -- The vector's bytes. Memory of fewer bytes is read out of bounds.
  unfoldable pub write_vector : ℕ → List ℕ → Action DataFileWriter (Unit {0})
  write_vector vec_bytes vec w =
      if leb vec_bytes (length vec)
      then write_bytes (take vec_bytes vec) "Failed to write vector data" w
      else none

  -- DataFileWriter::WriteDatum
  unfoldable pub write_datum : Datum → ColumnSchema → Action DataFileWriter (Unit {0})
  write_datum datum schema =
      if dtype_is_fixed_width schema.dtype
      then write_bytes (take (dtype_size schema.dtype) datum.fixed) "Failed to write fixed datum"
      else do
        let len = u32 (length datum.var_data)
        write_bytes (u32_bytes len) "Failed to write var-length prefix"
        (if ltb 0 len
            then write_bytes (take len datum.var_data) "Failed to write var-length data"
            else pure tt)

  -- The loop over the columns.
  unfoldable pub write_payload : List Datum → List ColumnSchema → Action DataFileWriter (Unit {0})
  write_payload [] schemas = pure tt
  write_payload (d ∷ payload) [] = pure tt
  write_payload (d ∷ payload) (schema ∷ schemas) = do
    write_datum d schema
    write_payload payload schemas

  -- Zeros up to the page boundary. A difference of two uint64_t wraps around.
  unfoldable pub write_padding : ℕ → ℕ → Action DataFileWriter (Unit {0})
  write_padding offset page_size = do
    end ← gets (λ w. w.current_offset)
    let raw_size = u64 (end + 2 ^ 64 - offset)
    let padded = u64 (u64 (raw_size + page_size + (2 ^ 64 - 1)) / page_size * page_size)
    let pad_bytes = u64 (padded + 2 ^ 64 - raw_size)
    (if ltb 1 page_size && ltb 0 pad_bytes
        then write_bytes (replicate pad_bytes 0) "Failed to write page padding"
        else pure tt)

  -- What WriteRecord writes, on a writer that was `start`.
  unfoldable pub write_body :
      DataFileWriter → List ℕ → List Datum → Action DataFileWriter (Unit {0})
  write_body start vec payload = do
    write_vector (u32 (start.dim * 4)) vec
    write_payload payload start.payload_schemas
    write_padding start.current_offset start.page_size

  -- DataFileWriter::WriteRecord. `vec` is the memory of the vector.
  unfoldable pub write_record : List ℕ → List Datum → Action DataFileWriter AddressEntry
  write_record vec payload = do
    start ← gets (λ w. w)
    fail_if (not (os.is_open start.file)) (invalid_argument_status "DataFileWriter not open")
    fail_if start.finalized (invalid_argument_status "DataFileWriter already finalized")
    fail_if (not (length payload == length start.payload_schemas))
        (invalid_argument_status "Payload size mismatch")
    let offset = start.current_offset
    write_body start vec payload
    end ← gets (λ w. w.current_offset)
    modify (λ w. record w { num_records = u64 (w.num_records + 1) })
    pure (record { offset = offset; size = u32 (u64 (end + 2 ^ 64 - offset)) })

  -- DataFileWriter::Finalize
  unfoldable pub finalize_writer : Action DataFileWriter (Unit {0})
  finalize_writer = do
    start ← gets (λ w. w)
    fail_if (not (os.is_open start.file)) (invalid_argument_status "DataFileWriter not open")
    fail_if start.finalized (invalid_argument_status "DataFileWriter already finalized")
    modify (λ w. record w { file = os.close w.file; finalized = true })
