-- ===== src/Index/IvfBuilder/Data.antt =====
-- The file of the records.
use Prim.Native.String.{String}
use vec_fetch.Prelude.{ℕ, List, [], ◌∷◌}
use vec_fetch.Types.{AddressEntry}
use vec_fetch.Types.Column.{ColumnSchema, Datum}
use vec_fetch.Status.Action.{Action, ◌>>=◌, ◌>>◌, pure}
use vec_fetch.Storage.DataFile.Writer.{
  OutputStream, DataFileWriter, open_writer, write_record, finalize_writer,
}

-- The bytes of a vector, and the payload that `payload_fn` gives for it.
abbrev pub Row : Type 0
Row = List ℕ × List Datum

module _ (os : OutputStream) where
  -- The loop over the vectors. The addresses are `addr_by_vec_id`.
  unfoldable pub write_rows : List Row → Action (DataFileWriter os) (List AddressEntry)
  write_rows [] = pure []
  write_rows ((vec, payload) ∷ rows) = do
    addr ← write_record os vec payload
    addrs ← write_rows rows
    pure (addr ∷ addrs)

  -- data.dat: open, write, finalize.
  unfoldable pub write_data :
      String → ℕ → List ColumnSchema → ℕ → List Row → Action (DataFileWriter os) (List AddressEntry)
  write_data path logical_dim payload_schemas page_size rows = do
    open_writer os path 0 logical_dim payload_schemas page_size
    addr_by_vec_id ← write_rows rows
    finalize_writer os
    pure addr_by_vec_id
