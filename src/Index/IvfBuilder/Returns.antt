-- ===== src/Index/IvfBuilder/Returns.antt =====
-- The data phase returns.
use Prim.Native.String.{String}
use vec_fetch.Prelude.{
  ℕ, ◌^◌, ◌<◌, ◌≡◌, refl, sym, ap, ◌∙◌, arith, true, false, Option, none, some, List, [], ◌∷◌,
  length, All,
}
use vec_fetch.Types.{AddressEntry}
use vec_fetch.Types.Column.{ColumnSchema}
use vec_fetch.Status.{StatusOr, value, failed}
use vec_fetch.Status.Action.{◌>>=◌, ◌>>◌, pure, bind-run}
use vec_fetch.Storage.DataFile.Writer.{
  OutputStream, DataFileWriter, open_writer, write_record, finalize_writer,
}
use vec_fetch.Storage.DataFile.Lifecycle.{fresh, open_writer_lem, finalize_writer_lem}
use vec_fetch.Storage.DataFile.Layout.{record_bytes}
use vec_fetch.Storage.DataFile.Append.{Records, write_record-Records}
use vec_fetch.Index.IvfBuilder.Data.{Row, write_rows, write_data}
use vec_fetch.Index.IvfBuilder.Records.{
  IsRow, Fitting, IsReady, Recorded-row, IsReady-Recorded, Fitting-Recorded, write_rows-Stored,
  record_fits,
}

module _ (os : OutputStream)
    (good : (s : os.Stream) (bs : List ℕ) → os.is_open s ≡ true → (os.write s bs).1 ≡ true) where
  Records-value :
      (w : DataFileWriter os) (bs : List ℕ) (r : Option (StatusOr AddressEntry × DataFileWriter os))
      → os.is_open w.file ≡ true
      → Records os w bs r
      → (e : AddressEntry) × (w' : DataFileWriter os) × (r ≡ some (value e, w'))
  Records-value w bs none opened h = absurd h
  Records-value w bs (some (value e, w')) opened h = (e, w', refl)
  Records-value w bs (some (failed f, w')) opened h = absurd (
      let never : true ≡ false = sym (good h.stream h.chunk (h.open_still ∙ opened)) ∙ h.refused in
      cc)

  write_rows_returns :
      (w : DataFileWriter os) (rows : List Row)
      → IsReady os w (length rows)
      → Fitting os w rows
      → (es : List AddressEntry) × (w' : DataFileWriter os) × (write_rows os rows w
          ≡ some (value es, w'))
  unfolding write_rows
  write_rows_returns w [] ready fits = ([], w, refl)
  write_rows_returns w ((vec, payload) ∷ rows) ready (is, fits) =
      let bs = record_bytes os w vec payload in
      let (same, room, small) = record_fits os w (vec, payload) (length rows) ready is in
      let (e, w₁, run) =
        Records-value w bs (write_record os vec payload w) ready.opened
          (write_record-Records os w vec payload ready.opened ready.live same
            (omega (arith, is.long)) room small).0 in
      let (recorded, _, _, _) = Recorded-row os w w₁ (vec, payload) e (length rows) ready is run in
      let (es, w', runs) =
        write_rows_returns w₁ rows
          (IsReady-Recorded os w w₁ e bs (length rows) ready recorded small)
          (Fitting-Recorded os w w₁ e bs rows recorded fits) in
      let rest = λ (a : AddressEntry). write_rows os rows >>= λ addrs. pure (a ∷ addrs) in
      (
        e ∷ es,
        w',
        bind-run {A = AddressEntry} (write_record os vec payload) rest w w₁ e run
            ∙ bind-run {A = List AddressEntry} (write_rows os rows) (λ addrs. pure (e ∷ addrs)) w₁
                w' es runs,
      )

  -- The data phase of a build on a closed writer returns the addresses, for fewer than 2^32 rows that fit
  -- the columns, when the file opens and no write of an open stream fails.
  pub write_data_returns :
      (w : DataFileWriter os) (path : String) (dim ps : ℕ) (schemas : List ColumnSchema)
      (rows : List Row)
      → os.is_open w.file ≡ false
      → os.is_open (os.open_file w.file path) ≡ true
      → All (IsRow dim schemas ps) rows
      → length rows < 2 ^ 32
      → (es : List AddressEntry) × (w' : DataFileWriter os) × (write_data os path dim schemas ps
            rows w
          ≡ some (value es, w'))
        × (length es ≡ length rows)
  unfolding write_data
  write_data_returns w path dim ps schemas rows closed ready fits count =
      let w₁ = fresh os path 0 dim schemas ps w.file in
      let (opened, empty) = ((open_writer_lem os w path 0 dim ps schemas).1 closed).0 ready in
      let start : IsReady os w₁ (length rows) = record {
        opened = ready;
        live = refl;
        at_end = ap length empty;
        room = omega arith;
      } in
      let (es, w₂, runs) = write_rows_returns w₁ rows start fits in
      let stored = write_rows-Stored os w₁ w₂ rows es start fits runs in
      let (closes, _) = (finalize_writer_lem os w₂).1 stored.ready.opened stored.ready.live in
      let w₃ : DataFileWriter os = record w₂ { file = os.close w₂.file; finalized = true } in
      let finish = λ (addrs : List AddressEntry). finalize_writer os >> pure addrs in
      (
        es,
        w₃,
        bind-run {A = Unit {0}} (open_writer os path 0 dim schemas ps)
              (λ _. write_rows os rows >>= finish) w w₁ tt opened
            ∙ bind-run {A = List AddressEntry} (write_rows os rows) finish w₁ w₂ es runs
            ∙ bind-run {A = Unit {0}} (finalize_writer os) (λ _. pure es) w₂ w₃ tt closes,
        stored.same_number,
      )
