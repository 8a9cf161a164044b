-- ===== src/Index/IvfBuilder/Build.antt =====
-- The whole data phase of a build.
use Prim.Native.String.{String}
use mathlib.Core.List.{append-nil}
use mathlib.Core.Path.{subst}
use mathlib.Core.Option.{some-injective}
use vec_fetch.Prelude.{
  ℕ, zero, suc, ◌*◌, ◌%◌, ◌^◌, ◌<◌, ◌≡◌, ◌≢◌, refl, sym, ap, ◌∙◌, arith, true, false, List, [], ◌∷◌,
  ◌++◌, none, some, ◌>>=◌, length, get_or, All,
}
use vec_fetch.Types.{AddressEntry}
use vec_fetch.Types.Column.{ColumnSchema}
use vec_fetch.Status.{value}
use vec_fetch.Status.Action.{Action, pure, bind-value, returned}
use vec_fetch.Status.Action
use vec_fetch.Simd.Isa.{Isa}
use vec_fetch.Storage.DataFile.Writer.{OutputStream, DataFileWriter, open_writer, finalize_writer}
use vec_fetch.Storage.DataFile.Lifecycle.{fresh, open_writer_lem, finalize_writer_lem}
use vec_fetch.Storage.DataFile.Reader.{InputFile, DataFileReader}
use vec_fetch.Storage.AddressColumn.RawTable.{encode_raw_table_v2}
use vec_fetch.Storage.AddressColumn.Decoder.{decode_column}
use vec_fetch.Index.IvfBuilder.{cluster_members, gather, addr_entries_per_cluster}
use vec_fetch.Index.IvfBuilder.Data.{Row, write_rows, write_data}
use vec_fetch.Index.IvfBuilder.Records.{AreReadable, IsRow, Stored, write_rows-Stored}
use vec_fetch.Index.IvfBuilder.Clusters.{members_of, cluster_members_lem}
use vec_fetch.Index.IvfBuilder.Addresses.{cluster_table}

addr_entries_per_cluster_lem :
    (P : ℕ → List AddressEntry → Type 0) (es : List AddressEntry) (members : List (List ℕ))
    → ((c : ℕ)
        → (entries : List AddressEntry) × (gather es (get_or members c []) ≡ some entries)
          × P c entries)
    → (tables : List (List AddressEntry)) × (addr_entries_per_cluster es members ≡ some tables)
      × ((c : ℕ) → P c (get_or tables c []))
unfolding addr_entries_per_cluster gather
addr_entries_per_cluster_lem P es [] h = (
  [],
  refl,
  λ c. let (entries, run, p) = h c in subst (P c) (sym (some-injective [] entries run)) p,
)
addr_entries_per_cluster_lem P es (m ∷ members) h =
    let (entries, run, p) = h 0 in
    let (tables, runs, ps) =
      addr_entries_per_cluster_lem (λ c. P (suc c)) es members (λ c. h (suc c)) in
    (entries ∷ tables, rw (run, runs), each entries tables p ps)
  where
    each :
        (entries : List AddressEntry) (tables : List (List AddressEntry))
        → P 0 entries
        → ((c : ℕ) → P (suc c) (get_or tables c []))
        → (c : ℕ) → P c (get_or (entries ∷ tables) c [])
    each entries tables p ps zero = p
    each entries tables p ps (suc c) = ps c

zero_mod : (n : ℕ) → 0 % n ≡ 0
zero_mod n = omega arith

-- A run of the data phase on a closed writer: it opened, stored the rows and closed.
write_data-Stored :
    (os : OutputStream) (w w' : DataFileWriter os) (path : String) (dim ps : ℕ)
    (schemas : List ColumnSchema) (rows : List Row) (es : List AddressEntry)
    → os.is_open w.file ≡ false
    → os.is_open (os.open_file w.file path) ≡ true
    → All (IsRow dim schemas ps) rows
    → length rows < 2 ^ 32
    → write_data os path dim schemas ps rows w ≡ some (value es, w')
    → (w₂ : DataFileWriter os) × Stored os (fresh os path 0 dim schemas ps w.file) w₂ es rows
      × (record w₂ { file = os.close w₂.file; finalized = true } ≡ w')
unfolding write_data
write_data-Stored os w w' path dim ps schemas rows es closed ready fits count run =
    let w₁ = fresh os path 0 dim schemas ps w.file in
    let (opened, empty) = ((open_writer_lem os w path 0 dim ps schemas).1 closed).0 ready in
    let finish = λ (addrs : List AddressEntry). Action.◌>>◌ (finalize_writer os) (pure addrs) in
    let (_, w₁', run₁, rest) =
      bind-value {A = Unit {0}} (open_writer os path 0 dim schemas ps)
        (λ _. Action.◌>>=◌ (write_rows os rows) finish) w w' es run in
    let same₁ : w₁' ≡ w₁ = (returned (sym run₁ ∙ opened)).1 in
    let (es₂, w₂, run₂, last) =
      bind-value {A = List AddressEntry} (write_rows os rows) finish w₁' w' es rest in
    let stored : Stored os w₁ w₂ es₂ rows =
      write_rows-Stored os w₁ w₂ rows es₂
        (record { opened = ready; live = refl; at_end = ap length empty; room = omega arith }) fits
        (ap (write_rows os rows) (sym same₁) ∙ run₂) in
    let closes = ((finalize_writer_lem os w₂).1 stored.ready.opened stored.ready.live).0 in
    let (_, w₃, run₃, end) =
      bind-value {A = Unit {0}} (finalize_writer os) (λ _. pure es₂) w₂ w' es last in
    let same₃ = (returned (sym closes ∙ run₃)).1 in
    let (same, stays) = returned end in
    (w₂, subst (λ (l : List AddressEntry). Stored os w₁ w₂ l rows) same stored, same₃ ∙ stays)

-- `entries` are the addresses of the rows of cluster `c`, also after its address table is written and read.
abbrev pub IsTable : DataFileReader → Isa → ℕ → List Row → List ℕ → ℕ → List AddressEntry → Type 0
IsTable r isa ps rows assignments c entries =
    (chosen : List Row) × (gather rows (members_of c 0 assignments) ≡ some chosen)
    × ((encode_raw_table_v2 entries ps >>= decode_column isa) ≡ some (value entries))
    × AreReadable r entries chosen

-- The data phase of a build on a closed writer, with pages of two bytes or more, fewer than 2^32 rows
-- that fit the columns, an assignment below `k` for each of them, a file of fewer than 2^32 pages,
-- and a stream that keeps its bytes when it is closed. When it returns, the grouping and the
-- gathering succeed, and for each cluster the raw address table decodes, with every kernel, to
-- its addresses, at which ReadRecord on the file finds the vectors and payloads of just the rows
-- that are assigned to the cluster, in order. No read of the file fails.
pub cluster_records :
    (os : OutputStream) (w w' : DataFileWriter os) (path : String) (dim ps k : ℕ)
    (schemas : List ColumnSchema) (rows : List Row) (assignments : List ℕ) (es : List AddressEntry)
    (isa : Isa) (r : DataFileReader) (f : InputFile)
    → os.is_open w.file ≡ false
    → os.is_open (os.open_file w.file path) ≡ true
    → ((s : os.Stream) → os.contents (os.close s) ≡ os.contents s)
    → 1 < ps
    → All (IsRow dim schemas ps) rows
    → length rows < 2 ^ 32
    → length assignments ≡ length rows
    → All (λ c. c < k) assignments
    → write_data os path dim schemas ps rows w ≡ some (value es, w')
    → w'.current_offset < 2 ^ 32 * ps
    → r.fd ≡ some f
    → r.dim ≡ dim
    → r.payload_schemas ≡ schemas
    → f.contents ≡ os.contents w'.file
    → ((o n : ℕ) → f.pread o n ≢ none)
    → (members : List (List ℕ)) × (tables : List (List AddressEntry)) × (cluster_members k
          assignments
        ≡ some members)
      × (addr_entries_per_cluster es members ≡ some tables)
      × ((c : ℕ) → IsTable r isa ps rows assignments c (get_or tables c []))
cluster_records os w w' path dim ps k schemas rows assignments es isa r f closed ready closes paged
      fits count same below run pages fd is_dim is_schemas file reads =
    let (w₂, stored, end) =
      write_data-Stored os w w' path dim ps schemas rows es closed ready fits count run in
    let end_offset : w₂.current_offset ≡ w'.current_offset =
      ap (λ (v : DataFileWriter os). v.current_offset) end in
    let contents : f.contents ≡ os.contents w₂.file ++ [] =
      file
      ∙ ap (λ (v : DataFileWriter os). os.contents v.file) (sym end)
      ∙ closes w₂.file
      ∙ sym (append-nil (os.contents w₂.file)) in
    let readable = stored.readable r f [] fd is_dim is_schemas contents reads in
    let aligned = stored.paged paged (zero_mod ps) in
    let (members, grouped, long, here) = cluster_members_lem k assignments below in
    let table : (c : ℕ)
        → (entries : List AddressEntry) × (gather es (get_or members c []) ≡ some entries)
          × IsTable r isa ps rows assignments c entries =
      λ c.
        let (entries, chosen, gathered, chosen_run, back, found) =
          cluster_table r isa ps w₂.current_offset k c es rows assignments paged (omega arith)
            (omega (arith, stored.ready.room)) count same readable aligned in
        (entries, ap (gather es) (here c) ∙ gathered, (chosen, chosen_run, back, found)) in
    let (tables, run_tables, each) =
      addr_entries_per_cluster_lem (IsTable r isa ps rows assignments) es members table in
    (members, tables, grouped, run_tables, each)
