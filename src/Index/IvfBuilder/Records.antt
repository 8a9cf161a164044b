-- ===== src/Index/IvfBuilder/Records.antt =====
-- What the loop over the vectors writes.
use mathlib.Core.List.{append-nil, append_assoc}
use mathlib.Core.Path.{subst}
use native.Mathlib.Nat.{mod-add-mod}
use vec_fetch.Prelude.{
  ℕ, suc, ◌+◌, ◌*◌, ◌%◌, ◌^◌, ◌≤◌, ◌<◌, ◌≡◌, ◌≢◌, refl, sym, ap, ◌∙◌, arith, true, false, List, [],
  ◌∷◌, ◌++◌, none, some, length, length-append, take, All, u32,
}
use vec_fetch.Types.{AddressEntry}
use vec_fetch.Types.Column.{ColumnSchema, Datum}
use vec_fetch.Status.{value}
use vec_fetch.Status.Action.{◌>>=◌, pure, bind-value, returned}
use vec_fetch.Storage.DataFile.Writer.{OutputStream, DataFileWriter, write_record}
use vec_fetch.Storage.DataFile.Layout.{payload_bytes, raw_bytes, record_bytes}
use vec_fetch.Storage.DataFile.Append.{
  Recorded, Records, write_record-Records, length-record_bytes, padding-le,
}
use vec_fetch.Storage.DataFile.Reader.{InputFile, DataFileReader, read_record}
use vec_fetch.Storage.DataFile.RoundTrip.{AreColumns}
use vec_fetch.Storage.DataFile.WriteRead.{read_record-write_record}
use vec_fetch.Index.IvfBuilder.Data.{Row, write_rows}

-- A vector of `dim` floats with a value for each column, in a record of less than 2^32 bytes.
pub record IsRow (dim : ℕ) (schemas : List ColumnSchema) (page_size : ℕ) (row : Row) : Type 0 where
  pub long : length row.0 ≡ u32 (dim * 4)
  pub columns : AreColumns row.1 schemas
  pub fits : length (take (u32 (dim * 4)) row.0 ++ payload_bytes row.1 schemas) + page_size < 2 ^ 32

-- The record at each address is the row.
unfoldable pub AreReadable : DataFileReader → List AddressEntry → List Row → Type 0
AreReadable r [] [] = Unit
AreReadable r (e ∷ es) (row ∷ rows) = (read_record r e ≡ some (value row)) × AreReadable r es rows
AreReadable r es rows = ⊥

-- Whole pages before `end`.
pub record IsPaged (ps end : ℕ) (e : AddressEntry) : Type 0 where
  pub offset : e.offset % ps ≡ 0
  pub size : e.size % ps ≡ 0
  pub small : e.size < 2 ^ 32
  pub inside : e.offset ≤ end

length-AreColumns :
    (payload : List Datum) (schemas : List ColumnSchema)
    → AreColumns payload schemas
    → length payload ≡ length schemas
length-AreColumns [] [] h = refl
length-AreColumns [] (s ∷ schemas) h = absurd h
length-AreColumns (d ∷ payload) [] h = absurd h
length-AreColumns (d ∷ payload) (s ∷ schemas) (h, hs) =
    ap suc (length-AreColumns payload schemas hs)

add_aligned : (a b d : ℕ) → a % d ≡ 0 → b % d ≡ 0 → (a + b) % d ≡ 0
add_aligned a b d ha hb =
    let none_left : 0 + b ≡ b = omega arith in rw (← mod-add-mod a d b, ha, none_left) hb

module _ (os : OutputStream) where
  abbrev pub Fitting : DataFileWriter os → List Row → Type 0
  Fitting w rows = All (IsRow w.dim w.payload_schemas w.page_size) rows

  -- Open, at the end of its file, with room for `rows` more records.
  pub record IsReady (w : DataFileWriter os) (rows : ℕ) : Type 0 where
    pub opened : os.is_open w.file ≡ true
    pub live : w.finalized ≡ false
    pub at_end : length (os.contents w.file) ≡ w.current_offset
    pub room : w.current_offset + rows * 2 ^ 32 < 2 ^ 64

  -- `w'` is `w` behind `rows`, which are at the addresses `es`.
  pub record Stored (w w' : DataFileWriter os) (es : List AddressEntry) (rows : List Row)
      : Type 0 where
    pub bytes : List ℕ
    pub contents : os.contents w'.file ≡ os.contents w.file ++ bytes
    pub ready : IsReady w' 0
    pub forward : w.current_offset ≤ w'.current_offset
    pub same_number : length es ≡ length rows
    pub readable :
        (r : DataFileReader) (f : InputFile) (more : List ℕ)
        → r.fd ≡ some f
        → r.dim ≡ w.dim
        → r.payload_schemas ≡ w.payload_schemas
        → f.contents ≡ os.contents w'.file ++ more
        → ((o n : ℕ) → f.pread o n ≢ none)
        → AreReadable r es rows
    pub paged :
        1 < w.page_size
        → w.current_offset % w.page_size ≡ 0
        → All (IsPaged w.page_size w'.current_offset) es

  -- A row fits the columns, the offset and the size of a record.
  pub record_fits :
      (w : DataFileWriter os) (row : Row) (n : ℕ)
      → IsReady w (suc n)
      → IsRow w.dim w.payload_schemas w.page_size row
      → (length row.1 ≡ length w.payload_schemas)
        × (w.current_offset + length (raw_bytes os w row.0 row.1) + w.page_size < 2 ^ 64)
        × (length (record_bytes os w row.0 row.1) < 2 ^ 32)
  record_fits w row n ready is = (
    length-AreColumns row.1 w.payload_schemas is.columns,
    omega (arith, is.fits, ready.room),
    omega (
      arith,
      is.fits,
      length-record_bytes os w row.0 row.1,
      padding-le os (length (raw_bytes os w row.0 row.1)) w.page_size,
    ),
  )

  pub Recorded-row :
      (w w' : DataFileWriter os) (row : Row) (e : AddressEntry) (n : ℕ)
      → IsReady w (suc n)
      → IsRow w.dim w.payload_schemas w.page_size row
      → write_record os row.0 row.1 w ≡ some (value e, w')
      → Recorded os w w' e (record_bytes os w row.0 row.1)
        × (1 < w.page_size → length (record_bytes os w row.0 row.1) % w.page_size ≡ 0)
        × (length (record_bytes os w row.0 row.1) < 2 ^ 32)
        × (w.current_offset + length (raw_bytes os w row.0 row.1) + w.page_size < 2 ^ 64)
  Recorded-row w w' row e n ready is run =
      let (same, room, small) = record_fits w row n ready is in
      let (recorded, paged) =
        write_record-Records os w row.0 row.1 ready.opened ready.live same (omega (arith, is.long))
          room small in
      (subst (Records os w (record_bytes os w row.0 row.1)) run recorded, paged, small, room)

  pub IsReady-Recorded :
      (w w' : DataFileWriter os) (e : AddressEntry) (bs : List ℕ) (n : ℕ)
      → IsReady w (suc n)
      → Recorded os w w' e bs
      → length bs < 2 ^ 32
      → IsReady w' n
  IsReady-Recorded w w' e bs n ready recorded small = record {
    opened = recorded.open_still ∙ ready.opened;
    live = recorded.finalized ∙ ready.live;
    at_end =
        ap length recorded.contents
        ∙ length-append (os.contents w.file) bs
        ∙ ap (λ (n : ℕ). n + length bs) ready.at_end
        ∙ sym recorded.offset;
    room = omega (arith, ready.room, recorded.offset);
  }

  pub Fitting-Recorded :
      (w w' : DataFileWriter os) (e : AddressEntry) (bs : List ℕ) (rows : List Row)
      → Recorded os w w' e bs
      → Fitting w rows
      → Fitting w' rows
  Fitting-Recorded w w' e bs rows recorded h =
      subst (λ d. All (IsRow d w'.payload_schemas w'.page_size) rows) (sym recorded.dim)
        (subst (λ s. All (IsRow w.dim s w'.page_size) rows) (sym recorded.schemas)
          (subst (λ p. All (IsRow w.dim w.payload_schemas p) rows) (sym recorded.page_size) h))

  IsPaged-head :
      (w w' : DataFileWriter os) (e : AddressEntry) (bs : List ℕ) (end : ℕ)
      → Recorded os w w' e bs
      → w.current_offset % w.page_size ≡ 0
      → length bs % w.page_size ≡ 0
      → length bs < 2 ^ 32
      → w'.current_offset ≤ end
      → IsPaged w.page_size end e × ((w.current_offset + length bs) % w.page_size ≡ 0)
  IsPaged-head w w' e bs end recorded aligned whole small before =
      let offset = ap (λ (a : AddressEntry). a.offset) recorded.address in
      let size = ap (λ (a : AddressEntry). a.size) recorded.address in
      (
        record {
          offset = ap (λ (n : ℕ). n % w.page_size) offset ∙ aligned;
          size = ap (λ (n : ℕ). n % w.page_size) size ∙ whole;
          small = omega (arith, size);
          inside = omega (arith, offset, recorded.offset);
        },
        add_aligned w.current_offset (length bs) w.page_size aligned whole,
      )

  Stored-nil : (w : DataFileWriter os) → IsReady w 0 → Stored w w [] []
  unfolding AreReadable
  Stored-nil w ready = record {
    bytes = [];
    contents = sym (append-nil (os.contents w.file));
    ready = ready;
    forward = omega arith;
    same_number = refl;
    readable = λ r f more fd dim schemas file reads. tt;
    paged = λ h aligned. tt;
  }

  Stored-cons :
      (w w₁ w₂ : DataFileWriter os) (row : Row) (rows : List Row) (e : AddressEntry)
      (es : List AddressEntry)
      → IsReady w (suc (length rows))
      → IsRow w.dim w.payload_schemas w.page_size row
      → Recorded os w w₁ e (record_bytes os w row.0 row.1)
      → (1 < w.page_size → length (record_bytes os w row.0 row.1) % w.page_size ≡ 0)
      → length (record_bytes os w row.0 row.1) < 2 ^ 32
      → w.current_offset + length (raw_bytes os w row.0 row.1) + w.page_size < 2 ^ 64
      → write_record os row.0 row.1 w ≡ some (value e, w₁)
      → Stored w₁ w₂ es rows
      → Stored w w₂ (e ∷ es) (row ∷ rows)
  unfolding AreReadable
  Stored-cons w w₁ w₂ row rows e es ready is recorded whole small room run stored =
      let bs = record_bytes os w row.0 row.1 in
      let before = os.contents w.file in
      let onwards : os.contents w₂.file ≡ os.contents w₁.file ++ stored.bytes = stored.contents in
      let same_pages =
        subst (λ (p : ℕ). 1 < p → w₁.current_offset % p ≡ 0 → All (IsPaged p w₂.current_offset) es)
          recorded.page_size stored.paged in
      record {
        bytes = bs ++ stored.bytes;
        contents =
            onwards
            ∙ ap (λ (l : List ℕ). l ++ stored.bytes) recorded.contents
            ∙ append_assoc before bs stored.bytes;
        ready = stored.ready;
        forward = omega (arith, recorded.offset, stored.forward);
        same_number = ap suc stored.same_number;
        readable = λ r f more fd dim schemas file reads. (
          read_record-write_record os w w₁ row.0 row.1 e r f (stored.bytes ++ more) ready.opened
              ready.live (length-AreColumns row.1 w.payload_schemas is.columns) room small
              ready.at_end is.long is.columns run fd dim schemas
              (file
                ∙ ap (λ (l : List ℕ). l ++ more) onwards
                ∙ append_assoc (os.contents w₁.file) stored.bytes more)
              (λ o n lo hi. reads o n),
          stored.readable r f more fd (dim ∙ sym recorded.dim) (schemas ∙ sym recorded.schemas) file
              reads,
        );
        paged = λ h aligned.
            let (head, next) =
              IsPaged-head w w₁ e bs w₂.current_offset recorded aligned (whole h) small
                stored.forward in
            (head, same_pages h (ap (λ (n : ℕ). n % w.page_size) recorded.offset ∙ next));
      }

  -- A run of the loop that returns, on a writer with room for the rows, stores them.
  pub write_rows-Stored :
      (w w' : DataFileWriter os) (rows : List Row) (es : List AddressEntry)
      → IsReady w (length rows)
      → Fitting w rows
      → write_rows os rows w ≡ some (value es, w')
      → Stored w w' es rows
  unfolding write_rows AreReadable
  write_rows-Stored w w' [] es ready fits run =
      let (same, stays) = returned run in
      subst (λ (s : DataFileWriter os). Stored w s es []) stays
        (subst (λ (l : List AddressEntry). Stored w w l []) same (Stored-nil w ready))
  write_rows-Stored w w' ((vec, payload) ∷ rows) es ready (is, fits) run =
      let (e, w₁, run₁, rest) =
        bind-value {A = AddressEntry} (write_record os vec payload)
          (λ a. write_rows os rows >>= λ addrs. pure (a ∷ addrs)) w w' es run in
      let (es₁, w₂, run₂, last) =
        bind-value {A = List AddressEntry} (write_rows os rows) (λ addrs. pure (e ∷ addrs)) w₁ w' es
          rest in
      let bs = record_bytes os w vec payload in
      let (recorded, whole, small, room) =
        Recorded-row w w₁ (vec, payload) e (length rows) ready is run₁ in
      let stored =
        write_rows-Stored w₁ w₂ rows es₁
          (IsReady-Recorded w w₁ e bs (length rows) ready recorded small)
          (Fitting-Recorded w w₁ e bs rows recorded fits) run₂ in
      let (same, stays) = returned last in
      subst (λ (s : DataFileWriter os). Stored w s es ((vec, payload) ∷ rows)) stays
        (subst (λ (l : List AddressEntry). Stored w w₂ l ((vec, payload) ∷ rows)) same
          (Stored-cons w w₁ w₂ (vec, payload) rows e es₁ ready is recorded whole small room run₁
            stored))
