-- ===== src/Storage/DataFile/Layout.antt =====
-- The bytes of a record, and what a call that writes some bytes does to the writer.
use mathlib.Core.List.{append-nil, append_assoc}
use vec_fetch.Prelude.{
  ℕ, ◌+◌, ◌-◌, ◌*◌, ◌/◌, ◌^◌, ◌<◌, Option, none, some, ◌≡◌, refl, sym, ap, ◌∙◌, arith, false, List,
  [], ◌∷◌, ◌++◌, ltb, if◌then◌else◌, length, length-append, take, replicate, u32, u64,
}
use vec_fetch.Types.Column.{ColumnSchema, Datum, dtype_size, dtype_is_fixed_width}
use vec_fetch.Status.{StatusOr, value, failed, Failure, StatusCode}
use vec_fetch.Status.Action.{Action, and_then, ◌>>=◌}
use vec_fetch.Storage.DataFile.{u32_bytes}
use vec_fetch.Storage.DataFile.Writer.{OutputStream, DataFileWriter}

unfoldable pub datum_bytes : Datum → ColumnSchema → List ℕ
datum_bytes d schema =
    if dtype_is_fixed_width schema.dtype
    then take (dtype_size schema.dtype) d.fixed
    else u32_bytes (u32 (length d.var_data)) ++ take (u32 (length d.var_data)) d.var_data

unfoldable pub payload_bytes : List Datum → List ColumnSchema → List ℕ
payload_bytes [] schemas = []
payload_bytes (d ∷ payload) [] = []
payload_bytes (d ∷ payload) (schema ∷ schemas) =
    datum_bytes d schema ++ payload_bytes payload schemas

-- The zeros behind `n` bytes, up to a whole page.
unfoldable pub padding : ℕ → ℕ → ℕ
padding n page_size = if ltb 1 page_size then (n + page_size - 1) / page_size * page_size - n else 0

module _ (os : OutputStream) where
  -- The writer `w'` is `w` with the bytes `bs` behind its others.
  pub record Extends (w w' : DataFileWriter os) (bs : List ℕ) : Type 0 where
    pub contents : os.contents w'.file ≡ os.contents w.file ++ bs
    pub offset : w'.current_offset ≡ u64 (w.current_offset + length bs)
    pub open_still : os.is_open w'.file ≡ os.is_open w.file
    pub dim : w'.dim ≡ w.dim
    pub schemas : w'.payload_schemas ≡ w.payload_schemas
    pub page_size : w'.page_size ≡ w.page_size
    pub finalized : w'.finalized ≡ w.finalized
    pub records : w'.num_records ≡ w.num_records

  Extends-trans :
      (w w' w'' : DataFileWriter os) (bs cs : List ℕ)
      → Extends w w' bs
      → Extends w' w'' cs
      → Extends w w'' (bs ++ cs)
  Extends-trans w w' w'' bs cs e f = record {
    contents =
        f.contents
        ∙ ap (λ (l : List ℕ). l ++ cs) e.contents
        ∙ append_assoc (os.contents w.file) bs cs;
    offset = omega (arith, f.offset, e.offset, length-append bs cs);
    open_still = f.open_still ∙ e.open_still;
    dim = f.dim ∙ e.dim;
    schemas = f.schemas ∙ e.schemas;
    page_size = f.page_size ∙ e.page_size;
    finalized = f.finalized ∙ e.finalized;
    records = f.records ∙ e.records;
  }

  -- The bytes `bs` were to stand behind those of `w`, and the stream failed at one of the writes: it had
  -- taken on the bytes `before` when it refused `chunk`. No record is counted.
  pub record Failed (w w' : DataFileWriter os) (bs : List ℕ) (f : Failure) : Type 0 where
    pub stream : os.Stream
    pub before : List ℕ
    pub chunk : List ℕ
    pub rest : List ℕ
    pub parts : bs ≡ before ++ (chunk ++ rest)
    pub contents : os.contents stream ≡ os.contents w.file ++ before
    pub open_still : os.is_open stream ≡ os.is_open w.file
    pub refused : (os.write stream chunk).1 ≡ false
    pub file : w'.file ≡ (os.write stream chunk).0
    pub offset : w'.current_offset ≡ u64 (w.current_offset + length before)
    pub records : w'.num_records ≡ w.num_records
    pub finalized : w'.finalized ≡ w.finalized
    pub code : f.code ≡ StatusCode.io_error

  -- A call on `w` that wrote `bs` in full, or failed at one of the writes.
  abbrev pub Wrote :
      {A : Type 0} → DataFileWriter os → List ℕ → Option (StatusOr A × DataFileWriter os) → Type 0
  Wrote w bs none = ⊥
  Wrote w bs (some (value _, w')) = Extends w w' bs
  Wrote w bs (some (failed f, w')) = Failed w w' bs f

  Failed-trans :
      (w w' w'' : DataFileWriter os) (bs cs : List ℕ) (f : Failure)
      → Extends w w' bs
      → Failed w' w'' cs f
      → Failed w w'' (bs ++ cs) f
  Failed-trans w w' w'' bs cs f e h = record {
    stream = h.stream;
    before = bs ++ h.before;
    chunk = h.chunk;
    rest = h.rest;
    parts =
        ap (λ (l : List ℕ). bs ++ l) h.parts ∙ sym (append_assoc bs h.before (h.chunk ++ h.rest));
    contents =
        h.contents
        ∙ ap (λ (l : List ℕ). l ++ h.before) e.contents
        ∙ append_assoc (os.contents w.file) bs h.before;
    open_still = h.open_still ∙ e.open_still;
    refused = h.refused;
    file = h.file;
    offset = omega (arith, h.offset, e.offset, length-append bs h.before);
    records = h.records ∙ e.records;
    finalized = h.finalized ∙ e.finalized;
    code = h.code;
  }

  Failed-longer :
      (w w' : DataFileWriter os) (bs cs : List ℕ) (f : Failure)
      → Failed w w' bs f
      → Failed w w' (bs ++ cs) f
  Failed-longer w w' bs cs f h = record {
    stream = h.stream;
    before = h.before;
    chunk = h.chunk;
    rest = h.rest ++ cs;
    parts =
        ap (λ (l : List ℕ). l ++ cs) h.parts
        ∙ append_assoc h.before (h.chunk ++ h.rest) cs
        ∙ ap (λ (l : List ℕ). h.before ++ l) (append_assoc h.chunk h.rest cs);
    contents = h.contents;
    open_still = h.open_still;
    refused = h.refused;
    file = h.file;
    offset = h.offset;
    records = h.records;
    finalized = h.finalized;
    code = h.code;
  }

  Wrote-trans :
      {B : Type 0} (w w' : DataFileWriter os) (bs cs : List ℕ)
      (r : Option (StatusOr B × DataFileWriter os))
      → Extends w w' bs
      → Wrote w' cs r
      → Wrote w (bs ++ cs) r
  Wrote-trans w w' bs cs none e h = h
  Wrote-trans w w' bs cs (some (value _, w'')) e h = Extends-trans w w' w'' bs cs e h
  Wrote-trans w w' bs cs (some (failed f, w'')) e h = Failed-trans w w' w'' bs cs f e h

  pub Wrote-bind :
      {A B : Type 0} (w : DataFileWriter os) (m : Action (DataFileWriter os) A)
      (k : A → Action (DataFileWriter os) B) (bs cs : List ℕ)
      → Wrote w bs (m w)
      → ((a : A) (w' : DataFileWriter os) → Extends w w' bs → Wrote w' cs (k a w'))
      → Wrote w (bs ++ cs) ((m >>= k) w)
  Wrote-bind {A} {B} w m k bs cs h hk = go (m w) h
    where
      go :
          (r : Option (StatusOr A × DataFileWriter os))
          → Wrote w bs r
          → Wrote {A = B} w (bs ++ cs) (and_then r k)
      go none e = e
      go (some (value a, w')) e = Wrote-trans w w' bs cs (k a w') e (hk a w' e)
      go (some (failed f, w')) e = Failed-longer w w' bs cs f e

  pub Wrote-pure :
      (w : DataFileWriter os)
      → w.current_offset < 2 ^ 64
      → Wrote {A = Unit {0}} w [] (some (value tt, w))
  Wrote-pure w h = record {
    contents = sym (append-nil (os.contents w.file));
    offset = omega arith;
    open_still = refl;
    dim = refl;
    schemas = refl;
    page_size = refl;
    finalized = refl;
    records = refl;
  }

  -- The bytes of a record.
  abbrev pub raw_bytes : DataFileWriter os → List ℕ → List Datum → List ℕ
  raw_bytes w vec payload = take (u32 (w.dim * 4)) vec ++ payload_bytes payload w.payload_schemas

  abbrev pub record_bytes : DataFileWriter os → List ℕ → List Datum → List ℕ
  record_bytes w vec payload =
      raw_bytes w vec payload
      ++ replicate (padding (length (raw_bytes w vec payload)) w.page_size) 0
