-- ===== src/Storage/DataFile/Writes.antt =====
-- The writer writes the bytes of a record.
use mathlib.Core.List.{append-nil, append_assoc}
use native.Mathlib.Nat.{div-mul-le_self, lt-div-mul-add}
use Prim.Native.String.{String}
use vec_fetch.Prelude.{
  ℕ, ◌+◌, ◌-◌, ◌*◌, ◌/◌, ◌^◌, ◌<◌, ◌≤◌, le→leb, ◌≡◌, refl, sym, arith, Bool-cases, inl, inr, List,
  [], ◌∷◌, ◌++◌, ltb, if◌then◌else◌, length, length-append, take, replicate, u32, u64,
}
use vec_fetch.Types.Column.{ColumnSchema, Datum, dtype_size, dtype_is_fixed_width}
use vec_fetch.Status.Action.{pure}
use vec_fetch.Storage.DataFile.{u32_bytes}
use vec_fetch.Storage.DataFile.Writer.{
  OutputStream, DataFileWriter, write_bytes, write_vector, write_datum, write_payload,
  write_padding, write_body,
}
use vec_fetch.Storage.DataFile.Layout.{
  datum_bytes, payload_bytes, padding, Wrote, Wrote-bind, Wrote-pure, raw_bytes, record_bytes,
}

module _ (os : OutputStream) where
  write_bytes_lem :
      (w : DataFileWriter os) (bs : List ℕ) (message : String)
      → w.current_offset < 2 ^ 64
      → Wrote os w bs (write_bytes os bs message w)
  unfolding write_bytes
  write_bytes_lem w bs message h = elim (Bool-cases (os.write w.file bs).1) [
    | inl good ↦ rw good (record {
      contents = os.contents-write w.file bs good;
      offset = refl;
      open_still = os.is_open-write w.file bs;
      dim = refl;
      schemas = refl;
      page_size = refl;
      finalized = refl;
      records = refl;
    })
    | inr bad ↦ rw bad (record {
      stream = w.file;
      before = [];
      chunk = bs;
      rest = [];
      parts = sym (append-nil bs);
      contents = sym (append-nil (os.contents w.file));
      open_still = refl;
      refused = bad;
      file = refl;
      offset = omega arith;
      records = refl;
      finalized = refl;
      code = refl;
    })
  ]

  write_vector_lem :
      (w : DataFileWriter os) (vec_bytes : ℕ) (vec : List ℕ)
      → vec_bytes ≤ length vec
      → w.current_offset < 2 ^ 64
      → Wrote os w (take vec_bytes vec) (write_vector os vec_bytes vec w)
  unfolding write_vector
  write_vector_lem w vec_bytes vec long h =
      rw (le→leb vec_bytes (length vec) long)
        (write_bytes_lem w (take vec_bytes vec) "Failed to write vector data" h)

  write_datum_lem :
      (w : DataFileWriter os) (d : Datum) (schema : ColumnSchema)
      → w.current_offset < 2 ^ 64
      → Wrote os w (datum_bytes d schema) (write_datum os d schema w)
  unfolding write_datum datum_bytes
  write_datum_lem w d schema h = elim (Bool-cases (dtype_is_fixed_width schema.dtype)) [
    | inl fixed ↦
        rw fixed (
          write_bytes_lem w (take (dtype_size schema.dtype) d.fixed) "Failed to write fixed datum"
            h)
    | inr variable ↦
        let len = u32 (length d.var_data) in
        rw variable (
          Wrote-bind os w (write_bytes os (u32_bytes len) "Failed to write var-length prefix")
            (λ _.
              if ltb 0 len
              then write_bytes os (take len d.var_data) "Failed to write var-length data"
              else pure tt)
            (u32_bytes len) (take len d.var_data)
            (write_bytes_lem w (u32_bytes len) "Failed to write var-length prefix" h)
            (λ _ w' e. elim (Bool-cases (ltb 0 len)) [
              | inl more ↦ rw more (
                  write_bytes_lem w' (take len d.var_data) "Failed to write var-length data"
                    (omega (arith, e.offset)))
              | inr done ↦
                  let nothing : len ≡ 0 = ground arith in
                  rw (done, nothing) (Wrote-pure os w' (omega (arith, e.offset)))
            ]))
  ]

  write_payload_lem :
      (w : DataFileWriter os) (payload : List Datum) (schemas : List ColumnSchema)
      → w.current_offset < 2 ^ 64
      → Wrote os w (payload_bytes payload schemas) (write_payload os payload schemas w)
  unfolding write_payload payload_bytes
  write_payload_lem w [] schemas h = Wrote-pure os w h
  write_payload_lem w (d ∷ payload) [] h = Wrote-pure os w h
  write_payload_lem w (d ∷ payload) (schema ∷ schemas) h =
      Wrote-bind os w (write_datum os d schema) (λ _. write_payload os payload schemas)
        (datum_bytes d schema) (payload_bytes payload schemas) (write_datum_lem w d schema h)
        (λ _ w' e. write_payload_lem w' payload schemas (omega (arith, e.offset)))

  write_padding_lem :
      (w : DataFileWriter os) (offset page_size n : ℕ)
      → w.current_offset ≡ offset + n
      → offset + n + page_size < 2 ^ 64
      → Wrote os w (replicate (padding n page_size) 0) (write_padding os offset page_size w)
  unfolding write_padding padding
  write_padding_lem w offset page_size n at room =
      let raw : u64 (w.current_offset + 2 ^ 64 - offset) ≡ n = omega arith in
      rw raw (elim (Bool-cases (ltb 1 page_size)) [
        | inl whole ↦
            let positive : 0 < page_size = ground arith in
            let up : u64 (n + page_size + (2 ^ 64 - 1)) ≡ n + page_size - 1 = omega arith in
            let count : u64 (u64 ((n + page_size - 1) / page_size * page_size) + 2 ^ 64 - n)
                ≡ (n + page_size - 1) / page_size * page_size - n =
              omega (
                arith,
                div-mul-le_self (n + page_size - 1) page_size,
                lt-div-mul-add {a = n + page_size - 1} positive,
              ) in
            let pad = (n + page_size - 1) / page_size * page_size - n in
            rw (up, count, whole)
              (elim (Bool-cases (ltb 0 pad)) [
                | inl some_pad ↦ rw some_pad (
                    write_bytes_lem w (replicate pad 0) "Failed to write page padding"
                      (omega arith))
                | inr no_pad ↦
                    let nothing : pad ≡ 0 = ground arith in
                    rw (no_pad, nothing) (Wrote-pure os w (omega arith))
              ])
        | inr bytes ↦ rw bytes (Wrote-pure os w (omega arith))
      ])

  pub write_body_lem :
      (w : DataFileWriter os) (vec : List ℕ) (payload : List Datum)
      → u32 (w.dim * 4) ≤ length vec
      → w.current_offset + length (raw_bytes os w vec payload) + w.page_size < 2 ^ 64
      → Wrote os w (record_bytes os w vec payload) (write_body os w vec payload w)
  unfolding write_body
  write_body_lem w vec payload long_vec room =
      let head = take (u32 (w.dim * 4)) vec in
      let tail = payload_bytes payload w.payload_schemas in
      let pad = replicate (padding (length (raw_bytes os w vec payload)) w.page_size) 0 in
      let split = append_assoc head tail pad in
      let long = length-append head tail in
      rw split (
        Wrote-bind os w (write_vector os (u32 (w.dim * 4)) vec) _ head (tail ++ pad)
          (write_vector_lem w (u32 (w.dim * 4)) vec long_vec (omega arith))
          (λ _ w₁ e₁.
            Wrote-bind os w₁ (write_payload os payload w.payload_schemas) _ tail pad
              (write_payload_lem w₁ payload w.payload_schemas (omega (arith, e₁.offset)))
              (λ _ w₂ e₂.
                write_padding_lem w₂ w.current_offset w.page_size
                  (length (raw_bytes os w vec payload)) (omega (arith, e₁.offset, e₂.offset, long))
                  room)))
