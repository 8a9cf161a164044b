-- ===== src/Storage/DataFile/RoundTrip.antt =====
-- Reading the record that was written.
use mathlib.Core.List.{append_assoc}
use native.Mathlib.Nat.{mod-eq_of_lt}
use vec_fetch.Prelude.{
  ℕ, ◌+◌, ◌-◌, ◌^◌, ◌≤◌, ◌<◌, ◌≡◌, refl, sym, ap, ◌∙◌, arith, true, false, Bool-cases, inl, inr,
  List, [], ◌∷◌, ◌++◌, some, leb, le→leb, le→ltb, length, length-append, length-take, take, drop,
  replicate, take-append, take_self, drop-append, u32,
}
use vec_fetch.Bytes
use vec_fetch.Types.Column.{ColumnSchema, Datum, dtype_size, dtype_is_fixed_width}
use vec_fetch.Status.{value}
use vec_fetch.Storage.DataFile.{u32_bytes}
use vec_fetch.Storage.DataFile.Layout.{datum_bytes, payload_bytes}
use vec_fetch.Storage.DataFile.Reader.{slice, copy, push_datum, parse_payload}

-- The value of a column: its type, and the eight bytes of the union or the bytes of the text.
abbrev pub IsColumn : Datum → ColumnSchema → Type 0
IsColumn d schema =
    (d.dtype ≡ schema.dtype)
    × (dtype_is_fixed_width schema.dtype ≡ true
        → (d.fixed
            ≡ take (dtype_size schema.dtype) d.fixed ++ replicate (8 - dtype_size schema.dtype) 0)
          × (dtype_size schema.dtype ≤ length d.fixed)
          × (d.var_data ≡ []))
    × (dtype_is_fixed_width schema.dtype ≡ false
        → (d.fixed ≡ replicate 8 0) × (length d.var_data < 2 ^ 32))

abbrev pub AreColumns : List Datum → List ColumnSchema → Type 0
AreColumns [] [] = Unit
AreColumns (d ∷ payload) (schema ∷ schemas) = IsColumn d schema × AreColumns payload schemas
AreColumns payload schemas = ⊥

pub copy_lem :
    (pre bs post : List ℕ) (offset count : ℕ)
    → offset ≡ length pre
    → count ≡ length bs
    → copy (pre ++ (bs ++ post)) offset count ≡ some bs
unfolding copy
copy_lem pre bs post offset count ho hc =
    let fits : leb (offset + count) (length (pre ++ (bs ++ post))) ≡ true =
      le→leb (offset + count) _
        (omega (arith, length-append pre (bs ++ post), length-append bs post)) in
    let cut : slice offset count (pre ++ (bs ++ post)) ≡ bs =
      ap (λ (k : ℕ). take count (drop k (pre ++ (bs ++ post)))) ho
      ∙ ap (take count) (drop-append pre (bs ++ post))
      ∙ take-append count bs post hc in
    rw (fits, cut)

value-u32_bytes : (n : ℕ) → n < 2 ^ 32 → Bytes.value (u32_bytes n) ≡ n
unfolding Bytes.value
value-u32_bytes n h = omega arith

module _ (schema : ColumnSchema) (schemas : List ColumnSchema) (buf : List ℕ) (buf_len offset : ℕ)
    (payload : List Datum) (small : buf_len < 2 ^ 32) where
  parse_payload-fixed :
      (bs : List ℕ)
      → dtype_is_fixed_width schema.dtype ≡ true
      → copy buf offset (dtype_size schema.dtype) ≡ some bs
      → offset + dtype_size schema.dtype ≤ buf_len
      → parse_payload schemas buf buf_len (offset + dtype_size schema.dtype) ≡ some (value payload)
      → parse_payload (schema ∷ schemas) buf buf_len offset
        ≡ some (
            value (
              record {
                dtype = schema.dtype;
                fixed = bs ++ replicate (8 - dtype_size schema.dtype) 0;
                var_data = [];
              }
              ∷ payload))
  unfolding parse_payload push_datum
  parse_payload-fixed bs fixed copied inside rest =
      let size = dtype_size schema.dtype in
      let next : u32 (offset + size) ≡ offset + size =
        mod-eq_of_lt {n = offset + size} (omega arith) in
      rw (fixed, le→ltb buf_len (offset + size) inside, copied, next, rest)

  parse_payload-var :
      (prefix bs : List ℕ) (len : ℕ)
      → dtype_is_fixed_width schema.dtype ≡ false
      → copy buf offset 4 ≡ some prefix
      → Bytes.value prefix ≡ len
      → copy buf (offset + 4) len ≡ some bs
      → offset + 4 + len ≤ buf_len
      → parse_payload schemas buf buf_len (offset + 4 + len) ≡ some (value payload)
      → parse_payload (schema ∷ schemas) buf buf_len offset
        ≡ some (
            value (record { dtype = schema.dtype; fixed = replicate 8 0; var_data = bs } ∷ payload))
  unfolding parse_payload push_datum
  parse_payload-var prefix bs len variable copied_prefix is_len copied inside rest =
      let start : u32 (offset + 4) ≡ offset + 4 = mod-eq_of_lt {n = offset + 4} (omega arith) in
      let next : u32 (offset + 4 + len) ≡ offset + 4 + len =
        mod-eq_of_lt {n = offset + 4 + len} (omega arith) in
      rw (
        variable,
        le→ltb buf_len (offset + 4) (omega arith),
        copied_prefix,
        is_len,
        start,
        next,
        le→ltb buf_len (offset + 4 + len) inside,
        copied,
        rest,
      )

Datum-ext :
    (d d' : Datum) → d.dtype ≡ d'.dtype → d.fixed ≡ d'.fixed → d.var_data ≡ d'.var_data → d ≡ d'
Datum-ext d d' t f v = λ i. record { dtype = t i; fixed = f i; var_data = v i }

-- The columns from `pre` on, of which the first one takes the bytes `bs`.
first_column :
    (pre bs rest post buf : List ℕ)
    → buf ≡ pre ++ ((bs ++ rest) ++ post)
    → (buf ≡ pre ++ (bs ++ (rest ++ post)))
      × (buf ≡ (pre ++ bs) ++ (rest ++ post))
      × (length pre + length bs ≤ length buf)
first_column pre bs rest post buf e =
    let nested : buf ≡ pre ++ (bs ++ (rest ++ post)) =
      e ∙ ap (λ (l : List ℕ). pre ++ l) (append_assoc bs rest post) in
    let flat : buf ≡ (pre ++ bs) ++ (rest ++ post) =
      nested ∙ sym (append_assoc pre bs (rest ++ post)) in
    let long : length buf ≡ length pre + length bs + length (rest ++ post) =
      ap length flat
      ∙ length-append (pre ++ bs) (rest ++ post)
      ∙ ap (λ (n : ℕ). n + length (rest ++ post)) (length-append pre bs) in
    (nested, flat, omega arith)

copy_lem' :
    (pre bs post buf : List ℕ) (offset count : ℕ)
    → buf ≡ pre ++ (bs ++ post)
    → offset ≡ length pre
    → count ≡ length bs
    → copy buf offset count ≡ some bs
copy_lem' pre bs post buf offset count e ho hc =
    ap (λ (b : List ℕ). copy b offset count) e ∙ copy_lem pre bs post offset count ho hc

pub parse_payload_lem :
    (pre post : List ℕ) (payload : List Datum) (schemas : List ColumnSchema) (buf : List ℕ)
    → AreColumns payload schemas
    → buf ≡ pre ++ (payload_bytes payload schemas ++ post)
    → length buf < 2 ^ 32
    → parse_payload schemas buf (length buf) (length pre) ≡ some (value payload)
unfolding payload_bytes
parse_payload_lem pre post [] [] buf h e small = unfold parse_payload in refl
parse_payload_lem pre post [] (schema ∷ schemas) buf h e small = absurd h
parse_payload_lem pre post (d ∷ payload) [] buf h e small = absurd h
parse_payload_lem pre post (d ∷ payload) (schema ∷ schemas) buf ((same_type, hf, hv), hs) e small =
    let rest_bytes = payload_bytes payload schemas in
    let size = dtype_size schema.dtype in
    elim (Bool-cases (dtype_is_fixed_width schema.dtype)) [
      | inl fixed ↦
          let bs = take size d.fixed in
          let (eight, enough, no_text) = hf fixed in
          let is_bytes : datum_bytes d schema ≡ bs = unfold datum_bytes in rw fixed in
          let size_bs : size ≡ length bs = omega (arith, length-take size d.fixed) in
          let (nested, flat, inside) =
            first_column pre bs rest_bytes post buf
              (e ∙ ap (λ (l : List ℕ). pre ++ ((l ++ rest_bytes) ++ post)) is_bytes) in
          let next : length (pre ++ bs) ≡ length pre + size = omega (arith, length-append pre bs) in
          let rest = parse_payload_lem (pre ++ bs) post payload schemas buf hs flat small in
          parse_payload-fixed schema schemas buf (length buf) (length pre) payload small bs fixed
            (copy_lem' pre bs (rest_bytes ++ post) buf (length pre) size nested refl size_bs)
            (omega arith) (rw (← next) rest)
          ∙ ap (λ (x : Datum). some (value (x ∷ payload)))
              (Datum-ext _ d (sym same_type) (sym eight) (sym no_text))
      | inr variable ↦
          let (no_fixed, short) = hv variable in
          let text = d.var_data in
          let len = length text in
          let prefix = u32_bytes len in
          let len32 : u32 len ≡ len = mod-eq_of_lt {n = len} short in
          let is_bytes : datum_bytes d schema ≡ prefix ++ text =
            unfold datum_bytes in rw (variable, len32, take_self len text refl) in
          let (nested, flat, inside) =
            first_column pre (prefix ++ text) rest_bytes post buf
              (e ∙ ap (λ (l : List ℕ). pre ++ ((l ++ rest_bytes) ++ post)) is_bytes) in
          let nested₁ : buf ≡ pre ++ (prefix ++ (text ++ (rest_bytes ++ post))) =
            nested
            ∙ ap (λ (l : List ℕ). pre ++ l) (append_assoc prefix text (rest_bytes ++ post)) in
          let nested₂ : buf ≡ (pre ++ prefix) ++ (text ++ (rest_bytes ++ post)) =
            nested₁ ∙ sym (append_assoc pre prefix (text ++ (rest_bytes ++ post))) in
          let both : length (prefix ++ text) ≡ 4 + len = length-append prefix text in
          let at_text : length pre + 4 ≡ length (pre ++ prefix) = sym (length-append pre prefix) in
          let next : length (pre ++ (prefix ++ text)) ≡ length pre + 4 + len =
            omega (arith, length-append pre (prefix ++ text)) in
          let rest =
            parse_payload_lem (pre ++ (prefix ++ text)) post payload schemas buf hs flat small in
          parse_payload-var schema schemas buf (length buf) (length pre) payload small prefix text
            len variable
            (copy_lem' pre prefix (text ++ (rest_bytes ++ post)) buf (length pre) 4 nested₁ refl
              refl)
            (value-u32_bytes len short)
            (copy_lem' (pre ++ prefix) text (rest_bytes ++ post) buf (length pre + 4) len nested₂
              at_text refl)
            (omega arith) (rw (← next) rest)
          ∙ ap (λ (x : Datum). some (value (x ∷ payload)))
              (Datum-ext _ d (sym same_type) (sym no_fixed) refl)
    ]
