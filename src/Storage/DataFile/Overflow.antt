-- ===== src/Storage/DataFile/Overflow.antt =====
-- The bounds check of a column of variable length.
use native.Mathlib.Nat.{mod-eq_of_lt}
use vec_fetch.Prelude.{
  ℕ, ◌+◌, ◌%◌, ◌^◌, ◌≤◌, ◌<◌, ◌≡◌, arith, false, List, ◌∷◌, none, some, le→ltb, lt→leb, length, u32,
}
use vec_fetch.Bytes
use vec_fetch.Types.Column.{ColumnSchema, dtype_is_fixed_width}
use vec_fetch.Storage.DataFile.Reader.{copy, parse_payload}

-- ParsePayload on a column of variable length whose length prefix takes the 32-bit offset past 2^32,
-- back to a place inside the buffer: the underflow check passes and the column is copied from
-- outside the buffer.
pub parse_payload_wraps :
    (schema : ColumnSchema) (schemas : List ColumnSchema) (buf prefix : List ℕ) (offset : ℕ)
    → dtype_is_fixed_width schema.dtype ≡ false
    → length buf < 2 ^ 32
    → offset + 4 ≤ length buf
    → copy buf offset 4 ≡ some prefix
    → 2 ^ 32 ≤ offset + 4 + Bytes.value prefix
    → (offset + 4 + Bytes.value prefix) % 2 ^ 32 ≤ length buf
    → parse_payload (schema ∷ schemas) buf (length buf) offset ≡ none
unfolding parse_payload
parse_payload_wraps schema schemas buf prefix offset variable small inside copied wraps back =
    let start : u32 (offset + 4) ≡ offset + 4 = mod-eq_of_lt {n = offset + 4} (omega arith) in
    let outside : copy buf (offset + 4) (Bytes.value prefix) ≡ none =
      unfold copy in rw (lt→leb (offset + 4 + Bytes.value prefix) (length buf) (omega arith)) in
    rw (
      variable,
      le→ltb (length buf) (offset + 4) inside,
      copied,
      start,
      le→ltb (length buf) _ back,
      outside,
    )
