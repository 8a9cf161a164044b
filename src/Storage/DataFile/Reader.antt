-- ===== src/Storage/DataFile/Reader.antt =====
-- DataFileReader.
use Prim.Native.String.{String}
use vec_fetch.Prelude.{
  ℕ, zero, suc, ◌+◌, ◌-◌, ◌*◌, ◌≤◌, ◌≡◌, ◌⊎◌, List, [], ◌∷◌, ◌++◌, Option, none, some, ltb, leb,
  ◌==◌, if◌then◌else◌, ◌>>=◌, length, take, drop, replicate, u32,
}
use vec_fetch.Bytes
use vec_fetch.Types.{AddressEntry}
use vec_fetch.Types.Column.{ColumnSchema, Datum, dtype_size, dtype_is_fixed_width}
use vec_fetch.Status.{StatusOr, value, failed, invalid_argument_status, io_error_status}

abbrev pub slice : ℕ → ℕ → List ℕ → List ℕ
slice offset count bs = take count (drop offset bs)

-- A descriptor of an open file. `pread offset count` is how many bytes the call reads, `none` for -1: at
-- most what is asked for and what there is, and none only at the end of the file.
pub record InputFile : Type 0 where
  pub contents : List ℕ
  pub pread : ℕ → ℕ → Option ℕ
  pub pread_within :
      (offset count n : ℕ)
      → pread offset count ≡ some n
      → (n ≤ count) × ((n ≡ 0) ⊎ (offset + n ≤ length contents))
  pub pread_progress :
      (offset count : ℕ) → pread offset count ≡ some 0 → (count ≡ 0) ⊎ (length contents ≤ offset)

-- `fd` is `none` when it is negative.
pub record DataFileReader : Type 0 where
  pub fd : Option InputFile
  pub path : String
  pub dim : ℕ
  pub payload_schemas : List ColumnSchema

-- The result of open(2) is an argument.
unfoldable pub open_reader :
    String
    → ℕ
    → List ColumnSchema
    → Option InputFile
    → DataFileReader
    → StatusOr (Unit {0}) × DataFileReader
open_reader path raw_dim payload_schemas opened r = elim r.fd [
  | some fd ↦ (failed (invalid_argument_status "DataFileReader already open"), r)
  | none ↦ elim opened [
    | none ↦ (failed (io_error_status "Failed to open DataFile"), r)
    | some fd ↦ (
      value tt,
      record { fd = some fd; path = path; dim = raw_dim; payload_schemas = payload_schemas },
    )
  ]
]

unfoldable pub close_reader : DataFileReader → DataFileReader
close_reader r = record r { fd = none }

unfoldable pub prepend : List ℕ → Option (StatusOr (List ℕ)) → Option (StatusOr (List ℕ))
prepend bs none = none
prepend bs (some (failed e)) = some (failed e)
prepend bs (some (value rest)) = some (value (bs ++ rest))

-- `while (total_read < length)`, with `left` bytes to read from `offset` on. A round reads one byte
-- at least: `left + 1` rounds are enough, and with fewer the result is `none`.
unfoldable pub read_loop : InputFile → ℕ → ℕ → ℕ → Option (StatusOr (List ℕ))
read_loop f zero offset left = none
read_loop f (suc fuel) offset left =
    let round : Option (StatusOr (List ℕ)) = elim (f.pread offset left) [
      | none ↦ some (failed (io_error_status "pread failed"))
      | some n ↦
          if n == 0
          then some (failed (io_error_status "Unexpected EOF in DataFile"))
          else prepend (slice offset n f.contents) (read_loop f fuel (offset + n) (left - n))
    ] in
    if ltb 0 left then round else some (value [])

unfoldable pub read_fd : Option InputFile → ℕ → ℕ → Option (StatusOr (List ℕ))
read_fd none offset count = some (failed (invalid_argument_status "DataFileReader not open"))
read_fd (some f) offset count = read_loop f (count + 1) offset count

-- DataFileReader::ReadRaw
unfoldable pub read_raw : DataFileReader → ℕ → ℕ → Option (StatusOr (List ℕ))
read_raw r offset count = read_fd r.fd offset count

-- DataFileReader::ReadVector
unfoldable pub read_vector : DataFileReader → AddressEntry → Option (StatusOr (List ℕ))
read_vector r addr =
    let vec_bytes = u32 (r.dim * 4) in
    if ltb addr.size vec_bytes
    then some (failed (invalid_argument_status "Record too small for vector"))
    else read_raw r addr.offset vec_bytes

-- memcpy of `count` bytes, inside the buffer.
unfoldable pub copy : List ℕ → ℕ → ℕ → Option (List ℕ)
copy buf offset count =
    if leb (offset + count) (length buf) then some (slice offset count buf) else none

unfoldable pub push_datum : Datum → StatusOr (List Datum) → StatusOr (List Datum)
push_datum d (value payload) = value (d ∷ payload)
push_datum d (failed e) = failed e

-- DataFileReader::ParsePayload, the loop over the columns. `offset + sz` is computed in 64 bits, and
-- `offset + len` in 32.
unfoldable pub parse_payload : List ColumnSchema → List ℕ → ℕ → ℕ → Option (StatusOr (List Datum))
parse_payload [] buf buf_len offset = some (value [])
parse_payload (schema ∷ schemas) buf buf_len offset =
    let size = dtype_size schema.dtype in
    let fixed_column = do
      bs ← copy buf offset size
      let d : Datum = record {
        dtype = schema.dtype;
        fixed = bs ++ replicate (8 - size) 0;
        var_data = [];
      }
      rest ← parse_payload schemas buf buf_len (u32 (offset + size))
      some (push_datum d rest)
    in let var_column = do
      prefix ← copy buf offset 4
      let len = Bytes.value prefix
      let start = u32 (offset + 4)
      let column = do
        bs ← copy buf start len
        let d : Datum = record { dtype = schema.dtype; fixed = replicate 8 0; var_data = bs }
        rest ← parse_payload schemas buf buf_len (u32 (start + len))
        some (push_datum d rest)
      if ltb buf_len (u32 (start + len))
          then some (failed (io_error_status "Buffer underflow reading var-length data"))
          else column
      in if dtype_is_fixed_width schema.dtype
        then (if ltb buf_len (offset + size)
            then some (failed (io_error_status "Buffer underflow reading fixed column"))
            else fixed_column)
        else (if ltb buf_len (offset + 4)
            then some (failed (io_error_status "Buffer underflow reading var-length prefix"))
            else var_column)

unfoldable pub with_vector : List ℕ → StatusOr (List Datum) → StatusOr (List ℕ × List Datum)
with_vector vec (value payload) = value (vec, payload)
with_vector vec (failed e) = failed e

-- The vector and the payload of a buffer.
unfoldable pub parse_record :
    DataFileReader → AddressEntry → List ℕ → Option (StatusOr (List ℕ × List Datum))
parse_record r addr buf =
    let vec_bytes = u32 (r.dim * 4) in
    let parsed = do
      vec ← copy buf 0 vec_bytes
      payload ← parse_payload r.payload_schemas buf addr.size vec_bytes
      some (with_vector vec payload)
    in if ltb addr.size vec_bytes
      then some (failed (invalid_argument_status "Record too small for vector"))
      else parsed

-- DataFileReader::ReadRecord
unfoldable pub read_record : DataFileReader → AddressEntry → Option (StatusOr (List ℕ × List Datum))
read_record r addr = do
  buf ← read_raw r addr.offset addr.size
  elim buf [ value bs ↦ parse_record r addr bs | failed e ↦ some (failed e) ]
