-- ===== src/Types/Column.antt =====
-- include/vdb/common/types.h: the types of columns, their schemas and their values.
use Prim.Native.String.{String}
use vec_fetch.Prelude.{ℕ, Bool, List, ltb}

pub data DType : Type 0 where
  int8 int16 int32 int64 uint8 uint16 uint32 uint64 : DType
  float16 float32 float64 : DType
  string bytes : DType
  vector_float32 vector_float16 vector_int8 vector_uint8 : DType
  bool timestamp : DType

-- 0 for the types of variable length and the vectors.
unfoldable pub dtype_size : DType → ℕ
dtype_size int8 = 1
dtype_size uint8 = 1
dtype_size bool = 1
dtype_size int16 = 2
dtype_size uint16 = 2
dtype_size float16 = 2
dtype_size int32 = 4
dtype_size uint32 = 4
dtype_size float32 = 4
dtype_size int64 = 8
dtype_size uint64 = 8
dtype_size float64 = 8
dtype_size timestamp = 8
dtype_size string = 0
dtype_size bytes = 0
dtype_size vector_float32 = 0
dtype_size vector_float16 = 0
dtype_size vector_int8 = 0
dtype_size vector_uint8 = 0

unfoldable pub dtype_is_fixed_width : DType → Bool
dtype_is_fixed_width dtype = ltb 0 (dtype_size dtype)

pub record ColumnSchema : Type 0 where
  pub id : ℕ
  pub name : String
  pub dtype : DType
  pub nullable : Bool

-- `fixed` is the memory of the union, eight bytes.
pub record Datum : Type 0 where
  pub dtype : DType
  pub fixed : List ℕ
  pub var_data : List ℕ
