-- ===== src/Status.antt =====
-- include/vdb/common/status.h: status codes, a status, and a value or a status.
pub mod Action
use Prim.Native.String.{String}

pub data StatusCode : Type 0 where
  invalid_argument not_found already_exists io_error corruption not_supported : StatusCode
  out_of_memory internal cancelled timeout : StatusCode

-- The status that is not OK: its code and its message. `nullptr`, OK, is `value` below.
pub record Failure : Type 0 where
  pub code : StatusCode
  pub message : String

-- A function that returns `Status` and fills an output vector on OK, or that returns `StatusOr`.
pub data StatusOr {ℓ} (A : Type ℓ) : Type ℓ where
  value : A → StatusOr A
  failed : Failure → StatusOr A

abbrev pub invalid_argument_status : String → Failure
invalid_argument_status msg = record { code = StatusCode.invalid_argument; message = msg }

abbrev pub corruption_status : String → Failure
corruption_status msg = record { code = StatusCode.corruption; message = msg }

abbrev pub io_error_status : String → Failure
io_error_status msg = record { code = StatusCode.io_error; message = msg }
