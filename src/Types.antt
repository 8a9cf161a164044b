-- ===== src/Types.antt =====
-- include/vdb/common/types.h: the types that the other parts share.
pub mod Column
use vec_fetch.Prelude.{ℕ}

-- Where a record lies in the data file, in bytes: a uint64_t and a uint32_t.
pub record AddressEntry : Type 0 where
  pub offset : ℕ
  pub size : ℕ
