-- ===== src/Storage/DataFile.antt =====
-- src/storage/data_file_writer.cpp, src/storage/data_file_reader.cpp and their headers: records of a
-- vector and payload columns, one behind the other, each padded to whole pages.
pub mod Writer
pub mod Reader
pub mod Layout
pub mod Writes
pub mod Append
pub mod Read
pub mod RoundTrip
pub mod WriteRead
pub mod Overflow
pub mod Lifecycle
use vec_fetch.Prelude.{ℕ, ◌/◌, ◌%◌, ◌^◌, List, [], ◌∷◌}

-- The memory of a uint32_t, lowest byte first.
abbrev pub u32_bytes : ℕ → List ℕ
u32_bytes n = n % 256 ∷ n / 256 % 256 ∷ n / 65536 % 256 ∷ n / 16777216 % 256 ∷ []
