-- ===== src/Tests.antt =====
-- The theorems on concrete inputs.
mod Simd
mod Codec
mod Query
mod Storage
pub mod DataFile
pub mod InsertionSort
mod PackCodes
mod Rerank
mod Index
pub mod ListQueue
