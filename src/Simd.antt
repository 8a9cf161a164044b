-- ===== src/Simd.antt =====
-- The kernels of src/simd/. Which instruction set a build has is the parameter `Isa`.
pub mod Isa
pub mod Register
pub mod BitUnpack
pub mod PrefixSum
pub mod Transpose
