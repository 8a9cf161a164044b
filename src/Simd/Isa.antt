-- ===== src/Simd/Isa.antt =====
-- The build options of CMakeLists.txt that choose a kernel: VDB_USE_AVX512, VDB_USE_AVX2 or neither.
pub data Isa : Type 0 where
  scalar : Isa
  avx2 : Isa
  avx512 : Isa
