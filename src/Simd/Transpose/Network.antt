-- ===== src/Simd/Transpose/Network.antt =====
-- The register network is a transposition: lane `k` of row `i` is lane `i` of register `k`.
use vec_fetch.Prelude.{◌≡◌, refl, [], ◌∷◌}
use vec_fetch.Simd.Register.{M256, m256}
use vec_fetch.Simd.Transpose.{transpose_8x8}

-- The 8 × 8 network transposes any eight registers: row `i` of the result is made of lane `i` of
-- each register, in order.
pub transpose_8x8_lem :
    (r0 r1 r2 r3 r4 r5 r6 r7 : M256)
    → transpose_8x8 r0 r1 r2 r3 r4 r5 r6 r7
      ≡ m256 r0.e0 r1.e0 r2.e0 r3.e0 r4.e0 r5.e0 r6.e0 r7.e0
        ∷ m256 r0.e1 r1.e1 r2.e1 r3.e1 r4.e1 r5.e1 r6.e1 r7.e1
        ∷ m256 r0.e2 r1.e2 r2.e2 r3.e2 r4.e2 r5.e2 r6.e2 r7.e2
        ∷ m256 r0.e3 r1.e3 r2.e3 r3.e3 r4.e3 r5.e3 r6.e3 r7.e3
        ∷ m256 r0.e4 r1.e4 r2.e4 r3.e4 r4.e4 r5.e4 r6.e4 r7.e4
        ∷ m256 r0.e5 r1.e5 r2.e5 r3.e5 r4.e5 r5.e5 r6.e5 r7.e5
        ∷ m256 r0.e6 r1.e6 r2.e6 r3.e6 r4.e6 r5.e6 r6.e6 r7.e6
        ∷ m256 r0.e7 r1.e7 r2.e7 r3.e7 r4.e7 r5.e7 r6.e7 r7.e7
        ∷ []
unfolding transpose_8x8
transpose_8x8_lem r0 r1 r2 r3 r4 r5 r6 r7 = refl
