-- ===== src/Simd/Register.antt =====
-- The 256-bit registers of the AVX2 kernels, as eight lanes of 32 bits, and the intrinsics that
-- those kernels use. `M128` is one half. Lane 0 is the lowest.
pub mod Lane
use vec_fetch.Prelude.{
  ℕ, zero, suc, ◌+◌, ◌<◌, ◌≡◌, refl, arith, List, [], ◌∷◌, Option, none, some, u32, get_or,
}

pub record M256 : Type 0 where
  pub e0 : ℕ
  pub e1 : ℕ
  pub e2 : ℕ
  pub e3 : ℕ
  pub e4 : ℕ
  pub e5 : ℕ
  pub e6 : ℕ
  pub e7 : ℕ

pub record M128 : Type 0 where
  pub e0 : ℕ
  pub e1 : ℕ
  pub e2 : ℕ
  pub e3 : ℕ

abbrev pub m256 : ℕ → ℕ → ℕ → ℕ → ℕ → ℕ → ℕ → ℕ → M256
m256 a b c d e f g h = record { e0 = a; e1 = b; e2 = c; e3 = d; e4 = e; e5 = f; e6 = g; e7 = h }

abbrev pub m128 : ℕ → ℕ → ℕ → ℕ → M128
m128 a b c d = record { e0 = a; e1 = b; e2 = c; e3 = d }

abbrev pub setzero : M256
setzero = m256 0 0 0 0 0 0 0 0

-- _mm256_storeu_si256
abbrev pub to_list : M256 → List ℕ
to_list v = v.e0 ∷ v.e1 ∷ v.e2 ∷ v.e3 ∷ v.e4 ∷ v.e5 ∷ v.e6 ∷ v.e7 ∷ []

-- _mm256_add_epi32
abbrev pub add_epi32 : M256 → M256 → M256
add_epi32 a b =
    m256 (u32 (a.e0 + b.e0)) (u32 (a.e1 + b.e1)) (u32 (a.e2 + b.e2)) (u32 (a.e3 + b.e3))
      (u32 (a.e4 + b.e4)) (u32 (a.e5 + b.e5)) (u32 (a.e6 + b.e6)) (u32 (a.e7 + b.e7))

-- _mm_add_epi32
abbrev pub add_epi32_128 : M128 → M128 → M128
add_epi32_128 a b =
    m128 (u32 (a.e0 + b.e0)) (u32 (a.e1 + b.e1)) (u32 (a.e2 + b.e2)) (u32 (a.e3 + b.e3))

-- _mm256_slli_si256 by 4 and by 8 bytes: each half moves up by one and by two lanes.
abbrev pub slli_4 : M256 → M256
slli_4 v = m256 0 v.e0 v.e1 v.e2 0 v.e4 v.e5 v.e6

abbrev pub slli_8 : M256 → M256
slli_8 v = m256 0 0 v.e0 v.e1 0 0 v.e4 v.e5

-- _mm256_castsi256_si128, _mm256_extracti128_si256 at 1, _mm256_set_m128i
abbrev pub low_half : M256 → M128
low_half v = m128 v.e0 v.e1 v.e2 v.e3

abbrev pub high_half : M256 → M128
high_half v = m128 v.e4 v.e5 v.e6 v.e7

abbrev pub set_halves : M128 → M128 → M256
set_halves hi lo = m256 lo.e0 lo.e1 lo.e2 lo.e3 hi.e0 hi.e1 hi.e2 hi.e3

-- _mm_set1_epi32
abbrev pub set1 : ℕ → M128
set1 x = m128 x x x x

-- _mm_alignr_epi8 by 12 bytes
abbrev pub alignr_12 : M128 → M128 → M128
alignr_12 a b = m128 b.e3 a.e0 a.e1 a.e2

-- _mm256_unpacklo_epi32 and _mm256_unpackhi_epi32, within each half
abbrev pub unpacklo_32 : M256 → M256 → M256
unpacklo_32 a b = m256 a.e0 b.e0 a.e1 b.e1 a.e4 b.e4 a.e5 b.e5

abbrev pub unpackhi_32 : M256 → M256 → M256
unpackhi_32 a b = m256 a.e2 b.e2 a.e3 b.e3 a.e6 b.e6 a.e7 b.e7

-- _mm256_unpacklo_epi64 and _mm256_unpackhi_epi64, within each half
abbrev pub unpacklo_64 : M256 → M256 → M256
unpacklo_64 a b = m256 a.e0 a.e1 b.e0 b.e1 a.e4 a.e5 b.e4 b.e5

abbrev pub unpackhi_64 : M256 → M256 → M256
unpackhi_64 a b = m256 a.e2 a.e3 b.e2 b.e3 a.e6 a.e7 b.e6 b.e7

-- _mm256_permute2x128_si256 at 0x20 (both low halves) and at 0x31 (both high halves)
abbrev pub permute_20 : M256 → M256 → M256
permute_20 a b = set_halves (low_half b) (low_half a)

abbrev pub permute_31 : M256 → M256 → M256
permute_31 a b = set_halves (high_half b) (high_half a)

-- Lane `k` of a register, and a register from its lanes.
abbrev pub lane : ℕ → M256 → ℕ
lane k v = get_or (to_list v) k 0

abbrev pub from_lanes : (ℕ → ℕ) → M256
from_lanes f = m256 (f 0) (f 1) (f 2) (f 3) (f 4) (f 5) (f 6) (f 7)
