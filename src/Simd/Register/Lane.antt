-- ===== src/Simd/Register/Lane.antt =====
-- Laws of registers, lane by lane.
use vec_fetch.Prelude.{ℕ, zero, suc, ◌+◌, ◌<◌, ◌≡◌, refl, arith, List, map, u32}
use vec_fetch.Simd.Register.{M256, setzero, add_epi32, lane, from_lanes}

-- What a row-wise function does to one lane is checked on the eight lanes.
pub each_lane {ℓ} :
    (P : ℕ → Type ℓ) → P 0 → P 1 → P 2 → P 3 → P 4 → P 5 → P 6 → P 7 → (k : ℕ) → k < 8 → P k
each_lane P p0 p1 p2 p3 p4 p5 p6 p7 zero h = p0
each_lane P p0 p1 p2 p3 p4 p5 p6 p7 (suc zero) h = p1
each_lane P p0 p1 p2 p3 p4 p5 p6 p7 (suc (suc zero)) h = p2
each_lane P p0 p1 p2 p3 p4 p5 p6 p7 (suc (suc (suc zero))) h = p3
each_lane P p0 p1 p2 p3 p4 p5 p6 p7 (suc (suc (suc (suc zero)))) h = p4
each_lane P p0 p1 p2 p3 p4 p5 p6 p7 (suc (suc (suc (suc (suc zero))))) h = p5
each_lane P p0 p1 p2 p3 p4 p5 p6 p7 (suc (suc (suc (suc (suc (suc zero)))))) h = p6
each_lane P p0 p1 p2 p3 p4 p5 p6 p7 (suc (suc (suc (suc (suc (suc (suc zero))))))) h = p7
each_lane P p0 p1 p2 p3 p4 p5 p6 p7 (suc (suc (suc (suc (suc (suc (suc (suc k)))))))) h =
    absurd (omega arith)

pub lane-from_lanes : (f : ℕ → ℕ) (k : ℕ) → k < 8 → lane k (from_lanes f) ≡ f k
lane-from_lanes f =
    each_lane (λ k. lane k (from_lanes f) ≡ f k) refl refl refl refl refl refl refl refl

pub lane-add_epi32 :
    (a b : M256) (k : ℕ) → k < 8 → lane k (add_epi32 a b) ≡ u32 (lane k a + lane k b)
lane-add_epi32 a b =
    each_lane (λ k. lane k (add_epi32 a b) ≡ u32 (lane k a + lane k b)) refl refl refl refl refl
      refl refl refl

-- One stream of an interleaved buffer.
abbrev pub stream : ℕ → List M256 → List ℕ
stream k rows = map (lane k) rows

pub lane-setzero : (k : ℕ) → k < 8 → lane k setzero ≡ 0
lane-setzero = each_lane (λ k. lane k setzero ≡ 0) refl refl refl refl refl refl refl refl

-- Two functions that agree on the lanes give one register.
pub from_lanes_ext : (f g : ℕ → ℕ) → ((k : ℕ) → k < 8 → f k ≡ g k) → from_lanes f ≡ from_lanes g
from_lanes_ext f g h = λ i. record {
  e0 = h 0 (omega arith) i;
  e1 = h 1 (omega arith) i;
  e2 = h 2 (omega arith) i;
  e3 = h 3 (omega arith) i;
  e4 = h 4 (omega arith) i;
  e5 = h 5 (omega arith) i;
  e6 = h 6 (omega arith) i;
  e7 = h 7 (omega arith) i;
}
