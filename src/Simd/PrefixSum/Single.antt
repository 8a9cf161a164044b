-- ===== src/Simd/PrefixSum/Single.antt =====
-- The single-stream kernels return the sums of the values before each place, modulo 2^32.
use mathlib.Core.List.{map-append}
use vec_fetch.Prelude.{
  ℕ, suc, ◌+◌, ◌<◌, ◌^◌, some, lt→ltb, ◌≡◌, refl, sym, ap, ◌∙◌, arith, List, [], ◌∷◌, ◌++◌, map,
  u32, length, suc-ne-zero,
}
use vec_fetch.Simd.Isa.{Isa, scalar, avx2, avx512}
use vec_fetch.Simd.Register.{m256, to_list, high_half}
use vec_fetch.Simd.PrefixSum.{
  prefix_sum_scalar, inc_prefix_sum8, inc_to_excl8, prefix_sum_rounds, prefix_sum_avx2,
  exclusive_prefix_sum,
}

-- The sums of the values before each place, on top of `acc`.
unfoldable pub partial_sums : ℕ → List ℕ → List ℕ
partial_sums acc [] = []
partial_sums acc (x ∷ xs) = acc ∷ partial_sums (acc + x) xs

pub prefix_sum_scalar_lem :
    (xs : List ℕ) (acc : ℕ) → prefix_sum_scalar (u32 acc) xs ≡ map u32 (partial_sums acc xs)
unfolding prefix_sum_scalar partial_sums
prefix_sum_scalar_lem [] acc = refl
prefix_sum_scalar_lem (x ∷ xs) acc =
    let e : u32 (u32 acc + x) ≡ u32 (acc + x) = omega arith in
    rw (e, prefix_sum_scalar_lem xs (acc + x))

-- Eight lanes at once.
chunk :
    (a b c d e f g h acc : ℕ)
    → to_list (inc_to_excl8 (inc_prefix_sum8 (m256 a b c d e f g h)) (u32 acc))
      ≡ map u32 (partial_sums acc (a ∷ b ∷ c ∷ d ∷ e ∷ f ∷ g ∷ h ∷ []))
unfolding inc_to_excl8 inc_prefix_sum8 partial_sums
chunk a b c d e f g h acc = ground arith

chunk_total :
    (a b c d e f g h acc : ℕ)
    → u32 (u32 acc + (high_half (inc_prefix_sum8 (m256 a b c d e f g h))).e3)
      ≡ u32 (acc + a + b + c + d + e + f + g + h)
unfolding inc_prefix_sum8
chunk_total a b c d e f g h acc = omega arith

partial_sums_chunk :
    (a b c d e f g h acc : ℕ) (xs : List ℕ)
    → partial_sums acc (a ∷ b ∷ c ∷ d ∷ e ∷ f ∷ g ∷ h ∷ xs)
      ≡ partial_sums acc (a ∷ b ∷ c ∷ d ∷ e ∷ f ∷ g ∷ h ∷ [])
        ++ partial_sums (acc + a + b + c + d + e + f + g + h) xs
unfolding partial_sums
partial_sums_chunk a b c d e f g h acc xs = refl

prefix_sum_rounds_lem :
    (xs : List ℕ) (acc : ℕ) → prefix_sum_rounds (u32 acc) xs ≡ map u32 (partial_sums acc xs)
unfolding prefix_sum_rounds
prefix_sum_rounds_lem (a ∷ b ∷ c ∷ d ∷ e ∷ f ∷ g ∷ h ∷ xs) acc =
    let total = acc + a + b + c + d + e + f + g + h in
    rw (chunk_total a b c d e f g h acc, prefix_sum_rounds_lem xs total)
      (ap (λ (l : List ℕ). l ++ map u32 (partial_sums total xs)) (chunk a b c d e f g h acc)
        ∙ sym (
            map-append u32 (partial_sums acc (a ∷ b ∷ c ∷ d ∷ e ∷ f ∷ g ∷ h ∷ []))
              (partial_sums total xs))
        ∙ ap (map u32) (sym (partial_sums_chunk a b c d e f g h acc xs)))
prefix_sum_rounds_lem xs acc = prefix_sum_scalar_lem xs acc

-- With every build, for less than 2^32 - 8 values, the kernel stays inside its buffers and returns, at
-- each place, the sum of the values before it modulo 2^32.
pub exclusive_prefix_sum_lem :
    (isa : Isa) (xs : List ℕ)
    → length xs + 8 < 2 ^ 32
    → exclusive_prefix_sum isa xs ≡ some (map u32 (partial_sums 0 xs))
unfolding exclusive_prefix_sum prefix_sum_avx2
exclusive_prefix_sum_lem isa [] h = unfold partial_sums in refl
exclusive_prefix_sum_lem scalar (x ∷ xs) h =
    rw (suc-ne-zero (length xs)) (ap some (prefix_sum_scalar_lem (x ∷ xs) 0))
exclusive_prefix_sum_lem avx2 (x ∷ xs) h =
    rw (suc-ne-zero (length xs), lt→ltb (length (x ∷ xs) + 8) (2 ^ 32) h)
      (ap some (prefix_sum_rounds_lem (x ∷ xs) 0))
exclusive_prefix_sum_lem avx512 (x ∷ xs) h =
    rw (suc-ne-zero (length xs), lt→ltb (length (x ∷ xs) + 8) (2 ^ 32) h)
      (ap some (prefix_sum_rounds_lem (x ∷ xs) 0))

pub length-partial_sums : (acc : ℕ) (xs : List ℕ) → length (partial_sums acc xs) ≡ length xs
unfolding partial_sums
length-partial_sums acc [] = refl
length-partial_sums acc (x ∷ xs) = ap suc (length-partial_sums (acc + x) xs)
