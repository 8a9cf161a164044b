-- ===== src/Storage/PackCodes/Pairs.antt =====
-- The interleaved bytes of two neighbouring nibbles.
use mathlib.Core.Path.{subst}
use vec_fetch.Prelude.{
  ℕ, zero, suc, ◌+◌, ◌-◌, ◌*◌, ◌/◌, ◌%◌, ◌^◌, ◌≤◌, ◌<◌, ◌≡◌, inl, inr, refl, sym, ap, ◌∙◌, arith,
  Bool-cases, List, [], ◌∷◌, ◌++◌, some, bit_and, bit_or, ltb, ltb→lt, ◌<<<◌, ◌>>>◌, if◌then◌else◌,
  length, length-append, length-map, map, get_elem?, get_or, get_elem?-eq-get_or, get_or-append,
  All, u8,
}
use vec_fetch.Bits.{bit_and_mask, bit_or_shifted}
use vec_fetch.Storage.PackCodes.{kperm, column_from, interleave, pack_pair, pack_pairs}

-- Byte `j` of row `k`, of `n` rows.
abbrev pub cell : ℕ → List ℕ → ℕ → ℕ → ℕ → ℕ
cell n flat bytes j k = if ltb k n then get_or flat (k * bytes + j) 0 else 0

row_end : (k n bytes : ℕ) → k < n → k * bytes + bytes ≤ n * bytes
row_end k n bytes h =
    let d = n - (k + 1) in
    let whole : n ≡ k + 1 + d = omega arith in
    let e : (k + 1 + d) * bytes ≡ k * bytes + bytes + d * bytes = omega arith in
    let f : n * bytes ≡ (k + 1 + d) * bytes = ap (λ (t : ℕ). t * bytes) whole in omega arith

column_from_lem :
    (rounds n bytes j k : ℕ) (flat : List ℕ)
    → j < bytes
    → n * bytes ≤ length flat
    → (c : List ℕ) × (column_from rounds n flat bytes j k ≡ some c)
      × (length c ≡ rounds)
      × ((i : ℕ) → i < rounds → get_or c i 0 ≡ cell n flat bytes j (k + i))
unfolding column_from
column_from_lem zero n bytes j k flat hj room = ([], refl, refl, λ i h. absurd (omega arith))
column_from_lem (suc rounds) n bytes j k flat hj room =
    let (c, run, long, cells) = column_from_lem rounds n bytes j (k + 1) flat hj room in
    let first : (if ltb k n then get_elem? flat (k * bytes + j) else some 0)
        ≡ some (cell n flat bytes j k) =
      elim (Bool-cases (ltb k n)) [
        | inl inside ↦ rw inside (
            get_elem?-eq-get_or flat (k * bytes + j) 0
              (omega (arith, row_end k n bytes (ltb→lt k n inside))))
        | inr outside ↦ rw outside
      ] in
    (cell n flat bytes j k ∷ c, rw (first, run), ap suc long, at c cells)
  where
    at :
        (c : List ℕ)
        → ((i : ℕ) → i < rounds → get_or c i 0 ≡ cell n flat bytes j (k + 1 + i))
        → (i : ℕ) → i < suc rounds
        → get_or (cell n flat bytes j k ∷ c) i 0 ≡ cell n flat bytes j (k + i)
    at c cells zero h = let e : k + 0 ≡ k = omega arith in ap (cell n flat bytes j) (sym e)
    at c cells (suc i) h =
        let e : k + 1 + i ≡ k + suc i = omega arith in
        cells i (omega arith) ∙ ap (cell n flat bytes j) e

interleave_lem :
    (places c : List ℕ)
    → All (λ p. p + 16 < length c) places
    → ((i : ℕ) → i < length c → get_or c i 0 < 16)
    → (out : List ℕ) × (interleave places c ≡ some out)
      × (length out ≡ length places)
      × ((i : ℕ)
          → i < length places
          → get_or out i 0
            ≡ get_or c (get_or places i 0) 0 + get_or c (get_or places i 0 + 16) 0 * 16)
unfolding interleave
interleave_lem [] c h small = ([], refl, refl, λ i hi. absurd (omega arith))
interleave_lem (p ∷ places) c (hp, h) small =
    let (out, run, long, lanes) = interleave_lem places c h small in
    let low = get_or c p 0 in
    let high = get_or c (p + 16) 0 in
    let small_low = small p (omega arith) in
    let small_high = small (p + 16) hp in
    let trimmed : u8 (high <<< 4) ≡ high * 2 ^ 4 = omega arith in
    let joined : bit_or low (u8 (high <<< 4)) ≡ low + high * 16 =
      ap (bit_or low) trimmed ∙ bit_or_shifted 4 low high small_low in
    (
      bit_or low (u8 (high <<< 4)) ∷ out,
      rw (get_elem?-eq-get_or c p 0 (omega arith), get_elem?-eq-get_or c (p + 16) 0 hp, run),
      ap suc long,
      at out joined lanes,
    )
  where
    at :
        (out : List ℕ)
        → bit_or (get_or c p 0) (u8 (get_or c (p + 16) 0 <<< 4))
          ≡ get_or c p 0 + get_or c (p + 16) 0 * 16
        → ((i : ℕ)
            → i < length places
            → get_or out i 0
              ≡ get_or c (get_or places i 0) 0 + get_or c (get_or places i 0 + 16) 0 * 16)
        → (i : ℕ) → i < suc (length places)
        → get_or (bit_or (get_or c p 0) (u8 (get_or c (p + 16) 0 <<< 4)) ∷ out) i 0
          ≡ get_or c (get_or (p ∷ places) i 0) 0 + get_or c (get_or (p ∷ places) i 0 + 16) 0 * 16
    at out joined lanes zero hi = joined
    at out joined lanes (suc i) hi = lanes i (omega arith)

get_or-map : (f : ℕ → ℕ) (xs : List ℕ) (i : ℕ) → f 0 ≡ 0 → get_or (map f xs) i 0 ≡ f (get_or xs i 0)
get_or-map f [] i h = sym h
get_or-map f (x ∷ xs) zero h = refl
get_or-map f (x ∷ xs) (suc i) h = get_or-map f xs i h

get_or-append_right : (xs ys : List ℕ) (i : ℕ) → get_or (xs ++ ys) (length xs + i) 0 ≡ get_or ys i 0
get_or-append_right [] ys i = let e : 0 + i ≡ i = omega arith in ap (λ (k : ℕ). get_or ys k 0) e
get_or-append_right (x ∷ xs) ys i =
    let e : suc (length xs) + i ≡ suc (length xs + i) = omega arith in
    ap (λ (k : ℕ). get_or (x ∷ (xs ++ ys)) k 0) e ∙ get_or-append_right xs ys i

-- Byte `i` of a pair, and byte `16 + i`: the lane at place `i`, and the lane 16 further.
abbrev pub IsPair : (ℕ → ℕ) → (ℕ → ℕ) → Type 0
IsPair byte out =
    (i : ℕ)
    → i < 16
    → (out i ≡ byte (get_or kperm i 0) % 16 + byte (get_or kperm i 0 + 16) % 16 * 16)
      × (out (16 + i) ≡ byte (get_or kperm i 0) / 16 + byte (get_or kperm i 0 + 16) / 16 * 16)

All-get_or : (P : ℕ → Type 0) (xs : List ℕ) (i : ℕ) → All P xs → i < length xs → P (get_or xs i 0)
All-get_or P [] i h hi = absurd (omega arith)
All-get_or P (x ∷ xs) zero (h, hs) hi = h
All-get_or P (x ∷ xs) (suc i) (h, hs) hi = All-get_or P xs i hs (omega arith)

kperm-fits : (n : ℕ) → n ≡ 32 → All (λ p. p + 16 < n) kperm
kperm-fits n h = (
  omega arith,
  (
    omega arith,
    (
      omega arith,
      (
        omega arith,
        (
          omega arith,
          (
            omega arith,
            (
              omega arith,
              (
                omega arith,
                (
                  omega arith,
                  (
                    omega arith,
                    (
                      omega arith,
                      (omega arith, (omega arith, (omega arith, (omega arith, (omega arith, tt))))),
                    ),
                  ),
                ),
              ),
            ),
          ),
        ),
      ),
    ),
  ),
)

pub kperm-lt : (i : ℕ) → i < 16 → get_or kperm i 0 + 16 < 32
kperm-lt i h = All-get_or (λ p. p + 16 < 32) kperm i (kperm-fits 32 refl) h

-- The lanes of the bytes of a column, after a function of each byte that gives half of it.
half_lanes :
    (f : ℕ → ℕ) (c : List ℕ) (byte : ℕ → ℕ)
    → f 0 ≡ 0
    → length c ≡ 32
    → ((i : ℕ) → i < 32 → get_or c i 0 ≡ byte i)
    → ((i : ℕ) → f (byte i) < 16)
    → (out : List ℕ) × (interleave kperm (map f c) ≡ some out)
      × (length out ≡ 16)
      × ((i : ℕ)
          → i < 16
          → get_or out i 0 ≡ f (byte (get_or kperm i 0)) + f (byte (get_or kperm i 0 + 16)) * 16)
half_lanes f c byte zero_half long cells small =
    let at = λ (i : ℕ). get_or-map f c i zero_half in
    let (out, run, length_out, lanes) =
      interleave_lem kperm (map f c) (kperm-fits (length (map f c)) (length-map f c ∙ long))
        (λ i hi.
          let inside : i < 32 = omega (arith, length-map f c) in
          subst (λ (x : ℕ). x < 16) (sym (at i ∙ ap f (cells i inside))) (small i)) in
    (
      out,
      run,
      length_out,
      λ i h.
          let p = get_or kperm i 0 in
          let fits : p + 16 < 32 = kperm-lt i h in
          let low : get_or (map f c) p 0 ≡ f (byte p) = at p ∙ ap f (cells p (omega arith)) in
          let high : get_or (map f c) (p + 16) 0 ≡ f (byte (p + 16)) =
            at (p + 16) ∙ ap f (cells (p + 16) fits) in
          lanes i h ∙ omega (arith, low, high),
    )

pack_pair_lem :
    (n bytes j : ℕ) (flat : List ℕ)
    → j < bytes
    → n * bytes ≤ length flat
    → ((k : ℕ) → cell n flat bytes j k < 256)
    → (pair : List ℕ) × (pack_pair n flat bytes j ≡ some pair)
      × (length pair ≡ 32)
      × IsPair (cell n flat bytes j) (λ i. get_or pair i 0)
unfolding pack_pair
pack_pair_lem n bytes j flat hj room small =
    let (c, run, long, cells) = column_from_lem 32 n bytes j 0 flat hj room in
    let byte = cell n flat bytes j in
    let here : (i : ℕ) → i < 32 → get_or c i 0 ≡ byte i =
      λ i h. let e : 0 + i ≡ i = omega arith in cells i h ∙ ap byte e in
    let low = λ (x : ℕ). bit_and x 15 in
    let high = λ (x : ℕ). x >>> 4 in
    let (lows, run_lows, length_lows, low_lanes) =
      half_lanes low c byte refl long here (λ i. omega (arith, bit_and_mask 4 (byte i))) in
    let (highs, run_highs, length_highs, high_lanes) =
      half_lanes high c byte refl long here (λ i. omega (arith, small i)) in
    (
      lows ++ highs,
      rw (run, run_lows, run_highs),
      omega (arith, length-append lows highs),
      λ i h. (
        get_or-append lows highs i 0 (omega arith)
            ∙ low_lanes i h
            ∙ omega (
              arith,
              bit_and_mask 4 (byte (get_or kperm i 0)),
              bit_and_mask 4 (byte (get_or kperm i 0 + 16)),
            ),
        ap (λ (k : ℕ). get_or (lows ++ highs) (k + i) 0) (sym length_lows)
            ∙ get_or-append_right lows highs i
            ∙ high_lanes i h,
      ),
    )

-- The pairs, 32 bytes each.
pub pack_pairs_lem :
    (rounds n bytes j : ℕ) (flat : List ℕ)
    → j + rounds ≤ bytes
    → n * bytes ≤ length flat
    → ((i k : ℕ) → i < bytes → cell n flat bytes i k < 256)
    → (out : List ℕ) × (pack_pairs rounds n flat bytes j ≡ some out)
      × (length out ≡ rounds * 32)
      × ((r : ℕ) → r < rounds → IsPair (cell n flat bytes (j + r)) (λ i. get_or out (r * 32 + i) 0))
unfolding pack_pairs
pack_pairs_lem zero n bytes j flat fits room small = ([], refl, refl, λ r h. absurd (omega arith))
pack_pairs_lem (suc rounds) n bytes j flat fits room small =
    let (pair, run, long, is) =
      pack_pair_lem n bytes j flat (omega arith) room (λ k. small j k (omega arith)) in
    let (rest, runs, longs, are) =
      pack_pairs_lem rounds n bytes (j + 1) flat (omega arith) room small in
    (pair ++ rest, rw (run, runs), omega (arith, length-append pair rest), at pair rest long is are)
  where
    at :
        (pair rest : List ℕ)
        → length pair ≡ 32
        → IsPair (cell n flat bytes j) (λ i. get_or pair i 0)
        → ((r : ℕ)
            → r < rounds
            → IsPair (cell n flat bytes (j + 1 + r)) (λ i. get_or rest (r * 32 + i) 0))
        → (r : ℕ) → r < suc rounds
        → IsPair (cell n flat bytes (j + r)) (λ i. get_or (pair ++ rest) (r * 32 + i) 0)
    at pair rest long is are zero h i hi =
        let e : j + 0 ≡ j = omega arith in
        let first = λ (k : ℕ) (hk : k < 32).
          (let f : 0 * 32 + k ≡ k = omega arith in
            ap (λ (t : ℕ). get_or (pair ++ rest) t 0) f
            ∙ get_or-append pair rest k 0 (omega arith)) in
        let (low, high) =
          subst (λ (t : ℕ). IsPair (cell n flat bytes t) (λ i. get_or pair i 0)) (sym e) is i hi in
        (first i (omega arith) ∙ low, first (16 + i) (omega arith) ∙ high)
    at pair rest long is are (suc r) h i hi =
        let e : j + 1 + r ≡ j + suc r = omega arith in
        let later = λ (k : ℕ).
          (let f : suc r * 32 + k ≡ length pair + (r * 32 + k) = omega arith in
            ap (λ (t : ℕ). get_or (pair ++ rest) t 0) f
            ∙ get_or-append_right pair rest (r * 32 + k)) in
        let (low, high) =
          subst (λ (t : ℕ). IsPair (cell n flat bytes t) (λ i. get_or rest (r * 32 + i) 0)) e
            (are r (omega arith)) i hi in
        (later i ∙ low, later (16 + i) ∙ high)
