-- ===== src/Storage/PackCodes/RoundTrip.antt =====
-- Unpacking a vector of a packed block gives its sign bits.
use mathlib.Core.Path.{subst}
use native.Mathlib.Nat.{mod-eq_of_lt}
use vec_fetch.Prelude.{
  ℕ, zero, suc, ◌+◌, ◌-◌, ◌*◌, ◌/◌, ◌%◌, ◌^◌, ◌≤◌, ◌<◌, ◌≡◌, inl, inr, refl, sym, ap, ◌∙◌, arith,
  Bool, true, false, Bool-cases, List, [], ◌++◌, some, min, u32, ltb, leb, leb→le, le→leb, lt→ltb,
  ltb→lt, ◌>>>◌, if◌then◌else◌, length, length-append, length-replicate, replicate, get_elem?,
  get_or, get_elem?-eq-get_or, get_or-append, All,
}
use vec_fetch.Bits.{bit_and_mask}
use vec_fetch.Storage.PackCodes.{
  kperm, flatten_rows, pack_pairs, fast_scan_packed_size, pack_sign_bits,
}
use vec_fetch.Storage.PackCodes.Unpack.{kinv_perm, half, unpack_pairs, unpack_sign_bits}
use vec_fetch.Storage.PackCodes.Nibbles.{nibble_of, nibble_of-lt}
use vec_fetch.Storage.PackCodes.Rows.{row_byte, AreRows, HasWords, flatten_rows_lem}
use vec_fetch.Storage.PackCodes.Pairs.{cell, IsPair, pack_pairs_lem}
use vec_fetch.Storage.PackCodes.Words.{word_below, IsUnpacked, HasNibbles, unpack_pairs_lem}

half-join :
    (high : Bool) (a b : ℕ) → a < 16 → b < 16 → half high (a + b * 16) ≡ (if high then b else a)
unfolding half
half-join true a b ha hb = omega (arith, bit_and_mask 4 ((a + b * 16) >>> 4))
half-join false a b ha hb = omega (arith, bit_and_mask 4 (a + b * 16))

-- kInvPerm is the inverse of kPerm.
place :
    (lane : ℕ)
    → lane < 16
    → (pos : ℕ) × (get_elem? kinv_perm lane ≡ some pos) × (get_or kperm pos 0 ≡ lane) × (pos < 16)
place zero h = (0, refl, refl, omega arith)
place (suc zero) h = (2, refl, refl, omega arith)
place (suc (suc zero)) h = (4, refl, refl, omega arith)
place (suc (suc (suc zero))) h = (6, refl, refl, omega arith)
place (suc (suc (suc (suc zero)))) h = (8, refl, refl, omega arith)
place (suc (suc (suc (suc (suc zero))))) h = (10, refl, refl, omega arith)
place (suc (suc (suc (suc (suc (suc zero)))))) h = (12, refl, refl, omega arith)
place (suc (suc (suc (suc (suc (suc (suc zero))))))) h = (14, refl, refl, omega arith)
place (suc (suc (suc (suc (suc (suc (suc (suc zero)))))))) h = (1, refl, refl, omega arith)
place (suc (suc (suc (suc (suc (suc (suc (suc (suc zero))))))))) h = (3, refl, refl, omega arith)
place (suc (suc (suc (suc (suc (suc (suc (suc (suc (suc zero)))))))))) h =
    (5, refl, refl, omega arith)
place (suc (suc (suc (suc (suc (suc (suc (suc (suc (suc (suc zero))))))))))) h =
    (7, refl, refl, omega arith)
place (suc (suc (suc (suc (suc (suc (suc (suc (suc (suc (suc (suc zero)))))))))))) h =
    (9, refl, refl, omega arith)
place (suc (suc (suc (suc (suc (suc (suc (suc (suc (suc (suc (suc (suc zero))))))))))))) h =
    (11, refl, refl, omega arith)
place (suc (suc (suc (suc (suc (suc (suc (suc (suc (suc (suc (suc (suc (suc zero)))))))))))))) h =
    (13, refl, refl, omega arith)
place (suc (suc (suc (suc (suc (suc (suc (suc (suc (suc (suc (suc (suc (suc (suc zero)))))))))))))))
      h =
    (15, refl, refl, omega arith)
place
      (suc (
        suc
          (suc (suc (suc (suc (suc (suc (suc (suc (suc (suc (suc (suc (suc (suc lane))))))))))))))))
      h =
    absurd (omega arith)

get_or-zeros : (n i : ℕ) → ◌≡◌ {A = ℕ} (get_or (replicate n 0) i 0) 0
get_or-zeros zero i = refl
get_or-zeros (suc n) zero = refl
get_or-zeros (suc n) (suc i) = get_or-zeros n i

mul-le : (m n bytes : ℕ) → m ≤ n → m * bytes ≤ n * bytes
mul-le m n bytes h =
    let d = n - m in
    let whole : n ≡ m + d = omega arith in
    let e : n * bytes ≡ (m + d) * bytes = ap (λ (t : ℕ). t * bytes) whole in
    let f : (m + d) * bytes ≡ m * bytes + d * bytes = omega arith in omega arith

-- The nibbles of a full byte.
row_byte-halves :
    (f : ℕ → ℕ) (n j : ℕ)
    → ((k : ℕ) → f k < 16)
    → (row_byte f n j < 256)
      × (j * 2 < n → row_byte f n j % 16 ≡ f (j * 2))
      × (j * 2 + 1 < n → row_byte f n j / 16 ≡ f (j * 2 + 1))
row_byte-halves f n j small =
    let a = small (j * 2) in
    let b = small (j * 2 + 1) in (ground arith, λ h. ground arith, λ h. ground arith)

module _ (codes : List (List ℕ)) (dim bytes : ℕ) (flat : List ℕ)
    (rows : AreRows dim bytes codes 0 flat) where
  row_cell :
      (j k : ℕ)
      → j < bytes
      → k < length codes
      → cell (length codes) flat bytes j k ≡ row_byte (nibble_of (get_or codes k [])) (dim / 4) j
  row_cell j k hj hk =
      let e : 0 + k ≡ k = omega arith in
      rw (lt→ltb k (length codes) hk) (
        ap (λ (t : ℕ). get_or flat (t * bytes + j) 0) (sym e)
        ∙ rows k (get_or codes k []) (get_elem?-eq-get_or codes k [] hk) j hj)

  cell-lt : (j k : ℕ) → j < bytes → cell (length codes) flat bytes j k < 256
  cell-lt j k hj = elim (Bool-cases (ltb k (length codes))) [
    | inl inside ↦ omega (
      arith,
      row_cell j k hj (ltb→lt k (length codes) inside),
      (row_byte-halves (nibble_of (get_or codes k [])) (dim / 4) j
          (nibble_of-lt (get_or codes k []))).0,
    )
    | inr outside ↦ rw outside (omega arith)
  ]

module _ (codes : List (List ℕ)) (dim bytes : ℕ) (flat out : List ℕ)
    (rows : AreRows dim bytes codes 0 flat)
    (pairs : (r : ℕ)
      → r < bytes
      → IsPair (cell (length codes) flat bytes (0 + r)) (λ i. get_or out (r * 32 + i) 0)) where
  -- The bytes of vector `v`: its place among the lanes, and its half.
  halves :
      (high : Bool) (lane pos j : ℕ)
      → get_or kperm pos 0 ≡ lane
      → pos < 16
      → j < bytes
      → (let byte = cell (length codes) flat bytes j (if high then lane + 16 else lane) in
          (half high (get_or out (j * 32 + pos) 0) ≡ byte % 16)
          × (half high (get_or out (j * 32 + (pos + 16)) 0) ≡ byte / 16))
  halves high lane pos j at hp hj =
      let c = cell (length codes) flat bytes j in
      let e : 0 + j ≡ j = omega arith in
      let (low, upper) =
        subst
          (λ (t : ℕ). IsPair (cell (length codes) flat bytes t) (λ i. get_or out (j * 32 + i) 0)) e
          (pairs j hj) pos hp in
      let swap : pos + 16 ≡ 16 + pos = omega arith in
      let small = cell-lt codes dim bytes flat rows j lane hj in
      let small_16 = cell-lt codes dim bytes flat rows j (lane + 16) hj in
      let first : get_or out (j * 32 + pos) 0 ≡ c lane % 16 + c (lane + 16) % 16 * 16 =
        low ∙ ap (λ (t : ℕ). c t % 16 + c (t + 16) % 16 * 16) at in
      let second : get_or out (j * 32 + (pos + 16)) 0 ≡ c lane / 16 + c (lane + 16) / 16 * 16 =
        ap (λ (t : ℕ). get_or out (j * 32 + t) 0) swap
        ∙ upper
        ∙ ap (λ (t : ℕ). c t / 16 + c (t + 16) / 16 * 16) at in
      let choose = λ (f : ℕ → ℕ). choice f high lane c in
      (
        ap (half high) first
            ∙ half-join high (c lane % 16) (c (lane + 16) % 16) (omega arith) (omega arith)
            ∙ choose (λ x. x % 16),
        ap (half high) second
            ∙ half-join high (c lane / 16) (c (lane + 16) / 16) (omega arith) (omega arith)
            ∙ choose (λ x. x / 16),
      )
    where
      choice :
          (f : ℕ → ℕ) (b : Bool) (lane : ℕ) (c : ℕ → ℕ)
          → (if b then f (c (lane + 16)) else f (c lane)) ≡ f (c (if b then lane + 16 else lane))
      choice f true lane c = refl
      choice f false lane c = refl

  packed_nibbles :
      (high : Bool) (lane pos pad : ℕ)
      → get_or kperm pos 0 ≡ lane
      → pos < 16
      → dim / 4 ≤ bytes * 2
      → length out ≡ bytes * 32
      → (dim / 4 + 1) / 2 ≡ bytes
      → (if high then lane + 16 else lane) < length codes
      → HasNibbles
          (get_or codes (if high then lane + 16 else lane) [])
          (dim / 4)
          high
          pos
          (out ++ replicate pad 0)
  packed_nibbles high lane pos pad at hp fits long rounds inside j =
      let v = if high then lane + 16 else lane in
      let code = get_or codes v [] in
      let (small, low, upper) = row_byte-halves (nibble_of code) (dim / 4) j (nibble_of-lt code) in
      (
        λ h.
            let hj : j < bytes = omega arith in
            let cut = get_or-append out (replicate pad 0) (j * 32 + pos) 0 (omega arith) in
            let (first, second) = halves high lane pos j at hp hj in
            ap (half high) cut
            ∙ first
            ∙ ap (λ (x : ℕ). x % 16) (row_cell codes dim bytes flat rows j v hj inside)
            ∙ low h,
        λ h.
            let hj : j < bytes = omega arith in
            let cut = get_or-append out (replicate pad 0) (j * 32 + (pos + 16)) 0 (omega arith) in
            let (first, second) = halves high lane pos j at hp hj in
            ap (half high) cut
            ∙ second
            ∙ ap (λ (x : ℕ). x / 16) (row_cell codes dim bytes flat rows j v hj inside)
            ∙ upper h,
      )

-- The vector's half of the block, and its lane there.
lane_of :
    (v : ℕ)
    → v < 32
    → (lane : ℕ) × (lane < 16)
      × ((if leb 16 v then v - 16 else v) ≡ lane)
      × ((if leb 16 v then lane + 16 else lane) ≡ v)
lane_of v h = elim (Bool-cases (leb 16 v)) [
  | inl high ↦ let above = leb→le 16 v high in (v - 16, omega arith, rw high, rw high (omega arith))
  | inr low ↦ (v, ground arith, rw low, rw low)
]

no_bits : (code : List ℕ) (n i : ℕ) → 0 ≡ word_below code (min (0 * 2) n * 4) i
no_bits code n i =
    let z : 0 ≡ min 64 (min (0 * 2) n * 4 - 64 * i) = omega arith in
    let none_left : 0 ≡ get_or code i 0 % 2 ^ 0 = omega arith in
    none_left ∙ ap (λ (k : ℕ). get_or code i 0 % 2 ^ k) z

unpack_run :
    (packed out : List ℕ) (v dim lane pos : ℕ)
    → (if leb 16 v then v - 16 else v) ≡ lane
    → get_elem? kinv_perm lane ≡ some pos
    → dim + 8 ≤ 2 ^ 30
    → unpack_pairs ((dim / 4 + 1) / 2) packed (leb 16 v) pos dim 0 (replicate ((dim + 63) / 64) 0)
      ≡ some out
    → unpack_sign_bits packed v dim ≡ some out
unfolding unpack_sign_bits
unpack_run packed out v dim lane pos is_lane run_pos small run =
    let narrow : u32 (dim + 63) ≡ dim + 63 = mod-eq_of_lt {n = dim + 63} (omega arith) in
    rw (is_lane, run_pos, narrow) run

pack_run :
    (codes : List (List ℕ)) (dim : ℕ) (flat out : List ℕ)
    → flatten_rows codes dim ((dim / 4 + 1) / 2) 0 (replicate (32 * ((dim / 4 + 1) / 2)) 0)
      ≡ some flat
    → pack_pairs ((dim / 4 + 1) / 2) (length codes) flat ((dim / 4 + 1) / 2) 0 ≡ some out
    → dim + 8 ≤ 2 ^ 30
    → length out ≤ fast_scan_packed_size dim
    → pack_sign_bits codes dim ≡ some (out ++ replicate (fast_scan_packed_size dim - length out) 0)
unfolding pack_sign_bits
pack_run codes dim flat out run runs small room =
    let bytes = (dim / 4 + 1) / 2 in
    let narrow : u32 (32 * bytes) ≡ 32 * bytes = mod-eq_of_lt {n = 32 * bytes} (omega arith) in
    rw (narrow, run, runs, le→leb (length out) (fast_scan_packed_size dim) room)

-- For up to 32 codes with words for `dim` bits each, and at most 2^30 - 8 dimensions, packing stays
-- inside its buffers, the packed block has the packed size, and unpacking vector `v` gives the bits of its code below the last multiple of four in `dim`, and zeros from
-- there on.
pub unpack-pack_sign_bits :
    (codes : List (List ℕ)) (dim v : ℕ)
    → length codes ≤ 32
    → v < length codes
    → All (HasWords dim) codes
    → dim + 8 ≤ 2 ^ 30
    → (packed out : List ℕ) × (pack_sign_bits codes dim ≡ some packed)
      × (length packed ≡ fast_scan_packed_size dim)
      × (unpack_sign_bits packed v dim ≡ some out)
      × (length out ≡ (dim + 63) / 64)
      × IsUnpacked (get_or codes v []) (dim / 4 * 4) out
unpack-pack_sign_bits codes dim v few hv words small =
    let n = length codes in
    let bytes = (dim / 4 + 1) / 2 in
    let flat₀ : List ℕ = replicate (32 * bytes) 0 in
    let e : 32 * bytes ≡ length flat₀ = sym (length-replicate {A = ℕ} (32 * bytes) 0) in
    let zero_n : 0 + n ≡ n = omega arith in
    let room₀ : (0 + n) * bytes ≤ length flat₀ =
      omega (arith, mul-le n 32 bytes few, ap (λ (t : ℕ). t * bytes) zero_n) in
    let (flat, run, long, rows, _) =
      flatten_rows_lem codes dim bytes 0 flat₀ (omega arith) words room₀
        (λ i h. get_or-zeros (32 * bytes) i) in
    let (out, runs, longs, pairs) =
      pack_pairs_lem bytes n bytes 0 flat (omega arith) (omega (arith, mul-le n 32 bytes few))
        (λ i k hi. cell-lt codes dim bytes flat rows i k hi) in
    let pad = fast_scan_packed_size dim - length out in
    let packed = out ++ replicate pad 0 in
    let size : length packed ≡ fast_scan_packed_size dim =
      omega (arith, length-append out (replicate pad 0), length-replicate {A = ℕ} pad 0) in
    let (lane, hl, is_lane, is_v) = lane_of v (omega arith) in
    let (pos, run_pos, at, hp) = place lane hl in
    let high = leb 16 v in
    let has =
      packed_nibbles codes dim bytes flat out rows pairs high lane pos pad at hp (omega arith) longs
        refl (subst (λ (t : ℕ). t < n) (sym is_v) hv) in
    let zeros : List ℕ = replicate ((dim + 63) / 64) 0 in
    let long_zeros : length zeros ≡ (dim + 63) / 64 =
      length-replicate {A = ℕ} ((dim + 63) / 64) 0 in
    let start : IsUnpacked (get_or codes v []) (min (0 * 2) (dim / 4) * 4) zeros =
      λ i. get_or-zeros ((dim + 63) / 64) i ∙ no_bits (get_or codes v []) (dim / 4) i in
    let (words_out, run_out, same, done) =
      unpack_pairs_lem bytes 0 dim pos high (get_or codes v []) packed zeros (omega arith) hp small
        (omega arith) (omega arith)
        (subst (λ (t : ℕ). HasNibbles (get_or codes t []) (dim / 4) high pos packed) is_v has)
        start in
    (
      packed,
      words_out,
      pack_run codes dim flat out run runs small (omega arith),
      size,
      unpack_run packed words_out v dim lane pos is_lane run_pos small run_out,
      same ∙ long_zeros,
      done,
    )
