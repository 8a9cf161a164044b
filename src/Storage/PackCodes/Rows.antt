-- ===== src/Storage/PackCodes/Rows.antt =====
-- The rows of nibbles.
use mathlib.Core.Path.{subst}
use mathlib.Core.Option.{some-injective}
use vec_fetch.Prelude.{
  ℕ, zero, suc, ◌+◌, ◌*◌, ◌/◌, ◌%◌, ◌^◌, ◌≤◌, ◌<◌, ◌≡◌, ◌≢◌, ◌⊎◌, inl, inr, refl, sym, ap, ◌∙◌,
  arith, Bool, true, false, Bool-cases, List, [], ◌∷◌, Option, none, some, bit_or, ltb, lt→ltb,
  le→ltb, ◌==◌, ==_iff, ◌<<<◌, if◌then◌else◌, length, length-set, get_elem?, get_or,
  get_elem?-eq-get_or, set, All, u8, ℕ_discrete,
}
use vec_fetch.Bits.{bit_or_shifted}
use vec_fetch.Storage.PackCodes.{store_nibble, flatten_row, flatten_rows}
use vec_fetch.Storage.PackCodes.Nibbles.{nibble_of, nibble_of-lt, nibble_from_lem}

-- Byte `j` of a row with the first `n` nibbles.
abbrev pub row_byte : (ℕ → ℕ) → ℕ → ℕ → ℕ
row_byte f n j =
    (if ltb (j * 2) n then f (j * 2) else 0) + (if ltb (j * 2 + 1) n then f (j * 2 + 1) * 16 else 0)

row_byte-other : (f : ℕ → ℕ) (m j : ℕ) → j ≢ m / 2 → row_byte f (m + 1) j ≡ row_byte f m j
row_byte-other f m j h =
    let even : ltb (j * 2) (m + 1) ≡ ltb (j * 2) m = ground arith in
    let odd : ltb (j * 2 + 1) (m + 1) ≡ ltb (j * 2 + 1) m = ground arith in rw (even, odd)

zero-bit_or : (x : ℕ) → bit_or 0 x ≡ x
zero-bit_or x =
    let one : x * 2 ^ 0 ≡ x = omega arith in
    ap (bit_or 0) (sym one) ∙ bit_or_shifted 0 0 x (omega arith) ∙ omega arith

low_nibble :
    (f : ℕ → ℕ) (m : ℕ)
    → m % 2 ≡ 0
    → (row_byte f m (m / 2) ≡ 0) × (row_byte f (m + 1) (m / 2) ≡ f m)
low_nibble f m even =
    let e : m / 2 * 2 ≡ m = omega arith in
    let a : ltb (m / 2 * 2) m ≡ false = le→ltb (m / 2 * 2) m (omega arith) in
    let b : ltb (m / 2 * 2 + 1) m ≡ false = le→ltb (m / 2 * 2 + 1) m (omega arith) in
    let c : ltb (m / 2 * 2) (m + 1) ≡ true = lt→ltb (m / 2 * 2) (m + 1) (omega arith) in
    let d : ltb (m / 2 * 2 + 1) (m + 1) ≡ false = le→ltb (m / 2 * 2 + 1) (m + 1) (omega arith) in
    (rw (a, b), rw (c, d) (omega (arith, ap f e)))

high_nibble :
    (f : ℕ → ℕ) (m : ℕ)
    → m % 2 ≡ 1
    → (row_byte f m (m / 2) ≡ f (m / 2 * 2))
      × (row_byte f (m + 1) (m / 2) ≡ f (m / 2 * 2) + f m * 16)
high_nibble f m odd =
    let e : m / 2 * 2 + 1 ≡ m = omega arith in
    let a : ltb (m / 2 * 2) m ≡ true = lt→ltb (m / 2 * 2) m (omega arith) in
    let b : ltb (m / 2 * 2 + 1) m ≡ false = le→ltb (m / 2 * 2 + 1) m (omega arith) in
    let c : ltb (m / 2 * 2) (m + 1) ≡ true = lt→ltb (m / 2 * 2) (m + 1) (omega arith) in
    let d : ltb (m / 2 * 2 + 1) (m + 1) ≡ true = lt→ltb (m / 2 * 2 + 1) (m + 1) (omega arith) in
    (rw (a, b) (omega arith), rw (c, d) (omega (arith, ap f e)))

-- Nibble `m` goes into its half of byte `m / 2`.
row_byte-here :
    (f : ℕ → ℕ) (m : ℕ)
    → ((k : ℕ) → f k < 16)
    → u8 (bit_or (row_byte f m (m / 2)) (if m % 2 == 0 then f m else f m <<< 4))
      ≡ row_byte f (m + 1) (m / 2)
row_byte-here f m small =
    let stored = λ (b : Bool). u8 (bit_or (row_byte f m (m / 2)) (if b then f m else f m <<< 4)) in
    elim (Bool-cases (m % 2 == 0)) [
      | inl even ↦
          let (before, after) = low_nibble f m ((==_iff (m % 2) 0).0 even) in
          let small_m = small m in
          let byte : u8 (f m) ≡ f m = omega arith in
          ap stored even
          ∙ ap (λ (o : ℕ). u8 (bit_or o (f m))) before
          ∙ ap u8 (zero-bit_or (f m))
          ∙ byte
          ∙ sym after
      | inr odd ↦
          let odd_m : m % 2 ≡ 1 = ground arith in
          let (before, after) = high_nibble f m odd_m in
          let small_m = small m in
          let small_low = small (m / 2 * 2) in
          let byte : u8 (f (m / 2 * 2) + f m * 16) ≡ f (m / 2 * 2) + f m * 16 = omega arith in
          ap stored odd
          ∙ ap (λ (o : ℕ). u8 (bit_or o (f m <<< 4))) before
          ∙ ap u8 (bit_or_shifted 4 (f (m / 2 * 2)) (f m) small_low)
          ∙ byte
          ∙ sym after
    ]

pub get_or-set : (xs : List ℕ) (i v : ℕ) → i < length xs → get_or (set xs i v) i 0 ≡ v
get_or-set [] i v h = absurd (omega arith)
get_or-set (x ∷ xs) zero v h = refl
get_or-set (x ∷ xs) (suc i) v h = get_or-set xs i v (omega arith)

pub get_or-set_other : (xs : List ℕ) (i j v : ℕ) → i ≢ j → get_or (set xs i v) j 0 ≡ get_or xs j 0
get_or-set_other [] i j v h = refl
get_or-set_other (x ∷ xs) zero zero v h = absurd (h refl)
get_or-set_other (x ∷ xs) zero (suc j) v h = refl
get_or-set_other (x ∷ xs) (suc i) zero v h = refl
get_or-set_other (x ∷ xs) (suc i) (suc j) v h = get_or-set_other xs i j v (λ e. h (ap suc e))

-- The row from `base` on holds the first `n` nibbles.
abbrev pub IsRow : (ℕ → ℕ) → ℕ → ℕ → ℕ → List ℕ → Type 0
IsRow f n bytes base flat = (j : ℕ) → j < bytes → get_or flat (base + j) 0 ≡ row_byte f n j

-- Nothing but the row differs.
abbrev pub SameBeside : ℕ → ℕ → List ℕ → List ℕ → Type 0
SameBeside bytes base before after =
    (i : ℕ) → (i < base) ⊎ (base + bytes ≤ i) → get_or after i 0 ≡ get_or before i 0

flatten_row_lem :
    (rounds : ℕ) (code : List ℕ) (dim bytes v m : ℕ) (flat : List ℕ)
    → rounds + m ≡ dim / 4
    → dim / 4 ≤ bytes * 2
    → dim ≤ 64 * length code
    → v * bytes + bytes ≤ length flat
    → IsRow (nibble_of code) m bytes (v * bytes) flat
    → (after : List ℕ) × (flatten_row rounds code dim bytes v m flat ≡ some after)
      × (length after ≡ length flat)
      × IsRow (nibble_of code) (dim / 4) bytes (v * bytes) after
      × SameBeside bytes (v * bytes) flat after
unfolding flatten_row
flatten_row_lem zero code dim bytes v m flat last fits words room row = (
  flat,
  refl,
  refl,
  (let e : m ≡ dim / 4 = omega arith in
      subst (λ (n : ℕ). IsRow (nibble_of code) n bytes (v * bytes) flat) e row),
  λ i h. refl,
)
flatten_row_lem (suc rounds) code dim bytes v m flat last fits words room row =
    let f = nibble_of code in
    let i = v * bytes + m / 2 in
    let old = get_or flat i 0 in
    let new = u8 (bit_or old (if m % 2 == 0 then f m else f m <<< 4)) in
    let stored = set flat i new in
    let inside : i < length flat = omega arith in
    let store : store_nibble flat i m (f m) ≡ some stored =
      unfold store_nibble in rw (get_elem?-eq-get_or flat i 0 inside) in
    let here : new ≡ row_byte f (m + 1) (m / 2) =
      ap (λ (o : ℕ). u8 (bit_or o (if m % 2 == 0 then f m else f m <<< 4)))
        (row (m / 2) (omega arith))
      ∙ row_byte-here f m (nibble_of-lt code) in
    let next : IsRow f (m + 1) bytes (v * bytes) stored = λ j hj. elim (ℕ_discrete j (m / 2)) [
      | yes same ↦
          ap (λ (k : ℕ). get_or stored (v * bytes + k) 0) same
          ∙ get_or-set flat i new inside
          ∙ here
          ∙ ap (row_byte f (m + 1)) (sym same)
      | no other ↦
          get_or-set_other flat i (v * bytes + j) new (λ e. other (omega arith))
          ∙ row j hj
          ∙ sym (row_byte-other f m j other)
    ] in
    let (after, run, long, done, beside) =
      flatten_row_lem rounds code dim bytes v (m + 1) stored (omega arith) fits words
        (omega (arith, length-set flat i new)) next in
    (
      after,
      rw (nibble_from_lem code dim m (omega arith) words, store, run),
      long ∙ length-set flat i new,
      done,
      λ k h.
          beside k h
          ∙ get_or-set_other flat i k new
              (λ e. elim h [ inl before ↦ omega arith | inr behind ↦ omega arith ]),
    )

-- The row of each code, one behind the other from row `v` on.
abbrev pub AreRows : ℕ → ℕ → List (List ℕ) → ℕ → List ℕ → Type 0
AreRows dim bytes codes v flat =
    (k : ℕ) (code : List ℕ)
    → get_elem? codes k ≡ some code
    → IsRow (nibble_of code) (dim / 4) bytes ((v + k) * bytes) flat

-- The words of a code are enough for `dim` bits.
abbrev pub HasWords : ℕ → List ℕ → Type 0
HasWords dim code = dim ≤ 64 * length code

next_row : (v bytes : ℕ) → (v + 1) * bytes ≡ v * bytes + bytes
next_row v bytes = omega arith

row_before : (v k bytes : ℕ) → v + suc k ≡ v + 1 + k
row_before v k bytes = omega arith

row_room : (v n bytes : ℕ) → v * bytes + bytes ≤ (v + 1 + n) * bytes
row_room v n bytes =
    let e : (v + 1 + n) * bytes ≡ v * bytes + bytes + n * bytes = omega arith in omega arith

row_byte-none : (f : ℕ → ℕ) (j : ℕ) → row_byte f 0 j ≡ 0
row_byte-none f j = rw (le→ltb (j * 2) 0 (omega arith), le→ltb (j * 2 + 1) 0 (omega arith))

AreRows-cons :
    (dim bytes v : ℕ) (code : List ℕ) (codes : List (List ℕ)) (first after : List ℕ)
    → IsRow (nibble_of code) (dim / 4) bytes (v * bytes) first
    → ((i : ℕ) → i < v * bytes + bytes → get_or after i 0 ≡ get_or first i 0)
    → AreRows dim bytes codes (v + 1) after
    → AreRows dim bytes (code ∷ codes) v after
AreRows-cons dim bytes v code codes first after row before rows zero code' h =
    let same : code ≡ code' = some-injective code code' h in
    let here : v + 0 ≡ v = omega arith in
    λ j hj.
      ap (λ (n : ℕ). get_or after (n * bytes + j) 0) here
      ∙ before (v * bytes + j) (omega arith)
      ∙ row j hj
      ∙ ap (λ (c : List ℕ). row_byte (nibble_of c) (dim / 4) j) same
AreRows-cons dim bytes v code codes first after row before rows (suc k) code' h = λ j hj.
    ap (λ (n : ℕ). get_or after (n * bytes + j) 0) (row_before v k bytes) ∙ rows k code' h j hj

pub flatten_rows_lem :
    (codes : List (List ℕ)) (dim bytes v : ℕ) (flat : List ℕ)
    → dim / 4 ≤ bytes * 2
    → All (HasWords dim) codes
    → (v + length codes) * bytes ≤ length flat
    → ((i : ℕ) → v * bytes ≤ i → get_or flat i 0 ≡ 0)
    → (after : List ℕ) × (flatten_rows codes dim bytes v flat ≡ some after)
      × (length after ≡ length flat)
      × AreRows dim bytes codes v after
      × ((i : ℕ) → i < v * bytes → get_or after i 0 ≡ get_or flat i 0)
unfolding flatten_rows
flatten_rows_lem [] dim bytes v flat fits words room empty = (
  flat,
  refl,
  refl,
  (λ k code h. absurd (let never : ◌≡◌ {A = Option (List ℕ)} none (some code) = h in cc)),
  λ i h. refl,
)
flatten_rows_lem (code ∷ codes) dim bytes v flat fits (enough, words) room empty =
    let e = next_row v bytes in
    let all : (v + suc (length codes)) * bytes ≡ (v + 1 + length codes) * bytes =
      ap (λ (n : ℕ). n * bytes) (row_before v (length codes) bytes) in
    let more : v * bytes + bytes ≤ (v + 1 + length codes) * bytes =
      row_room v (length codes) bytes in
    let (first, run, long, row, beside) =
      flatten_row_lem (dim / 4) code dim bytes v 0 flat (omega arith) fits enough (omega arith)
        (λ j hj. empty (v * bytes + j) (omega arith) ∙ sym (row_byte-none (nibble_of code) j)) in
    let (after, runs, longs, rows, before) =
      flatten_rows_lem codes dim bytes (v + 1) first fits words (omega arith)
        (λ i h. beside i (inr (omega arith)) ∙ empty i (omega arith)) in
    (
      after,
      rw (run, runs),
      longs ∙ long,
      AreRows-cons dim bytes v code codes first after row (λ i h. before i (omega arith)) rows,
      λ i h. before i (omega arith) ∙ beside i (inl h),
    )
