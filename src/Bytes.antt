-- ===== src/Bytes.antt =====
-- A byte buffer as one number: byte `i` holds the bits from `8 * i` on, lowest first.
use native.Mathlib.Nat.{div-div-eq-div-mul}
use vec_fetch.Prelude.{
  ℕ, zero, suc, ◌+◌, ◌*◌, ◌/◌, ◌^◌, ◌<◌, ◌≡◌, refl, arith, List, [], ◌∷◌, ◌++◌, length, get_or, set,
  replicate, All, IsByte,
}
use vec_fetch.Bits.{pow-add}
use vec_fetch.Bits.Fields.{field}

unfoldable pub value : List ℕ → ℕ
value [] = 0
value (b ∷ bs) = b + 256 * value bs

pow_eight : (i : ℕ) → 2 ^ (8 * suc i) ≡ 256 * 2 ^ (8 * i)
pow_eight i = let e : 8 * suc i ≡ 8 + 8 * i = omega arith in rw e (pow-add 8 (8 * i))

-- A byte of the buffer is a field of its value.
pub byte_field :
    (bs : List ℕ) (i : ℕ)
    → All IsByte bs
    → i < length bs
    → get_or bs i 0 ≡ field (value bs) (8 * i) 8
unfolding value
byte_field [] i hb h = absurd (omega arith)
byte_field (b ∷ bs) zero (hb, _) h = omega arith
byte_field (b ∷ bs) (suc i) (hb, hbs) h =
    let shifted : (b + 256 * value bs) / 256 ≡ value bs = omega arith in
    rw (pow_eight i, ← div-div-eq-div-mul (b + 256 * value bs) 256 (2 ^ (8 * i)), shifted)
      (byte_field bs i hbs (omega arith))

-- Adding to a byte adds to the value, at the byte's place.
pub value-set :
    (bs : List ℕ) (i d : ℕ)
    → i < length bs
    → value (set bs i (get_or bs i 0 + d)) ≡ value bs + d * 2 ^ (8 * i)
unfolding value
value-set [] i d h = absurd (omega arith)
value-set (b ∷ bs) zero d h = omega arith
value-set (b ∷ bs) (suc i) d h = rw (pow_eight i, value-set bs i d (omega arith)) (omega arith)

pub value-lt : (bs : List ℕ) → All IsByte bs → value bs < 2 ^ (8 * length bs)
unfolding value
value-lt [] h = omega arith
value-lt (b ∷ bs) (hb, hbs) = rw (pow_eight (length bs)) (omega (arith, value-lt bs hbs))

pub value-zeros : (n : ℕ) → value (replicate n 0) ≡ 0
unfolding value
value-zeros zero = refl
value-zeros (suc n) = omega (arith, value-zeros n)

-- Zeros behind the buffer do not change its value.
pub value-append_zeros : (bs : List ℕ) (n : ℕ) → value (bs ++ replicate n 0) ≡ value bs
unfolding value
value-append_zeros [] n = value-zeros n
value-append_zeros (b ∷ bs) n = omega (arith, value-append_zeros bs n)

pub All-IsByte-set : (bs : List ℕ) (i v : ℕ) → All IsByte bs → IsByte v → All IsByte (set bs i v)
All-IsByte-set [] i v hb hv = hb
All-IsByte-set (b ∷ bs) zero v (_, hbs) hv = (hv, hbs)
All-IsByte-set (b ∷ bs) (suc i) v (hb, hbs) hv = (hb, All-IsByte-set bs i v hbs hv)

pub All-IsByte-zeros : (n : ℕ) → All IsByte (replicate n 0)
All-IsByte-zeros zero = tt
All-IsByte-zeros (suc n) = (omega arith, All-IsByte-zeros n)

pub All-IsByte-append : (xs ys : List ℕ) → All IsByte xs → All IsByte ys → All IsByte (xs ++ ys)
All-IsByte-append [] ys h k = k
All-IsByte-append (x ∷ xs) ys (hx, hxs) k = (hx, All-IsByte-append xs ys hxs k)

pub get_or-IsByte : (bs : List ℕ) (i : ℕ) → All IsByte bs → IsByte (get_or bs i 0)
get_or-IsByte [] i h = omega arith
get_or-IsByte (b ∷ bs) zero (hb, _) = hb
get_or-IsByte (b ∷ bs) (suc i) (_, hbs) = get_or-IsByte bs i hbs
