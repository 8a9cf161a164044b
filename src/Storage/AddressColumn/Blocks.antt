-- ===== src/Storage/AddressColumn/Blocks.antt =====
-- What an encoded block stands for: the page counts of consecutive records, from a page on.
use native.Mathlib.Nat.{mod-eq_of_lt}
use vec_fetch.Prelude.{
  ℕ, suc, ◌+◌, ◌*◌, ◌^◌, ◌≤◌, ◌<◌, ◌≡◌, refl, ap, arith, List, [], ◌∷◌, ◌++◌, map, length, All,
  IsByte, u32, u64,
}
use vec_fetch.Bytes.{value}
use vec_fetch.Types.{AddressEntry}
use vec_fetch.Simd.PrefixSum.Single.{partial_sums}
use vec_fetch.Codec.Bitpack.Width.{Fits}
use vec_fetch.Codec.Bitpack.RoundTrip.{packed_value}
use vec_fetch.Storage.AddressColumn.{AddressBlock}
use vec_fetch.Storage.AddressColumn.Decoder.{materialize}

unfoldable pub sum : List ℕ → ℕ
sum [] = 0
sum (x ∷ xs) = x + sum xs

pub sum-append : (xs ys : List ℕ) → sum (xs ++ ys) ≡ sum xs + sum ys
unfolding sum
sum-append [] ys = omega arith
sum-append (x ∷ xs) ys = omega (arith, sum-append xs ys)

-- Records of `sizes` pages, one behind the other from page `page` on.
unfoldable pub entries_at : ℕ → ℕ → List ℕ → List AddressEntry
entries_at page_size page [] = []
entries_at page_size page (s ∷ sizes) =
    record { offset = page * page_size; size = s * page_size }
    ∷ entries_at page_size (page + s) sizes

pub length-entries_at : (ps p : ℕ) (sizes : List ℕ) → length (entries_at ps p sizes) ≡ length sizes
unfolding entries_at
length-entries_at ps p [] = refl
length-entries_at ps p (s ∷ sizes) = ap suc (length-entries_at ps (p + s) sizes)

pub entries_at-append :
    (ps p : ℕ) (xs ys : List ℕ)
    → entries_at ps p (xs ++ ys) ≡ entries_at ps p xs ++ entries_at ps (p + sum xs) ys
unfolding entries_at sum
entries_at-append ps p [] ys = let e : p + 0 ≡ p = omega arith in rw e
entries_at-append ps p (x ∷ xs) ys =
    let e : p + (x + sum xs) ≡ p + x + sum xs = omega arith in
    rw (e, entries_at-append ps (p + x) xs ys)

-- The sizes and the last page fit the widths of the file format.
pub record Fitting (ps p : ℕ) (sizes : List ℕ) : Type 0 where
  pub positive : 0 < ps
  pub page_fits : ps < 2 ^ 32
  pub sizes_fit : All (λ s. s * ps + ps ≤ 2 ^ 32) sizes
  pub end_fits : p + sum sizes < 2 ^ 32

All-append {ℓ κ} :
    {A : Type ℓ} (P : A → Type κ) (xs ys : List A) → All P (xs ++ ys) → All P xs × All P ys
All-append P [] ys h = (tt, h)
All-append P (x ∷ xs) ys (hx, h) = let (a, b) = All-append P xs ys h in ((hx, a), b)

pub Fitting-append :
    (ps p : ℕ) (xs ys : List ℕ)
    → Fitting ps p (xs ++ ys)
    → Fitting ps p xs × Fitting ps (p + sum xs) ys
Fitting-append ps p xs ys f =
    let (a, b) = All-append (λ s. s * ps + ps ≤ 2 ^ 32) xs ys f.sizes_fit in
    (
      record {
        positive = f.positive;
        page_fits = f.page_fits;
        sizes_fit = a;
        end_fits = omega (arith, f.end_fits, sum-append xs ys);
      },
      record {
        positive = f.positive;
        page_fits = f.page_fits;
        sizes_fit = b;
        end_fits = omega (arith, f.end_fits, sum-append xs ys);
      },
    )

pub Fits-append : (w : ℕ) (xs ys : List ℕ) → Fits w (xs ++ ys) → Fits w xs × Fits w ys
Fits-append w = All-append (λ v. v < 2 ^ w)

product_fits : (a b : ℕ) → a < 2 ^ 32 → b < 2 ^ 32 → a * b < 2 ^ 64
product_fits a b ha hb = grind arith

-- The prefix sums place the records one behind the other.
pub materialize_lem :
    (ps p a : ℕ) (sizes : List ℕ)
    → Fitting ps (p + a) sizes
    → materialize ps p (map u32 (partial_sums a sizes)) sizes ≡ entries_at ps (p + a) sizes
unfolding materialize partial_sums entries_at sum
materialize_lem ps p a [] f = refl
materialize_lem ps p a (s ∷ sizes) f =
    let (hs, hss) = f.sizes_fit in
    let here : u32 a ≡ a = mod-eq_of_lt {n = a} (omega (arith, f.end_fits)) in
    let page : u64 (p + a) ≡ p + a = mod-eq_of_lt {n = p + a} (omega (arith, f.end_fits)) in
    let offset : u64 ((p + a) * ps) ≡ (p + a) * ps =
      mod-eq_of_lt {n = (p + a) * ps}
        (product_fits (p + a) ps (omega (arith, f.end_fits)) f.page_fits) in
    let wide : u64 (s * ps) ≡ s * ps = mod-eq_of_lt {n = s * ps} (omega (arith, f.positive)) in
    let size : u32 (s * ps) ≡ s * ps = mod-eq_of_lt {n = s * ps} (omega (arith, f.positive)) in
    let next : p + (a + s) ≡ p + a + s = omega arith in
    let later : Fitting ps (p + (a + s)) sizes = record {
      positive = f.positive;
      page_fits = f.page_fits;
      sizes_fit = hss;
      end_fits = omega (arith, f.end_fits);
    } in
    rw (here, page, offset, wide, size, materialize_lem ps p (a + s) sizes later, next)

-- `block` holds the page counts `sizes`, at `w` bits each, from page `p` on.
pub record IsBlock (w p : ℕ) (sizes : List ℕ) (block : AddressBlock) : Type 0 where
  pub base : block.base_offset ≡ p
  pub bytes : All IsByte block.packed
  pub bits : value block.packed ≡ packed_value w sizes
  pub room : length sizes * w ≤ 8 * length block.packed

unfoldable pub concat : List (List ℕ) → List ℕ
concat [] = []
concat (c ∷ cs) = c ++ concat cs

-- Full blocks of `g` records, one for each list of page counts.
unfoldable pub IsRun : ℕ → ℕ → ℕ → List (List ℕ) → List AddressBlock → Type 0
IsRun w g p [] [] = Unit
IsRun w g p (c ∷ cs) (b ∷ bs) = IsBlock w p c b × (length c ≡ g) × IsRun w g (p + sum c) cs bs
IsRun w g p cs bs = ⊥
