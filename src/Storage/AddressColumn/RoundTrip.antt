-- ===== src/Storage/AddressColumn/RoundTrip.antt =====
-- Decoding the packed address column that was encoded.
use mathlib.Core.Path.{subst}
use native.Mathlib.Nat.{mod-eq_of_lt, div-le_self, lt-div-mul-add, div-mul-le_self, add-div_right}
use vec_fetch.Prelude.{
  ℕ, zero, suc, ◌+◌, ◌-◌, ◌*◌, ◌/◌, ◌^◌, ◌≤◌, ◌<◌, ◌≡◌, refl, sym, ◌∙◌, arith, List, [], ◌∷◌, ◌++◌,
  Option, some, false, length, All, IsU32, u8, u32, u64, u32_max, ◌==◌, if◌then◌else◌, ◌>>=◌, max,
}
use vec_fetch.Status.{value}
use vec_fetch.Simd.Isa.{Isa}
use vec_fetch.Codec.Bitpack.{compute_min_bit_width}
use vec_fetch.Codec.Bitpack.Width.{Fits, min_bit_width-IsLeastWidth}
use vec_fetch.Storage.AddressColumn.{
  AddressBlock, EncodedAddressColumn, v1_packed, default_fixed_packed_size,
}
use vec_fetch.Storage.AddressColumn.Encoder.{
  compute_shared_bit_width, compute_block_granularity, encode_blocks, encode_column,
}
use vec_fetch.Storage.AddressColumn.Decoder.{decode_batch_blocks, decode_column}
use vec_fetch.Storage.AddressColumn.Blocks.{entries_at, length-entries_at, Fitting, concat}
use vec_fetch.Storage.AddressColumn.EncodeBlock.{quotient_lem, page_sizes-entries_at}
use vec_fetch.Storage.AddressColumn.EncodeBlocks.{IsEncoded, encode_blocks_lem}
use vec_fetch.Storage.AddressColumn.DecodeColumn.{concat-snoc, decode_batch_blocks_lem}

bind-eq {ℓ ℓ'} :
    {A : Type ℓ} {B : Type ℓ'} {m : Option A} {x : A} (f : A → Option B)
    → m ≡ some x
    → (m >>= f) ≡ f x
bind-eq f e = rw e

-- The number of blocks, less one, and what it leaves for the last block.
block_count :
    (n g : ℕ)
    → 0 < n
    → 0 < g
    → n + g ≤ 2 ^ 32
    → (u32 (u32 (n + g) + u32_max) / g ≡ (n - 1) / g + 1)
      × ((n - 1) / g * g < n)
      × (n ≤ (n - 1) / g * g + g)
block_count n g hn hg h =
    let less : u32 (u32 (n + g) + u32_max) ≡ n - 1 + g = omega arith in
    (
      rw less (add-div_right (n - 1) hg),
      omega (arith, div-mul-le_self (n - 1) g),
      omega (arith, lt-div-mul-add {a = n - 1} hg),
    )

max_times : (q w m : ℕ) → q * w ≤ m → m < 2 ^ 32 → w ≤ 32 → max 1 q * w < 2 ^ 32
max_times zero w m h hm hw = omega arith
max_times (suc q) w m h hm hw = let e : max 1 (suc q) ≡ suc q = omega arith in rw e (omega arith)

granularity_bounds :
    (fixed w : ℕ)
    → 0 < fixed
    → fixed * 8 < 2 ^ 32
    → 1 ≤ w
    → w ≤ 32
    → (0 < compute_block_granularity fixed w)
      × (compute_block_granularity fixed w ≤ fixed * 8)
      × (compute_block_granularity fixed w * w < 2 ^ 32)
unfolding compute_block_granularity
granularity_bounds fixed w hx hf hw hw' =
    let q = fixed * 8 / w in
    let wide : u64 (fixed * 8) ≡ fixed * 8 = mod-eq_of_lt {n = fixed * 8} (omega arith) in
    let small = div-le_self (fixed * 8) w in
    let narrow : u32 q ≡ q = mod-eq_of_lt {n = q} (omega arith) in
    let no_zero : (fixed == 0) ≡ false = ground arith in
    let no_width : (w == 0) ≡ false = ground arith in
    rw (no_zero, no_width, wide, narrow)
      (omega arith, omega arith, max_times q w (fixed * 8) (div-mul-le_self (fixed * 8) w) hf hw')

size_small : (s ps : ℕ) → 0 < ps → s * ps + ps ≤ 2 ^ 32 → s < 2 ^ 32
size_small s (suc ps) hp h = omega arith
size_small s zero hp h = absurd (omega arith)

sizes-IsU32 :
    (ps : ℕ) (sizes : List ℕ) → 0 < ps → All (λ s. s * ps + ps ≤ 2 ^ 32) sizes → All IsU32 sizes
sizes-IsU32 ps [] hp h = tt
sizes-IsU32 ps (s ∷ sizes) hp (hs, h) = (size_small s ps hp hs, sizes-IsU32 ps sizes hp h)

sizes-le_max :
    (ps : ℕ) (sizes : List ℕ)
    → 0 < ps
    → All (λ s. s * ps + ps ≤ 2 ^ 32) sizes
    → All (λ s. s ≤ u32_max) sizes
sizes-le_max ps [] hp h = tt
sizes-le_max ps (s ∷ sizes) hp (hs, h) =
    (omega (arith, size_small s ps hp hs), sizes-le_max ps sizes hp h)

-- The width that the encoder chooses holds every page count.
shared_width :
    (ps p : ℕ) (sizes : List ℕ)
    → Fitting ps p sizes
    → 0 < length sizes
    → (w : ℕ) × (compute_shared_bit_width (entries_at ps p sizes) ps ≡ some w)
      × (1 ≤ w)
      × (w ≤ 32)
      × Fits w sizes
unfolding compute_shared_bit_width
shared_width ps p sizes f h =
    let least =
      min_bit_width-IsLeastWidth sizes u32_max (sizes-IsU32 ps sizes f.positive f.sizes_fit)
        (sizes-le_max ps sizes f.positive f.sizes_fit) in
    let w = compute_min_bit_width sizes u32_max in
    let some_width : (w == 0) ≡ false = ground (arith, least.positive) in
    let nonempty : (length (entries_at ps p sizes) == 0) ≡ false =
      ground (arith, length-entries_at ps p sizes) in
    (
      w,
      rw (nonempty, page_sizes-entries_at ps p sizes f.positive f.sizes_fit, some_width),
      least.positive,
      least.within,
      least.fits,
    )

-- The column that the encoder builds from a width, a block size and the blocks.
abbrev column : ℕ → ℕ → ℕ → ℕ → ℕ → List AddressBlock → ℕ → ℕ → EncodedAddressColumn
column ps w g fixed num blocks last n = record {
  format = v1_packed;
  layout = record {
    page_size = ps;
    bit_width = w;
    block_granularity = g;
    fixed_packed_size = fixed;
    last_packed_size = last;
    num_address_blocks = num;
  };
  blocks = blocks;
  raw_entries = [];
  total_records = n;
}

abbrev chosen_size : ℕ → ℕ
chosen_size fixed = if fixed == 0 then default_fixed_packed_size else fixed

encode_column_nonempty :
    (fixed ps p w g num : ℕ) (sizes : List ℕ) (blocks : List AddressBlock) (last : ℕ)
    → 0 < length sizes
    → length sizes < 2 ^ 32
    → compute_shared_bit_width (entries_at ps p sizes) ps ≡ some w
    → w ≤ 32
    → compute_block_granularity (chosen_size fixed) w ≡ g
    → 0 < g
    → u32 (u32 (length sizes + g) + u32_max) / g ≡ num
    → encode_blocks num 0 num
        (entries_at ps p sizes)
        (column ps w g (chosen_size fixed) num [] 0 0).layout
        0
      ≡ some (blocks, last)
    → encode_column (entries_at ps p sizes) fixed ps
      ≡ some (column ps w g (chosen_size fixed) num blocks last (length sizes))
unfolding encode_column
encode_column_nonempty fixed ps p w g num sizes blocks last hn hs shared hw granularity hg count
      run =
    let nonempty : (length sizes == 0) ≡ false = ground arith in
    let width : u8 w ≡ w = mod-eq_of_lt {n = w} (omega arith) in
    let size : u32 (length sizes) ≡ length sizes = mod-eq_of_lt {n = length sizes} hs in
    rw (
      length-entries_at ps p sizes,
      nonempty,
      shared,
      width,
      granularity,
      size,
      quotient_lem (u32 (u32 (length sizes + g) + u32_max)) g hg,
      count,
      run,
    )

-- Decoding the column that holds the blocks of an encoding.
decode_column_blocks :
    (isa : Isa) (fixed ps p w g n : ℕ) (sizes : List ℕ) (cs : List (List ℕ)) (c : List ℕ)
    (bs : List AddressBlock) (block : AddressBlock)
    → IsEncoded w g n p sizes cs c bs block
    → w ≤ 32
    → 0 < g
    → g * w < 2 ^ 32
    → g * 8 < 2 ^ 32
    → Fits w sizes
    → Fitting ps p sizes
    → length sizes < 2 ^ 32
    → decode_column isa
        (column ps w g fixed (suc n) (bs ++ block ∷ []) (u32 (length block.packed)) (length sizes))
      ≡ some (value (entries_at ps p sizes))
unfolding decode_column
decode_column_blocks isa fixed ps p w g n sizes cs c bs block enc hw hg hgw hg8 fits f hs =
    let whole : sizes ≡ concat (cs ++ c ∷ []) = enc.parts ∙ sym (concat-snoc cs c) in
    let col =
      column ps w g fixed (suc n) (bs ++ block ∷ []) (u32 (length block.packed)) (length sizes) in
    decode_batch_blocks_lem isa col.layout n p sizes cs c bs block enc (omega arith)
      (hw, hg, (hgw, hg8), subst (Fits w) whole fits, subst (Fitting ps p) whole f) hs

column_round_trip :
    (isa : Isa) (fixed ps p : ℕ) (sizes : List ℕ)
    → Fitting ps p sizes
    → length sizes + 8 * max 64 fixed < 2 ^ 32
    → 64 * max 64 fixed < 2 ^ 32
    → 0 < length sizes
    → (encode_column (entries_at ps p sizes) fixed ps >>= decode_column isa)
      ≡ some (value (entries_at ps p sizes))
column_round_trip isa fixed ps p sizes f h hf hn =
    let (w, shared, hw, hw', fits) = shared_width ps p sizes f hn in
    let size_some : 0 < chosen_size fixed = ground arith in
    let size_le : chosen_size fixed ≤ max 64 fixed = ground arith in
    let g = compute_block_granularity (chosen_size fixed) w in
    let (hg, hg', hgw) = granularity_bounds (chosen_size fixed) w size_some (omega arith) hw hw' in
    let n = (length sizes - 1) / g in
    let (count, lo, hi) = block_count (length sizes) g hn hg (omega arith) in
    let es = entries_at ps p sizes in
    let layout = (column ps w g (chosen_size fixed) (suc n) [] 0 0).layout in
    let start : 0 * g ≡ 0 = omega arith in
    let (cs, c, bs, block, run, enc) =
      encode_blocks_lem n 0 (suc n) es layout 0 p sizes (rw start refl)
        (omega (arith, length-entries_at ps p sizes)) (omega (arith, length-entries_at ps p sizes))
        lo hi hg (omega arith) (omega (arith, div-le_self (length sizes - 1) g)) hgw fits f in
    bind-eq (decode_column isa) (
      encode_column_nonempty fixed ps p w g (suc n) sizes (bs ++ block ∷ [])
        (u32 (length block.packed)) hn (omega arith) shared hw' refl hg (count ∙ omega arith) run)
    ∙ decode_column_blocks isa (chosen_size fixed) ps p w g n sizes cs c bs block enc hw' hg hgw
        (omega arith) fits f (omega arith)

-- Decoding an encoded column gives the records back, with every kernel: for records that follow each
-- other from page `p` on, each of a whole number of pages, if the page size is positive and fits 32
-- bits, a size and a page together take at most 2^32 bytes, the last page number fits 32 bits, the
-- block size, at least 64, is less than 2^26, and the number of records with eight times the block
-- size fits 32 bits too.
pub decode-encode_column :
    (isa : Isa) (fixed ps p : ℕ) (sizes : List ℕ)
    → Fitting ps p sizes
    → length sizes + 8 * max 64 fixed < 2 ^ 32
    → 64 * max 64 fixed < 2 ^ 32
    → (encode_column (entries_at ps p sizes) fixed ps >>= decode_column isa)
      ≡ some (value (entries_at ps p sizes))
unfolding encode_column decode_column decode_batch_blocks entries_at
decode-encode_column isa fixed ps p [] f h hf = refl
decode-encode_column isa fixed ps p (s ∷ sizes) f h hf =
    column_round_trip isa fixed ps p (s ∷ sizes) f h hf (omega arith)
