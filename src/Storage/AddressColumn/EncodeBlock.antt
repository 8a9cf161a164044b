-- ===== src/Storage/AddressColumn/EncodeBlock.antt =====
-- Encoding the records of a block gives a block that holds their page counts.
use native.Mathlib.Nat.{mod-eq_of_lt, mul-div_cancel}
use vec_fetch.Prelude.{
  ℕ, zero, suc, ◌+◌, ◌-◌, ◌*◌, ◌/◌, ◌^◌, ◌≤◌, ◌<◌, ◌≡◌, refl, ap, ◌∙◌, arith, List, [], ◌∷◌, ◌++◌,
  some, length, take, drop, get_elem?, All, u32, u32_max, ltb, le→ltb, lt→ltb, if◌then◌else◌,
  replicate, length-append, dec_lt,
}
use vec_fetch.Bits.{div_unique}
use vec_fetch.Bytes.{value-append_zeros, All-IsByte-append, All-IsByte-zeros}
use vec_fetch.Types.{AddressEntry}
use vec_fetch.Codec.Bitpack.Width.{Fits}
use vec_fetch.Codec.Bitpack.RoundTrip.{encode_layout}
use vec_fetch.Storage.AddressColumn.{AddressBlock, quotient}
use vec_fetch.Storage.AddressColumn.Encoder.{page_sizes, encode_single_block}
use vec_fetch.Storage.AddressColumn.Blocks.{sum, entries_at, Fitting, IsBlock}

pub quotient_lem : (n d : ℕ) → 0 < d → quotient n d ≡ some (n / d)
unfolding quotient
quotient_lem n d h = ground arith

-- The rounding up of a size that is a multiple of the page size gives the page count.
round_up : (s ps : ℕ) → 0 < ps → s * ps + ps ≤ 2 ^ 32 → u32 (u32 (s * ps + ps) + u32_max) / ps ≡ s
round_up s ps hp h =
    let less : u32 (u32 (s * ps + ps) + u32_max) ≡ s * ps + (ps - 1) = omega arith in
    rw less (div_unique (s * ps + (ps - 1)) ps s (ps - 1) (omega arith) (omega arith))

pub page_sizes-entries_at :
    (ps p : ℕ) (sizes : List ℕ)
    → 0 < ps
    → All (λ s. s * ps + ps ≤ 2 ^ 32) sizes
    → page_sizes (entries_at ps p sizes) ps ≡ some sizes
unfolding page_sizes entries_at
page_sizes-entries_at ps p [] hp h = refl
page_sizes-entries_at ps p (s ∷ sizes) hp (hs, h) = rw (
  quotient_lem (u32 (u32 (s * ps + ps) + u32_max)) ps hp,
  page_sizes-entries_at ps (p + s) sizes hp h,
  round_up s ps hp hs,
)

-- A block with zeros behind its packed bytes is the same block.
pad-IsBlock :
    (w p n : ℕ) (sizes packed : List ℕ)
    → IsBlock w p sizes (record { base_offset = p; packed = packed })
    → IsBlock w p sizes (record {
      base_offset = p;
      packed = if ltb (length packed) n then packed ++ replicate (n - length packed) 0 else packed;
    })
pad-IsBlock w p n sizes packed b = elim (dec_lt (length packed) n) [
  | yes more ↦
      let zeros : List ℕ = replicate (n - length packed) 0 in
      rw (lt→ltb (length packed) n more) (record {
        base = refl;
        bytes = All-IsByte-append packed zeros b.bytes (All-IsByte-zeros (n - length packed));
        bits = value-append_zeros packed (n - length packed) ∙ b.bits;
        room = rw (length-append packed zeros) (omega (arith, b.room));
      })
  | no enough ↦ rw (le→ltb (length packed) n (omega arith)) b
]

pub encode_single_block_lem :
    (ps w p padded s : ℕ) (sizes : List ℕ)
    → Fitting ps p (s ∷ sizes)
    → Fits w (s ∷ sizes)
    → length (s ∷ sizes) * w < 2 ^ 32
    → (block : AddressBlock) × (encode_single_block (entries_at ps p (s ∷ sizes)) ps w padded
        ≡ some block)
      × IsBlock w p (s ∷ sizes) block
unfolding encode_single_block
encode_single_block_lem ps w p padded s sizes f hf hl =
    let (packed, run, bytes, long, bits) = encode_layout (s ∷ sizes) w hf hl in
    let base : u32 (p * ps / ps) ≡ p =
      ap u32 (mul-div_cancel p f.positive) ∙ mod-eq_of_lt {n = p} (omega (arith, f.end_fits)) in
    let sized = page_sizes-entries_at ps p (s ∷ sizes) f.positive f.sizes_fit in
    let block : IsBlock w p (s ∷ sizes) (record { base_offset = p; packed = packed }) = record {
      base = refl;
      bytes = bytes;
      bits = bits;
      room = omega arith;
    } in
    (
      record {
        base_offset = p;
        packed =
            if ltb (length packed) padded
            then packed ++ replicate (padded - length packed) 0
            else packed;
      },
      rw (first ps p s sizes, quotient_lem (p * ps) ps f.positive, sized, run, base),
      pad-IsBlock w p padded (s ∷ sizes) packed block,
    )
  where
    first :
        (ps p s : ℕ) (sizes : List ℕ)
        → get_elem? (entries_at ps p (s ∷ sizes)) 0
          ≡ some (record { offset = p * ps; size = s * ps })
    first ps p s sizes = unfold entries_at in refl

pub encode_nonempty :
    (ps w p padded : ℕ) (sizes : List ℕ)
    → 0 < length sizes
    → Fitting ps p sizes
    → Fits w sizes
    → length sizes * w < 2 ^ 32
    → (block : AddressBlock) × (encode_single_block (entries_at ps p sizes) ps w padded
        ≡ some block)
      × IsBlock w p sizes block
encode_nonempty ps w p padded [] h f hf hl = absurd (omega arith)
encode_nonempty ps w p padded (s ∷ sizes) h f hf hl =
    encode_single_block_lem ps w p padded s sizes f hf hl

pub take-entries_at :
    (n ps p : ℕ) (sizes : List ℕ) → take n (entries_at ps p sizes) ≡ entries_at ps p (take n sizes)
unfolding entries_at
take-entries_at zero ps p sizes = refl
take-entries_at (suc n) ps p [] = refl
take-entries_at (suc n) ps p (s ∷ sizes) =
    ap (λ (l : List AddressEntry). record { offset = p * ps; size = s * ps } ∷ l)
      (take-entries_at n ps (p + s) sizes)

pub drop-entries_at :
    (n ps p : ℕ) (sizes : List ℕ)
    → drop n (entries_at ps p sizes) ≡ entries_at ps (p + sum (take n sizes)) (drop n sizes)
unfolding entries_at sum
drop-entries_at zero ps p sizes = let e : p + 0 ≡ p = omega arith in rw e
drop-entries_at (suc n) ps p [] = refl
drop-entries_at (suc n) ps p (s ∷ sizes) =
    let e : p + (s + sum (take n sizes)) ≡ p + s + sum (take n sizes) = omega arith in
    rw e (drop-entries_at n ps (p + s) sizes)

pub take_all {ℓ} : {A : Type ℓ} (n : ℕ) (xs : List A) → length xs ≤ n → take n xs ≡ xs
take_all zero [] h = refl
take_all zero (x ∷ xs) h = absurd (omega arith)
take_all (suc n) [] h = refl
take_all (suc n) (x ∷ xs) h = ap (λ l. x ∷ l) (take_all n xs (omega arith))

pub shorter : (a g w : ℕ) → a ≤ g → g * w < 2 ^ 32 → a * w < 2 ^ 32
shorter a g w h hw = grind arith
