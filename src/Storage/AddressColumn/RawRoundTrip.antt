-- ===== src/Storage/AddressColumn/RawRoundTrip.antt =====
-- Decoding the raw address table that was encoded.
use native.Mathlib.Nat.{mod-eq_of_lt, div-le_self}
use vec_fetch.Prelude.{
  ℕ, ◌*◌, ◌/◌, ◌%◌, ◌^◌, ◌<◌, ◌≡◌, suc, refl, sym, ap, ◌∙◌, arith, true, List, [], ◌∷◌, some, ◌>>=◌,
  length, u32, u64, All, map, ==_iff,
}
use vec_fetch.Types.{AddressEntry}
use vec_fetch.Status.{value}
use vec_fetch.Simd.Isa.{Isa}
use vec_fetch.Storage.AddressColumn.{RawAddressEntryV2}
use vec_fetch.Storage.AddressColumn.Decoder.{decode_column, decode_format}
use vec_fetch.Storage.AddressColumn.EncodeBlock.{quotient_lem}
use vec_fetch.Storage.AddressColumn.RawTable.{
  decode_raw_entry_v2, is_aligned, validate_raw_table_v2_alignment, encode_raw_entries,
  encode_raw_table_v2, decode_raw_table_v2,
}

-- The address fits the fields of its type, and its first page fits the table.
pub record IsAddressable (page_size : ℕ) (e : AddressEntry) : Type 0 where
  pub offset_fits : e.offset < 2 ^ 64
  pub size_fits : e.size < 2 ^ 32
  pub page_fits : e.offset / page_size < 2 ^ 32

aligned_page : (n d : ℕ) → n % d ≡ 0 → n / d * d ≡ n
aligned_page n d zero_rest = omega arith

is_aligned-head :
    (e : AddressEntry) (es : List AddressEntry) (ps : ℕ)
    → is_aligned (e ∷ es) ps ≡ true
    → (e.offset % ps ≡ 0) × (e.size % ps ≡ 0) × (is_aligned es ps ≡ true)
unfolding is_aligned
is_aligned-head e es ps h = ground arith

page_back : (n d : ℕ) → n % d ≡ 0 → n < 2 ^ 64 → n / d < 2 ^ 32 → u64 (u32 (n / d) * d) ≡ n
page_back n d zero_rest small few =
    let narrow : u32 (n / d) ≡ n / d = mod-eq_of_lt {n = n / d} few in
    rw (narrow, aligned_page n d zero_rest) (mod-eq_of_lt {n = n} small)

abbrev entry : ℕ → ℕ → AddressEntry
entry o s = record { offset = o; size = s }

address_entry : (o o' s s' : ℕ) → o ≡ o' → s ≡ s' → entry o s ≡ entry o' s'
address_entry o o' s s' ho hs = rw (ho, hs)

raw_entry_round_trip :
    (e : AddressEntry) (ps : ℕ)
    → e.offset % ps ≡ 0
    → e.size % ps ≡ 0
    → IsAddressable ps e
    → decode_raw_entry_v2
        (record { offset_pages = u32 (e.offset / ps); size_pages = u32 (e.size / ps) })
        ps
      ≡ e
unfolding decode_raw_entry_v2
raw_entry_round_trip e ps ho hs f =
    let few : e.size / ps < 2 ^ 32 = omega (arith, div-le_self e.size ps, f.size_fits) in
    let size = page_back e.size ps hs (omega (arith, f.size_fits)) few in
    address_entry (u64 (u32 (e.offset / ps) * ps)) e.offset (u32 (u64 (u32 (e.size / ps) * ps)))
      e.size (page_back e.offset ps ho f.offset_fits f.page_fits)
      (ap u32 size ∙ mod-eq_of_lt {n = e.size} f.size_fits)

raw_entries_round_trip :
    (es : List AddressEntry) (ps : ℕ)
    → 0 < ps
    → is_aligned es ps ≡ true
    → All (IsAddressable ps) es
    → (raw : List RawAddressEntryV2) × (encode_raw_entries es ps ≡ some raw)
      × (length raw ≡ length es)
      × (map (λ entry. decode_raw_entry_v2 entry ps) raw ≡ es)
unfolding encode_raw_entries
raw_entries_round_trip [] ps hp h f = ([], refl, refl, refl)
raw_entries_round_trip (e ∷ es) ps hp h (f, fs) =
    let (ho, hs, h') = is_aligned-head e es ps h in
    let (raw, run, count, back) = raw_entries_round_trip es ps hp h' fs in
    (
      record { offset_pages = u32 (e.offset / ps); size_pages = u32 (e.size / ps) } ∷ raw,
      rw (quotient_lem e.offset ps hp, quotient_lem e.size ps hp, run),
      ap suc count,
      rw (raw_entry_round_trip e ps ho hs f, back),
    )

-- The table of fewer than 2^32 records that pass the alignment test, fit their fields and have first
-- pages that fit 32 bits decodes to the records themselves, with every kernel.
pub decode-encode_raw_table :
    (isa : Isa) (entries : List AddressEntry) (ps : ℕ)
    → validate_raw_table_v2_alignment entries ps ≡ true
    → All (IsAddressable ps) entries
    → length entries < 2 ^ 32
    → (encode_raw_table_v2 entries ps >>= decode_column isa) ≡ some (value entries)
unfolding validate_raw_table_v2_alignment encode_raw_table_v2 decode_column decode_format
    decode_raw_table_v2
decode-encode_raw_table isa entries ps h f hn =
    let positive : 0 < ps = ground arith in
    let aligned : is_aligned entries ps ≡ true = ground arith in
    let (raw, run, count, back) = raw_entries_round_trip entries ps positive aligned f in
    let total : u32 (length entries) ≡ length raw =
      mod-eq_of_lt {n = length entries} hn ∙ sym count in
    let same = (==_iff (length raw) (length raw)).1 refl in rw (run, total, same, back)
