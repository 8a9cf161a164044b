-- ===== src/Index/IvfBuilder/Addresses.antt =====
-- From the records of the vectors to the address table of a cluster, and back.
use native.Mathlib.Nat.{div-lt_iff_lt-mul}
use vec_fetch.Prelude.{
  ℕ, zero, suc, ◌*◌, ◌%◌, ◌^◌, ◌≤◌, ◌<◌, ◌≡◌, refl, ap, arith, true, false, Bool-cases, inl, inr,
  List, [], ◌∷◌, some, ◌==◌, ==_iff, ◌>>=◌, length, get_elem?, All,
}
use vec_fetch.Types.{AddressEntry}
use vec_fetch.Status.{value}
use vec_fetch.Simd.Isa.{Isa}
use vec_fetch.Storage.DataFile.Reader.{DataFileReader, read_record}
use vec_fetch.Storage.AddressColumn.RawTable.{
  is_aligned, validate_raw_table_v2_alignment, encode_raw_table_v2,
}
use vec_fetch.Storage.AddressColumn.Decoder.{decode_column}
use vec_fetch.Storage.AddressColumn.RawRoundTrip.{IsAddressable, decode-encode_raw_table}
use vec_fetch.Index.IvfBuilder.{gather}
use vec_fetch.Index.IvfBuilder.Data.{Row}
use vec_fetch.Index.IvfBuilder.Records.{AreReadable, IsPaged}
use vec_fetch.Index.IvfBuilder.Clusters.{members_of, members_of-lt}

module _ (r : DataFileReader) (ps end : ℕ) where
  at_index :
      (es : List AddressEntry) (rows : List Row) (m : ℕ)
      → AreReadable r es rows
      → All (IsPaged ps end) es
      → m < length rows
      → (e : AddressEntry) × (row : Row) × (get_elem? es m ≡ some e)
        × (get_elem? rows m ≡ some row)
        × (read_record r e ≡ some (value row))
        × IsPaged ps end e
  unfolding AreReadable
  at_index [] [] m h p hm = absurd (omega arith)
  at_index [] (row ∷ rows) m h p hm = absurd h
  at_index (e ∷ es) [] m h p hm = absurd h
  at_index (e ∷ es) (row ∷ rows) zero (h, _) (p, _) hm = (e, row, refl, refl, h, p)
  at_index (e ∷ es) (row ∷ rows) (suc m) (_, h) (_, p) hm = at_index es rows m h p (omega arith)

  -- The addresses of some vectors are the places of their rows.
  gather_lem :
      (es : List AddressEntry) (rows : List Row) (members : List ℕ)
      → AreReadable r es rows
      → All (IsPaged ps end) es
      → All (λ m. m < length rows) members
      → (entries : List AddressEntry) × (chosen : List Row) × (gather es members ≡ some entries)
        × (gather rows members ≡ some chosen)
        × AreReadable r entries chosen
        × All (IsPaged ps end) entries
        × (length entries ≡ length members)
  unfolding gather AreReadable
  gather_lem es rows [] h p hm = ([], [], refl, refl, tt, tt, refl)
  gather_lem es rows (m ∷ members) h p (hm, hms) =
      let (e, row, run_e, run_row, back, paged) = at_index es rows m h p hm in
      let (entries, chosen, run_es, run_rows, backs, pageds, long) =
        gather_lem es rows members h p hms in
      (
        e ∷ entries,
        row ∷ chosen,
        rw (run_e, run_es),
        rw (run_row, run_rows),
        (back, backs),
        (paged, pageds),
        ap suc long,
      )

  is_aligned-IsPaged : (es : List AddressEntry) → All (IsPaged ps end) es → is_aligned es ps ≡ true
  unfolding is_aligned
  is_aligned-IsPaged [] h = refl
  is_aligned-IsPaged (e ∷ es) (h, hs) =
      let offset : (e.offset % ps == 0) ≡ true = (==_iff (e.offset % ps) 0).1 h.offset in
      let size : (e.size % ps == 0) ≡ true = (==_iff (e.size % ps) 0).1 h.size in
      rw (offset, size, is_aligned-IsPaged es hs)

  IsAddressable-IsPaged :
      (es : List AddressEntry)
      → end < 2 ^ 32 * ps
      → end < 2 ^ 64
      → All (IsPaged ps end) es
      → All (IsAddressable ps) es
  IsAddressable-IsPaged [] pages bytes h = tt
  IsAddressable-IsPaged (e ∷ es) pages bytes (h, hs) =
      let before = h.inside in
      let positive : 0 < ps = omega arith in
      (
        record {
          offset_fits = omega arith;
          size_fits = h.small;
          page_fits = (div-lt_iff_lt-mul positive).1 (omega arith);
        },
        IsAddressable-IsPaged es pages bytes hs,
      )

length-members_of :
    (c i : ℕ) (assignments : List ℕ) → length (members_of c i assignments) ≤ length assignments
unfolding members_of
length-members_of c i [] = omega arith
length-members_of c i (a ∷ assignments) =
    let rest = length-members_of c (suc i) assignments in
    elim (Bool-cases (a == c)) [
      | inl here ↦ rw here (omega arith)
      | inr there ↦ rw there (omega arith)
    ]

-- The address table of cluster `c`.
pub cluster_table :
    (r : DataFileReader) (isa : Isa) (ps end k c : ℕ) (es : List AddressEntry) (rows : List Row)
    (assignments : List ℕ)
    → 1 < ps
    → end < 2 ^ 32 * ps
    → end < 2 ^ 64
    → length rows < 2 ^ 32
    → length assignments ≡ length rows
    → AreReadable r es rows
    → All (IsPaged ps end) es
    → (entries : List AddressEntry) × (chosen : List Row) × (gather es (members_of c 0 assignments)
        ≡ some entries)
      × (gather rows (members_of c 0 assignments) ≡ some chosen)
      × ((encode_raw_table_v2 entries ps >>= decode_column isa) ≡ some (value entries))
      × AreReadable r entries chosen
cluster_table r isa ps end k c es rows assignments paged pages bytes count same readable all_paged =
    let members = members_of c 0 assignments in
    let (entries, chosen, run, chosen_run, back, aligned, long) =
      gather_lem r ps end es rows members readable all_paged
        (members_of-lt c 0 (length rows) assignments (omega arith)) in
    let nonzero : (ps == 0) ≡ false = ground arith in
    let valid : validate_raw_table_v2_alignment entries ps ≡ true =
      unfold validate_raw_table_v2_alignment in
      rw (nonzero, is_aligned-IsPaged r ps end entries aligned) in
    (
      entries,
      chosen,
      run,
      chosen_run,
      decode-encode_raw_table isa entries ps valid
          (IsAddressable-IsPaged r ps end entries pages bytes aligned)
          (omega (arith, length-members_of c 0 assignments)),
      back,
    )
