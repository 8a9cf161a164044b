-- ===== src/Storage/AddressColumn/DecodeColumn.antt =====
-- Decoding all blocks of a packed column.
use mathlib.Core.Path.{subst}
use mathlib.Core.List.{append-nil, append_assoc}
use native.Mathlib.Nat.{mod-eq_of_lt}
use vec_fetch.Prelude.{
  ℕ, zero, suc, ◌+◌, ◌-◌, ◌*◌, ◌^◌, ◌<◌, ◌≡◌, refl, sym, ap, ◌∙◌, arith, List, [], ◌∷◌, ◌++◌, some,
  true, false, not, ◌||◌, length, take, get_elem?, u32, ltb, le→leb, ◌==◌, ==_iff, length-append,
  Bool-cases, inl, inr,
}
use vec_fetch.Status.{value}
use vec_fetch.Simd.Isa.{Isa}
use vec_fetch.Codec.Bitpack.Width.{Fits}
use vec_fetch.Storage.AddressColumn.{AddressBlock, AddressColumnLayout, block_record_count}
use vec_fetch.Storage.AddressColumn.Decoder.{
  decode_batches, decode_tail, decode_blocks, decode_batch_blocks,
}
use vec_fetch.Storage.AddressColumn.Blocks.{
  sum, sum-append, entries_at, entries_at-append, length-entries_at, Fitting, Fitting-append,
  Fits-append, IsBlock, concat, IsRun,
}
use vec_fetch.Storage.AddressColumn.EncodeBlocks.{IsEncoded}
use vec_fetch.Storage.AddressColumn.DecodeBlock.{Within, decode_single_block_lem}
use vec_fetch.Storage.AddressColumn.DecodeBatches.{length-concat_run, decode_batches_lem}

take_front {ℓ} :
    {A : Type ℓ} (xs : List A) (x : A) (n : ℕ) → length xs ≡ n → take n (xs ++ x ∷ []) ≡ xs
take_front [] x zero h = refl
take_front (y ∷ xs) x zero h = absurd (omega arith)
take_front [] x (suc n) h = absurd (omega arith)
take_front (y ∷ xs) x (suc n) h = ap (λ l. y ∷ l) (take_front xs x n (omega arith))

take_whole {ℓ} : {A : Type ℓ} (xs : List A) (n : ℕ) → length xs ≡ n → take n xs ≡ xs
take_whole [] zero h = refl
take_whole [] (suc n) h = refl
take_whole (x ∷ xs) zero h = absurd (omega arith)
take_whole (x ∷ xs) (suc n) h = ap (λ l. x ∷ l) (take_whole xs n (omega arith))

get_elem?-last {ℓ} :
    {A : Type ℓ} (xs : List A) (x : A) (n : ℕ) → length xs ≡ n → get_elem? (xs ++ x ∷ []) n ≡ some x
get_elem?-last [] x zero h = refl
get_elem?-last [] x (suc n) h = absurd (omega arith)
get_elem?-last (y ∷ xs) x zero h = absurd (omega arith)
get_elem?-last (y ∷ xs) x (suc n) h = get_elem?-last xs x n (omega arith)

-- A last block that is full too belongs to the run.
IsRun-snoc :
    (w g p : ℕ) (cs : List (List ℕ)) (c : List ℕ) (bs : List AddressBlock) (block : AddressBlock)
    → IsRun w g p cs bs
    → IsBlock w (p + sum (concat cs)) c block
    → length c ≡ g
    → IsRun w g p (cs ++ c ∷ []) (bs ++ block ∷ [])
unfolding IsRun concat
IsRun-snoc w g p [] c [] block r b full =
    let e : p + sum [] ≡ p = unfold sum in omega arith in (rw e at b, full, tt)
IsRun-snoc w g p [] c (b' ∷ bs) block r b full = absurd r
IsRun-snoc w g p (c' ∷ cs) c [] block r b full = absurd r
IsRun-snoc w g p (c' ∷ cs) c (b' ∷ bs) block (is, full', r) b full =
    let e : p + sum (c' ++ concat cs) ≡ p + sum c' + sum (concat cs) =
      omega (arith, sum-append c' (concat cs)) in
    (is, full', IsRun-snoc w g (p + sum c') cs c bs block r (rw e at b) full)

pub concat-snoc : (cs : List (List ℕ)) (c : List ℕ) → concat (cs ++ c ∷ []) ≡ concat cs ++ c
unfolding concat
concat-snoc [] c = append-nil c
concat-snoc (c' ∷ cs) c =
    ap (λ (l : List ℕ). c' ++ l) (concat-snoc cs c) ∙ sym (append_assoc c' (concat cs) c)

-- The blocks that `sizes` was cut into, and the layout that describes them.
module _ (isa : Isa) (layout : AddressColumnLayout) (n p : ℕ) (sizes : List ℕ) (cs : List (List ℕ))
    (c : List ℕ) (bs : List AddressBlock) (block : AddressBlock)
    (e : IsEncoded layout.bit_width layout.block_granularity n p sizes cs c bs block)
    (hn : layout.num_address_blocks ≡ n + 1)
    (within : Within layout.bit_width layout.block_granularity layout.page_size p (cs ++ c ∷ []))
    (hs : length sizes < 2 ^ 32) where
  abbrev w : ℕ
  w = layout.bit_width

  abbrev g : ℕ
  g = layout.block_granularity

  whole : concat (cs ++ c ∷ []) ≡ sizes
  whole = concat-snoc cs c ∙ sym e.parts

  regular : length (concat cs) ≡ n * g
  regular = length-concat_run w g p cs bs e.run ∙ ap (λ (k : ℕ). k * g) e.count

  total : length sizes ≡ length (concat cs) + length c
  total = ap length e.parts ∙ length-append (concat cs) c

  blocks_count : length (bs ++ block ∷ []) ≡ n + 1
  blocks_count = length-append bs (block ∷ []) ∙ omega (arith, e.count)

  few : n + 1 < 2 ^ 32
  few = grind (arith, within.1, e.tail_some, regular, total)

  tail_count : block_record_count layout (length sizes) (layout.num_address_blocks - 1) ≡ length c
  unfolding block_record_count
  tail_count =
      let before : (layout.num_address_blocks - 1) * g ≡ n * g =
        ap (λ (k : ℕ). (k - 1) * g) hn
        ∙ ap (λ (k : ℕ). k * g) {x = n + 1 - 1} {y = n} (omega arith) in
      ground (arith, regular, total, before, few, e.tail_some)

  fits : Fits w (concat cs) × Fits w c
  fits = Fits-append w (concat cs) c (subst (Fits w) (concat-snoc cs c) within.3)

  fitting :
      Fitting layout.page_size p (concat cs) × Fitting layout.page_size (p + sum (concat cs)) c
  fitting =
      Fitting-append layout.page_size p (concat cs) c
        (subst (Fitting layout.page_size p) (concat-snoc cs c) within.4)

  tail_fits : length c * w < 2 ^ 32
  tail_fits = grind (arith, within.2.0, e.tail_short)

  decode_regular :
      decode_batches isa n layout (length sizes) bs 0 []
      ≡ some (length (concat cs), entries_at layout.page_size p (concat cs))
  decode_regular =
      let start : 0 + length (concat cs) ≡ length (concat cs) = omega arith in
      decode_batches_lem n isa layout (length sizes) p 0 cs bs [] e.run
        (within.0, within.1, within.2, fits.0, fitting.0) (omega (arith, e.count)) refl
        (omega (arith, total)) hs
      ∙ rw start

  decode_last :
      decode_tail isa layout
        (bs ++ block ∷ [])
        (length c)
        (length sizes)
        (length (concat cs))
        (entries_at layout.page_size p (concat cs))
      ≡ some (length sizes, entries_at layout.page_size p sizes)
  unfolding decode_tail
  decode_last =
      let ps = layout.page_size in
      let last : length (bs ++ block ∷ []) - 1 ≡ n = omega (arith, blocks_count) in
      let joined : entries_at ps p (concat cs) ++ entries_at ps (p + sum (concat cs)) c
          ≡ entries_at ps p sizes =
        sym (entries_at-append ps p (concat cs) c) ∙ ap (entries_at ps p) (sym e.parts) in
      let inside =
        le→leb (length (entries_at ps p sizes)) (length sizes)
          (omega (arith, length-entries_at ps p sizes)) in
      let next : u32 (length (concat cs) + length c) ≡ length sizes =
        mod-eq_of_lt {n = length (concat cs) + length c} (omega (arith, total)) ∙ sym total in
      rw (
        last,
        get_elem?-last bs block n e.count,
        decode_single_block_lem isa layout (p + sum (concat cs)) c block e.tail within.0 fits.1
            tail_fits (omega (arith, e.tail_short, within.1, within.2.1)) fitting.1,
        joined,
        inside,
        next,
      )

  decode_full :
      length c ≡ g
      → decode_batches isa layout.num_address_blocks layout (length sizes) (bs ++ block ∷ []) 0 []
        ≡ some (length sizes, entries_at layout.page_size p sizes)
  decode_full full =
      let start : 0 + length sizes ≡ length sizes = omega arith in
      let all : length (concat (cs ++ c ∷ [])) ≡ length sizes = ap length whole in
      decode_batches_lem layout.num_address_blocks isa layout (length sizes) p 0 (cs ++ c ∷ [])
        (bs ++ block ∷ []) [] (IsRun-snoc w g p cs c bs block e.run e.tail full) within
        (omega (arith, blocks_count)) refl (omega arith) hs
      ∙ rw (whole, start)

  decode_blocks_lem :
      decode_blocks isa layout (bs ++ block ∷ []) (length sizes)
      ≡ some (value (entries_at layout.page_size p sizes))
  unfolding decode_blocks
  decode_blocks_lem =
      let separate =
        ltb (length c) g || not (layout.last_packed_size == layout.fixed_packed_size) in
      let before : layout.num_address_blocks - 1 ≡ n = omega arith in
      let same = (==_iff (length sizes) (length sizes)).1 refl in
      rw tail_count (elim (Bool-cases separate) [
        | inl tail ↦
            rw (tail, before, take_front bs block n e.count, decode_regular, decode_last, same)
        | inr full ↦
            let filled : length c ≡ g = ground (arith, e.tail_short) in
            rw (
              full,
              take_whole (bs ++ block ∷ []) layout.num_address_blocks (blocks_count ∙ sym hn),
              decode_full filled,
              same,
            )
      ])

  pub decode_batch_blocks_lem :
      decode_batch_blocks isa layout (bs ++ block ∷ []) (length sizes)
      ≡ some (value (entries_at layout.page_size p sizes))
  unfolding decode_batch_blocks
  decode_batch_blocks_lem =
      let counted : (length (bs ++ block ∷ []) == layout.num_address_blocks) ≡ true =
        (==_iff (length (bs ++ block ∷ [])) layout.num_address_blocks).1 (blocks_count ∙ sym hn) in
      let some_blocks : (layout.num_address_blocks == 0) ≡ false = ground arith in
      let some_records : (g == 0) ≡ false = ground (arith, within.1) in
      rw (counted, some_blocks, some_records) decode_blocks_lem
