-- ===== src/Storage/AddressColumn/DecodeBatches.antt =====
-- Decoding any number of batches.
use mathlib.Core.List.{append_assoc, append-nil}
use mathlib.Core.Path.{subst}
use native.Mathlib.Nat.{mod-eq_of_lt}
use vec_fetch.Prelude.{
  ℕ, zero, suc, ◌+◌, ◌*◌, ◌^◌, ◌≤◌, ◌<◌, ◌≡◌, refl, sym, ap, ◌∙◌, arith, List, [], ◌∷◌, ◌++◌, some,
  length, take, drop, u32, le→leb, length-append, length-take, length-drop,
}
use vec_fetch.Types.{AddressEntry}
use vec_fetch.Simd.Isa.{Isa}
use vec_fetch.Codec.Bitpack.Width.{Fits}
use vec_fetch.Storage.AddressColumn.{AddressBlock, AddressColumnLayout}
use vec_fetch.Storage.AddressColumn.Decoder.{decode_batches}
use vec_fetch.Storage.AddressColumn.Blocks.{
  sum, sum-append, entries_at, entries_at-append, length-entries_at, Fitting, Fitting-append,
  Fits-append, concat, IsRun,
}
use vec_fetch.Storage.AddressColumn.DecodeBlock.{Within}
use vec_fetch.Storage.AddressColumn.DecodeStreams.{decode_multi_stream_lem}

concat-take-drop :
    (n : ℕ) (cs : List (List ℕ)) → concat cs ≡ concat (take n cs) ++ concat (drop n cs)
unfolding concat
concat-take-drop zero cs = refl
concat-take-drop (suc n) [] = refl
concat-take-drop (suc n) (c ∷ cs) =
    ap (λ (l : List ℕ). c ++ l) (concat-take-drop n cs)
    ∙ sym (append_assoc c (concat (take n cs)) (concat (drop n cs)))

IsRun-split :
    (n w g p : ℕ) (cs : List (List ℕ)) (bs : List AddressBlock)
    → IsRun w g p cs bs
    → IsRun w g p (take n cs) (take n bs)
      × IsRun w g (p + sum (concat (take n cs))) (drop n cs) (drop n bs)
unfolding IsRun concat
IsRun-split zero w g p cs bs r = let e : p + sum [] ≡ p = unfold sum in omega arith in (tt, rw e r)
IsRun-split (suc n) w g p [] [] r = (tt, tt)
IsRun-split (suc n) w g p [] (b ∷ bs) r = absurd r
IsRun-split (suc n) w g p (c ∷ cs) [] r = absurd r
IsRun-split (suc n) w g p (c ∷ cs) (b ∷ bs) (block, full, r) =
    let (front, back) = IsRun-split n w g (p + sum c) cs bs r in
    let e : p + sum (c ++ concat (take n cs)) ≡ p + sum c + sum (concat (take n cs)) =
      omega (arith, sum-append c (concat (take n cs))) in
    ((block, full, front), rw e back)

Within-split :
    (n w g ps p : ℕ) (cs : List (List ℕ))
    → Within w g ps p cs
    → Within w g ps p (take n cs) × Within w g ps (p + sum (concat (take n cs))) (drop n cs)
Within-split n w g ps p cs (hw, hg, hl, hf, f) =
    let parts = concat-take-drop n cs in
    let (f₁, f₂) =
      Fits-append w (concat (take n cs)) (concat (drop n cs)) (subst (Fits w) parts hf) in
    let (t₁, t₂) =
      Fitting-append ps p (concat (take n cs)) (concat (drop n cs))
        (subst (Fitting ps p) parts f) in
    ((hw, hg, hl, f₁, t₁), (hw, hg, hl, f₂, t₂))

pub length-concat_run :
    (w g p : ℕ) (cs : List (List ℕ)) (bs : List AddressBlock)
    → IsRun w g p cs bs
    → length (concat cs) ≡ length bs * g
unfolding IsRun concat
length-concat_run w g p [] [] r = omega arith
length-concat_run w g p [] (b ∷ bs) r = absurd r
length-concat_run w g p (c ∷ cs) [] r = absurd r
length-concat_run w g p (c ∷ cs) (b ∷ bs) (block, full, r) =
    omega (arith, length-append c (concat cs), length-concat_run w g (p + sum c) cs bs r)

pub decode_batches_lem :
    (fuel : ℕ) (isa : Isa) (layout : AddressColumnLayout) (total p off : ℕ) (cs : List (List ℕ))
    (bs : List AddressBlock) (out : List AddressEntry)
    → IsRun layout.bit_width layout.block_granularity p cs bs
    → Within layout.bit_width layout.block_granularity layout.page_size p cs
    → length bs ≤ fuel
    → off ≡ length out
    → length out + length (concat cs) ≤ total
    → total < 2 ^ 32
    → decode_batches isa fuel layout total bs off out
      ≡ some (length out + length (concat cs), out ++ entries_at layout.page_size p (concat cs))
unfolding decode_batches
decode_batches_lem fuel isa layout total p off [] [] out r h hf ho ht hb =
    unfold concat entries_at in
    let e : length out + 0 ≡ length out = omega arith in rw (e, ho, append-nil out)
decode_batches_lem fuel isa layout total p off (c ∷ cs) [] out r h hf ho ht hb =
    absurd (unfold IsRun in r)
decode_batches_lem zero isa layout total p off cs (b ∷ bs) out r h hf ho ht hb =
    absurd (omega arith)
decode_batches_lem (suc fuel) isa layout total p off cs (b ∷ bs) out r h hf ho ht hb =
    let w = layout.bit_width in
    let g = layout.block_granularity in
    let ps = layout.page_size in
    let front = concat (take 8 cs) in
    let back = concat (drop 8 cs) in
    let parts = concat-take-drop 8 cs in
    let sizes : length (concat cs) ≡ length front + length back =
      ap length parts ∙ length-append front back in
    let (r₁, r₂) = IsRun-split 8 w g p cs (b ∷ bs) r in
    let (h₁, h₂) = Within-split 8 w g ps p cs h in
    let first =
      decode_multi_stream_lem isa layout p (take 8 cs) (take 8 (b ∷ bs)) r₁ h₁
        (omega (arith, length-take 8 (b ∷ bs))) in
    let batch = length-concat_run w g p (take 8 cs) (take 8 (b ∷ bs)) r₁ in
    let written : length (out ++ entries_at ps p front) ≡ length out + length front =
      length-append out (entries_at ps p front) ∙ omega (arith, length-entries_at ps p front) in
    let next : u32 (off + length (take 8 (b ∷ bs)) * g) ≡ length out + length front =
      mod-eq_of_lt {n = off + length (take 8 (b ∷ bs)) * g} (omega arith) ∙ omega arith in
    let rest =
      decode_batches_lem fuel isa layout total (p + sum front) (length out + length front)
        (drop 8 cs) (drop 8 (b ∷ bs)) (out ++ entries_at ps p front) r₂ h₂
        (omega (arith, length-drop 8 (b ∷ bs))) (sym written) (omega arith) hb in
    let total_length : length (out ++ entries_at ps p front) + length back
        ≡ length out + length (concat cs) =
      omega arith in
    let joined : (out ++ entries_at ps p front) ++ entries_at ps (p + sum front) back
        ≡ out ++ entries_at ps p (concat cs) =
      append_assoc out (entries_at ps p front) _
      ∙ ap (λ (l : List AddressEntry). out ++ l)
          (sym (entries_at-append ps p front back) ∙ ap (entries_at ps p) (sym parts)) in
    let inside = le→leb (length (out ++ entries_at ps p front)) total (omega arith) in
    rw (first, next, inside, rest, total_length, joined)
