-- ===== src/Storage/AddressColumn/EncodeBlocks.antt =====
-- Encoding consecutive records gives blocks that hold their page counts.
use mathlib.Core.List.{append_assoc}
use mathlib.Core.Path.{subst}
use native.Mathlib.Nat.{mod-eq_of_lt}
use vec_fetch.Prelude.{
  drop-drop, ℕ, zero, suc, ◌+◌, ◌-◌, ◌*◌, ◌^◌, ◌≤◌, ◌<◌, ◌≡◌, refl, sym, ap, ◌∙◌, arith, List, [],
  ◌∷◌, ◌++◌, some, false, length, take, drop, u32, ◌==◌, ==_iff, min, length-take, length-drop,
  take-append-drop,
}
use vec_fetch.Types.{AddressEntry}
use vec_fetch.Codec.Bitpack.Width.{Fits}
use vec_fetch.Storage.AddressColumn.{AddressBlock, AddressColumnLayout}
use vec_fetch.Storage.AddressColumn.Encoder.{encode_blocks}
use vec_fetch.Storage.AddressColumn.Blocks.{
  sum, sum-append, entries_at, length-entries_at, Fitting, Fitting-append, Fits-append, IsBlock,
  concat, IsRun,
}
use vec_fetch.Storage.AddressColumn.EncodeBlock.{
  encode_nonempty, take-entries_at, drop-entries_at, take_all, shorter,
}

-- The blocks of the records: full ones, and a last one of at most `g` records.
pub record IsEncoded (w g n p : ℕ) (sizes : List ℕ) (cs : List (List ℕ)) (c : List ℕ)
    (bs : List AddressBlock) (block : AddressBlock) : Type 0 where
  pub parts : sizes ≡ concat cs ++ c
  pub run : IsRun w g p cs bs
  pub tail : IsBlock w (p + sum (concat cs)) c block
  pub count : length bs ≡ n
  pub tail_some : 0 < length c
  pub tail_short : length c ≤ g

abbrev pub Encodes : ℕ → ℕ → ℕ → List AddressEntry → AddressColumnLayout → ℕ → ℕ → List ℕ → Type 0
Encodes n b num es layout last p sizes =
    (cs : List (List ℕ)) × (c : List ℕ) × (bs : List AddressBlock) × (block : AddressBlock)
    × (encode_blocks (suc n) b num es layout last
        ≡ some (bs ++ block ∷ [], u32 (length block.packed)))
    × IsEncoded layout.bit_width layout.block_granularity n p sizes cs c bs block

Encodes-last :
    (b : ℕ) (es : List AddressEntry) (layout : AddressColumnLayout) (last p : ℕ) (sizes : List ℕ)
    → drop (b * layout.block_granularity) es ≡ entries_at layout.page_size p sizes
    → length es ≡ b * layout.block_granularity + length sizes
    → 0 < length sizes
    → length sizes ≤ layout.block_granularity
    → b * layout.block_granularity < 2 ^ 32
    → b + 1 < 2 ^ 32
    → layout.block_granularity * layout.bit_width < 2 ^ 32
    → Fits layout.bit_width sizes
    → Fitting layout.page_size p sizes
    → Encodes 0 b (b + 1) es layout last p sizes
unfolding encode_blocks concat IsRun
Encodes-last b es layout last p sizes he hl some_left short hb hn hw hf f =
    let g = layout.block_granularity in
    let ps = layout.page_size in
    let (block, run, is) =
      encode_nonempty ps layout.bit_width p 0 sizes some_left f hf
        (shorter (length sizes) g layout.bit_width short hw) in
    let start : u32 (b * g) ≡ b * g = mod-eq_of_lt {n = b * g} hb in
    let next : u32 (b + 1) ≡ b + 1 = mod-eq_of_lt {n = b + 1} hn in
    let is_last = (==_iff (b + 1) (b + 1)).1 refl in
    let count : min g (length es - b * g) ≡ length sizes = omega arith in
    let all : take (length sizes) (entries_at ps p sizes) ≡ entries_at ps p sizes =
      take_all (length sizes) (entries_at ps p sizes)
        (omega (arith, length-entries_at ps p sizes)) in
    let here : p + sum [] ≡ p = unfold sum in omega arith in
    (
      [],
      sizes,
      [],
      block,
      rw (start, next, is_last, count, he, all, run),
      record {
        parts = refl;
        run = tt;
        tail = rw here is;
        count = refl;
        tail_some = some_left;
        tail_short = short;
      },
    )

Encodes-more :
    (n b num : ℕ) (es : List AddressEntry) (layout : AddressColumnLayout) (last p : ℕ)
    (sizes : List ℕ)
    → drop (b * layout.block_granularity) es ≡ entries_at layout.page_size p sizes
    → length es ≡ b * layout.block_granularity + length sizes
    → layout.block_granularity < length sizes
    → 0 < layout.block_granularity
    → b * layout.block_granularity < 2 ^ 32
    → b + 1 < num
    → num < 2 ^ 32
    → layout.block_granularity * layout.bit_width < 2 ^ 32
    → Fits layout.bit_width (take layout.block_granularity sizes)
    → Fitting layout.page_size p (take layout.block_granularity sizes)
    → Encodes n
        (b + 1)
        num
        es
        layout
        last
        (p + sum (take layout.block_granularity sizes))
        (drop layout.block_granularity sizes)
    → Encodes (suc n) b num es layout last p sizes
Encodes-more n b num es layout last p sizes he hl more hg hb hn hnum hw hf f
      (cs, c, bs, block, runs, rest) =
    let g = layout.block_granularity in
    let ps = layout.page_size in
    let front = take g sizes in
    let full : length front ≡ g = omega (arith, length-take g sizes) in
    let (first, run, is) =
      encode_nonempty ps layout.bit_width p layout.fixed_packed_size front (omega arith) f hf
        (shorter (length front) g layout.bit_width (omega arith) hw) in
    let start : u32 (b * g) ≡ b * g = mod-eq_of_lt {n = b * g} hb in
    let next : u32 (b + 1) ≡ b + 1 = mod-eq_of_lt {n = b + 1} (omega arith) in
    let not_last : (b + 1 == num) ≡ false = ground arith in
    let count : min g (length es - b * g) ≡ g = omega arith in
    let pages : p + sum front + sum (concat cs) ≡ p + sum (front ++ concat cs) =
      omega (arith, sum-append front (concat cs)) in
    (
      front ∷ cs,
      c,
      first ∷ bs,
      block,
      unfold encode_blocks in
          rw (
            start,
            next,
            not_last,
            count,
            he,
            take-entries_at g ps p sizes,
            run,
            encode_blocks,
            runs,
          ),
      record {
        parts =
            unfold concat in
            sym (take-append-drop g sizes)
            ∙ ap (λ (l : List ℕ). front ++ l) rest.parts
            ∙ sym (append_assoc front (concat cs) c);
        run = unfold IsRun in (is, full, rest.run);
        tail = unfold concat in rw (← pages) rest.tail;
        count = ap suc rest.count;
        tail_some = rest.tail_some;
        tail_short = rest.tail_short;
      },
    )

pub encode_blocks_lem :
    (n b num : ℕ) (es : List AddressEntry) (layout : AddressColumnLayout) (last p : ℕ)
    (sizes : List ℕ)
    → drop (b * layout.block_granularity) es ≡ entries_at layout.page_size p sizes
    → length es ≡ b * layout.block_granularity + length sizes
    → length es < 2 ^ 32
    → n * layout.block_granularity < length sizes
    → length sizes ≤ n * layout.block_granularity + layout.block_granularity
    → 0 < layout.block_granularity
    → num ≡ b + n + 1
    → num < 2 ^ 32
    → layout.block_granularity * layout.bit_width < 2 ^ 32
    → Fits layout.bit_width sizes
    → Fitting layout.page_size p sizes
    → Encodes n b num es layout last p sizes
encode_blocks_lem zero b num es layout last p sizes he hl hb lo hi hg hn hnum hw hf f =
    let e : num ≡ b + 1 = omega arith in
    rw e (
      Encodes-last b es layout last p sizes he hl (omega arith) (omega arith) (omega arith)
        (omega arith) hw hf f)
encode_blocks_lem (suc n) b num es layout last p sizes he hl hb lo hi hg hn hnum hw hf f =
    let g = layout.block_granularity in
    let ps = layout.page_size in
    let parts = sym (take-append-drop g sizes) in
    let (hf₁, hf₂) =
      Fits-append layout.bit_width (take g sizes) (drop g sizes)
        (subst (Fits layout.bit_width) parts hf) in
    let (f₁, f₂) =
      Fitting-append ps p (take g sizes) (drop g sizes) (subst (Fitting ps p) parts f) in
    let place : b * g + g ≡ (b + 1) * g = omega arith in
    let rest : drop ((b + 1) * g) es ≡ entries_at ps (p + sum (take g sizes)) (drop g sizes) =
      rw (← place, ← drop-drop (b * g) g es, he) (drop-entries_at g ps p sizes) in
    let left = length-drop g sizes in
    Encodes-more n b num es layout last p sizes he hl (omega arith) hg (omega arith) (omega arith)
      hnum hw hf₁ f₁
      (encode_blocks_lem n (b + 1) num es layout last (p + sum (take g sizes)) (drop g sizes) rest
        (omega arith) hb (omega arith) (omega arith) hg (omega arith) hnum hw hf₂ f₂)
