-- ===== src/Tests/InsertionSort.antt =====
-- A sort of the candidates.
use mathlib.Core.List.{Permᴰ}
use mathlib.Core.List.Permᴰ
use vec_fetch.Prelude.{
  ℕ, ◌≤◌, refl, arith, Bool-cases, inl, inr, List, [], ◌∷◌, leb, leb→le, if◌then◌else◌, All,
}
use vec_fetch.Query.RerankConsumer.{BufferedCandidate}
use vec_fetch.Query.RerankConsumer.Rerank.{InOrder, Sorter}

abbrev insert : BufferedCandidate → List BufferedCandidate → List BufferedCandidate
insert c [] = c ∷ []
insert c (d ∷ ds) =
    let rest = insert c ds in if leb c.addr.offset d.addr.offset then c ∷ d ∷ ds else d ∷ rest

abbrev insertion_sort : List BufferedCandidate → List BufferedCandidate
insertion_sort [] = []
insertion_sort (c ∷ cs) = insert c (insertion_sort cs)

insert-Permᴰ : (c : BufferedCandidate) (ds : List BufferedCandidate) → Permᴰ (insert c ds) (c ∷ ds)
insert-Permᴰ c [] = Permᴰ.refl (c ∷ [])
insert-Permᴰ c (d ∷ ds) = elim (Bool-cases (leb c.addr.offset d.addr.offset)) [
  | inl before ↦ rw before (Permᴰ.refl (c ∷ d ∷ ds))
  | inr behind ↦
      rw behind (Permᴰ.trans (Permᴰ.cons refl (insert-Permᴰ c ds)) (Permᴰ.swap refl refl))
]

pub insertion_sort-Permᴰ : (cs : List BufferedCandidate) → Permᴰ (insertion_sort cs) cs
insertion_sort-Permᴰ [] = Permᴰ.nil
insertion_sort-Permᴰ (c ∷ cs) =
    Permᴰ.trans (insert-Permᴰ c (insertion_sort cs)) (Permᴰ.cons refl (insertion_sort-Permᴰ cs))

All-After-insert :
    (n : ℕ) (c : BufferedCandidate) (ds : List BufferedCandidate)
    → n ≤ c.addr.offset
    → All (λ d. n ≤ d.addr.offset) ds
    → All (λ d. n ≤ d.addr.offset) (insert c ds)
All-After-insert n c [] hc h = (hc, tt)
All-After-insert n c (d ∷ ds) hc (h, hs) = elim (Bool-cases (leb c.addr.offset d.addr.offset)) [
  | inl before ↦ rw before (hc, (h, hs))
  | inr behind ↦ rw behind (h, All-After-insert n c ds hc hs)
]

All-After-weaken :
    (m n : ℕ) (ds : List BufferedCandidate)
    → m ≤ n
    → All (λ d. n ≤ d.addr.offset) ds
    → All (λ d. m ≤ d.addr.offset) ds
All-After-weaken m n [] h a = tt
All-After-weaken m n (d ∷ ds) h (a, rest) = (omega arith, All-After-weaken m n ds h rest)

insert-InOrder :
    (c : BufferedCandidate) (ds : List BufferedCandidate) → InOrder ds → InOrder (insert c ds)
insert-InOrder c [] h = (tt, tt)
insert-InOrder c (d ∷ ds) (h, hs) = elim (Bool-cases (leb c.addr.offset d.addr.offset)) [
  | inl before ↦
      let first : c.addr.offset ≤ d.addr.offset = leb→le c.addr.offset d.addr.offset before in
      rw before ((first, All-After-weaken c.addr.offset d.addr.offset ds first h), (h, hs))
  | inr behind ↦
      rw behind (All-After-insert d.addr.offset c ds (ground arith) h, insert-InOrder c ds hs)
]

pub insertion_sort-InOrder : (cs : List BufferedCandidate) → InOrder (insertion_sort cs)
insertion_sort-InOrder [] = tt
insertion_sort-InOrder (c ∷ cs) = insert-InOrder c (insertion_sort cs) (insertion_sort-InOrder cs)

abbrev pub sorter : Sorter
sorter = record {
  sort = insertion_sort;
  sort-Permᴰ = insertion_sort-Permᴰ;
  sort-InOrder = insertion_sort-InOrder;
}
