-- ===== src/Query/RerankConsumer/Ranking.antt =====
-- The loops of ExecuteBuffered.
use mathlib.Core.List.{Permᴰ}
use mathlib.Core.Path.{subst}
use native.Mathlib.Nat.{mod-eq_of_lt}
use mathlib.Core.Option.{some-injective}
use vec_fetch.Prelude.{
  ℕ, zero, suc, ◌+◌, ◌-◌, ◌^◌, lt→ltb, le→ltb, dec_lt, u32, ◌≤◌, ◌≡◌, refl, sym, ap, ◌∙◌, arith,
  Bool, List, [], ◌∷◌, ◌++◌, Option, none, some, Option-cases, inl, inr, if◌then◌else◌, ◌>>=◌,
  >>=-eq-some, length, take, drop, take-append-drop, map, min, All,
}
use vec_fetch.Query.ResultCollector.{
  CollectorEntry, PriorityQueue, ResultCollector, try_insert, insert_all, tally,
}
use vec_fetch.Query.RerankConsumer.{BufferedCandidate, VectorChunk, RerankStats, l2_sqr_batch}
use vec_fetch.Query.RerankConsumer.Memory.{read_at_lem}
use vec_fetch.Query.RerankConsumer.Rerank.{
  kbatch_size, load, load_all, count_reranked, insert_batch, rank_batches, rank_each,
}
use vec_fetch.Query.RerankConsumer.Chunks.{Holds}
use vec_fetch.Query.RerankConsumer.Copies.{Vector, AreCopies}

-- The pointer of a candidate can be read.
abbrev pub Loads : List VectorChunk → ℕ → BufferedCandidate → Type 0
Loads chunks vec_bytes c = (vec : List ℕ) × (load chunks vec_bytes c ≡ some vec)

Loads-Holds :
    (chunks : List VectorChunk) (c : BufferedCandidate) (vec : List ℕ)
    → Holds chunks c.chunk c.offset vec
    → load chunks (length vec) c ≡ some vec
unfolding load
Loads-Holds chunks c vec h =
    rw (h.here, read_at_lem h.chunk.storage c.offset (length vec) h.within, h.there)

-- What is inserted for a vector.
abbrev pub ranked : (List ℕ → List ℕ → ℕ → ℕ) → List ℕ → ℕ → Vector → CollectorEntry
ranked l2_sqr query dim (vec, addr) = record { distance = l2_sqr query vec dim; addr = addr }

drop_all {ℓ} : {A : Type ℓ} (n : ℕ) (xs : List A) → length xs ≤ n → drop n xs ≡ []
drop_all zero [] h = refl
drop_all zero (x ∷ xs) h = absurd (omega arith)
drop_all (suc n) [] h = refl
drop_all (suc n) (x ∷ xs) h = drop_all n xs (omega arith)

-- A round that takes what is left, `k` entries at most, goes `k` entries on.
drop_round {ℓ} :
    {A : Type ℓ} (base k : ℕ) (xs : List A)
    → drop (min k (length xs - base)) (drop base xs) ≡ drop (base + k) xs
drop_round zero k xs = elim (dec_lt k (length xs)) [
  | yes more ↦
      let all : min k (length xs - 0) ≡ k = omega arith in
      let e : 0 + k ≡ k = omega arith in rw (all, e)
  | no less ↦
      let all : min k (length xs - 0) ≡ length xs = omega arith in
      let e : 0 + k ≡ k = omega arith in
      rw (all, e) (drop_all (length xs) xs (omega arith) ∙ sym (drop_all k xs (omega arith)))
]
drop_round (suc base) k [] =
    let e : suc base + k ≡ suc (base + k) = omega arith in
    let none_left : min k (0 - suc base) ≡ 0 = omega arith in rw (e, none_left)
drop_round (suc base) k (x ∷ xs) =
    let e : suc base + k ≡ suc (base + k) = omega arith in
    let less : suc (length xs) - suc base ≡ length xs - base = omega arith in
    rw (e, less) (drop_round base k xs)

module _ (pq : PriorityQueue) (l2_sqr : List ℕ → List ℕ → ℕ → ℕ) (query : List ℕ)
    (chunks : List VectorChunk) (vb dim : ℕ) where
  pub bytes_of : BufferedCandidate → List ℕ
  bytes_of c = elim (load chunks vb c) [ none ↦ [] | some vec ↦ vec ]

  abbrev pub entry_of : BufferedCandidate → CollectorEntry
  entry_of c = record { distance = l2_sqr query (bytes_of c) dim; addr = c.addr }

  bytes_of-Loads :
      (c : BufferedCandidate) → Loads chunks vb c → load chunks vb c ≡ some (bytes_of c)
  unfolding bytes_of
  bytes_of-Loads c (vec, h) = rw (bytes_of, h)

  abbrev each :
      List BufferedCandidate
      → ResultCollector pq × RerankStats
      → Option (ResultCollector pq × RerankStats)
  each = rank_each pq l2_sqr query chunks vb dim

  rank_each-append :
      (xs ys : List BufferedCandidate) (s : ResultCollector pq × RerankStats)
      → each (xs ++ ys) s ≡ (each xs s >>= each ys)
  unfolding rank_each
  rank_each-append [] ys s = refl
  rank_each-append (c ∷ xs) ys (collector, stats) = elim (Option-cases (load chunks vb c)) [
    | inl bad ↦ rw bad
    | inr (vec, h) ↦ elim (Option-cases (try_insert pq collector (l2_sqr query vec dim) c.addr)) [
      | inl bad ↦ rw (h, bad)
      | inr ((collector', entered), run) ↦
          rw (h, run) (rank_each-append xs ys (collector', count_reranked stats))
    ]
  ]

  -- A batch is its candidates one by one.
  batch_lem :
      (cs : List BufferedCandidate)
      → All (Loads chunks vb) cs
      → (vecs : List (List ℕ)) × (load_all chunks vb cs ≡ some vecs)
        × ((s : ResultCollector pq × RerankStats)
            → insert_batch pq l2_sqr query (l2_sqr_batch l2_sqr query vecs dim) cs s ≡ each cs s)
  unfolding load_all insert_batch l2_sqr_batch rank_each
  batch_lem [] h = ([], refl, λ s. refl)
  batch_lem (c ∷ cs) ((vec, h), hs) =
      let (vecs, runs, same) = batch_lem cs hs in
      (
        vec ∷ vecs,
        rw (h, runs),
        λ (collector, stats).
            elim (Option-cases (try_insert pq collector (l2_sqr query vec dim) c.addr)) [
              | inl bad ↦ rw (h, bad)
              | inr ((collector', entered), run) ↦
                  rw (h, run) (same (collector', count_reranked stats))
            ],
      )

  All-take :
      (n : ℕ) (cs : List BufferedCandidate)
      → All (Loads chunks vb) cs
      → All (Loads chunks vb) (take n cs)
  All-take zero cs h = tt
  All-take (suc n) [] h = tt
  All-take (suc n) (c ∷ cs) (h, hs) = (h, All-take n cs hs)

  All-drop :
      (n : ℕ) (cs : List BufferedCandidate)
      → All (Loads chunks vb) cs
      → All (Loads chunks vb) (drop n cs)
  All-drop zero cs h = h
  All-drop (suc n) [] h = tt
  All-drop (suc n) (c ∷ cs) (h, hs) = All-drop n cs hs

  -- The batches rank the candidates like the loop without batches.
  pub rank_batches_lem :
      (fuel base : ℕ) (cs : List BufferedCandidate) (s : ResultCollector pq × RerankStats)
      → length cs ≤ fuel + base
      → length cs + 32 ≤ 2 ^ 32
      → All (Loads chunks vb) cs
      → rank_batches pq l2_sqr query fuel chunks vb dim cs base (length cs) s
        ≡ each (drop base cs) s
  unfolding rank_batches
  rank_batches_lem zero base cs s h small loads =
      rw (le→ltb base (length cs) (omega arith), drop_all base cs (omega arith))
        (unfold rank_each in refl)
  rank_batches_lem (suc fuel) base cs s h small loads = elim (dec_lt base (length cs)) [
    | no done ↦
        rw (le→ltb base (length cs) (omega arith), drop_all base cs (omega arith))
          (unfold rank_each in refl)
    | yes more ↦
        let rest = drop base cs in
        let n = min kbatch_size (length cs - base) in
        let batch = take n rest in
        let (vecs, runs, same) = batch_lem batch (All-take n rest (All-drop base cs loads)) in
        let later : drop n rest ≡ drop (base + 32) cs = drop_round base 32 cs in
        let split : each rest s ≡ (each batch s >>= each (drop (base + 32) cs)) =
          ap (λ (l : List BufferedCandidate). each l s) (sym (take-append-drop n rest))
          ∙ rank_each-append batch (drop n rest) s
          ∙ ap (λ (l : List BufferedCandidate). each batch s >>= each l) later in
        let next : u32 (base + 32) ≡ base + 32 = mod-eq_of_lt {n = base + 32} (omega arith) in
        elim (Option-cases (each batch s)) [
          | inl bad ↦ rw (lt→ltb base (length cs) more, split, runs, same s, bad)
          | inr (s', run) ↦
              rw (lt→ltb base (length cs) more, split, runs, same s, run, next)
                (rank_batches_lem fuel (base + 32) cs s' (omega arith) small loads)
        ]
  ]

  -- The inserts of the loop.
  pub rank_each_lem :
      (cs : List BufferedCandidate) (collector collector' : ResultCollector pq)
      (stats : RerankStats)
      → All (Loads chunks vb) cs
      → insert_all pq collector (map entry_of cs) ≡ some collector'
      → (stats' : RerankStats) × (each cs (collector, stats) ≡ some (collector', stats'))
  unfolding rank_each insert_all
  rank_each_lem [] collector collector' stats h run = (
    stats,
    ap (λ (x : ResultCollector pq). some (x, stats)) (some-injective collector collector' run),
  )
  rank_each_lem (c ∷ cs) collector collector' stats (h, hs) run =
      let ((next, entered), insert, runs) =
        >>=-eq-some (try_insert pq collector (l2_sqr query (bytes_of c) dim) c.addr) _ run in
      let (stats', done) = rank_each_lem cs next collector' (count_reranked stats) hs runs in
      (stats', rw (bytes_of-Loads c h, insert) done)

  abbrev one : (CollectorEntry → Bool) → BufferedCandidate → ℕ
  one p c = if p (entry_of c) then 1 else 0

  pub tally-Permᴰ :
      (p : CollectorEntry → Bool) (cs ds : List BufferedCandidate)
      → Permᴰ cs ds
      → tally p (map entry_of cs) ≡ tally p (map entry_of ds)
  unfolding tally
  tally-Permᴰ p _ _ Permᴰ.nil = refl
  tally-Permᴰ p _ _ (Permᴰ.cons e perm) = omega (arith, ap (one p) e, tally-Permᴰ p _ _ perm)
  tally-Permᴰ p _ _ (Permᴰ.swap e f) = omega (arith, ap (one p) e, ap (one p) f)
  tally-Permᴰ p _ _ (Permᴰ.trans perm perm') = tally-Permᴰ p _ _ perm ∙ tally-Permᴰ p _ _ perm'

  pub All-Permᴰ :
      (P : BufferedCandidate → Type 0) (cs ds : List BufferedCandidate)
      → Permᴰ cs ds
      → All P ds
      → All P cs
  All-Permᴰ P _ _ Permᴰ.nil h = tt
  All-Permᴰ P _ _ (Permᴰ.cons e perm) (h, hs) = (subst P (sym e) h, All-Permᴰ P _ _ perm hs)
  All-Permᴰ P _ _ (Permᴰ.swap e f) (h, (k, hs)) = (subst P (sym e) k, (subst P (sym f) h, hs))
  All-Permᴰ P _ _ (Permᴰ.trans perm perm') h = All-Permᴰ P _ _ perm (All-Permᴰ P _ _ perm' h)

  pub Loads-AreCopies :
      (cs : List BufferedCandidate) (vectors : List Vector)
      → AreCopies vb chunks cs vectors
      → All (Loads chunks vb) cs × (map entry_of cs ≡ map (ranked l2_sqr query dim) vectors)
  unfolding bytes_of
  Loads-AreCopies [] [] h = (tt, refl)
  Loads-AreCopies [] (v ∷ vectors) h = absurd h
  Loads-AreCopies (c ∷ cs) [] h = absurd h
  Loads-AreCopies (c ∷ cs) ((vec, addr) ∷ vectors) ((same, long, holds), hs) =
      let (loads, entries) = Loads-AreCopies cs vectors hs in
      let run : load chunks vb c ≡ some vec =
        subst (λ (n : ℕ). load chunks n c ≡ some vec) long (Loads-Holds chunks c vec holds) in
      (((vec, run), loads), rw (bytes_of, run, same, entries))
