-- ===== src/Query/RerankConsumer/Rerank.antt =====
-- RerankConsumer::ExecuteBuffered.
use mathlib.Core.List.{Permᴰ}
use vec_fetch.Prelude.{
  ℕ, zero, suc, ◌+◌, ◌-◌, ◌≤◌, Bool, not, ltb, List, [], ◌∷◌, Option, none, some, if◌then◌else◌,
  ◌>>=◌, length, get_elem?, take, drop, min, All, u32,
}
use vec_fetch.Query.ResultCollector.{PriorityQueue, ResultCollector, try_insert}
use vec_fetch.Query.RerankConsumer.{
  BufferedCandidate, VectorChunk, RerankStats, RerankConsumer, read_at, reset_vector_chunks,
  l2_sqr_batch,
}

abbrev pub kbatch_size : ℕ
kbatch_size = 32

-- No candidate has a smaller offset than one before it.
abbrev pub InOrder : List BufferedCandidate → Type 0
InOrder [] = Unit
InOrder (c ∷ cs) = All (λ d. c.addr.offset ≤ d.addr.offset) cs × InOrder cs

-- std::sort by offset. The order of candidates with the same offset is open.
pub record Sorter : Type 0 where
  pub sort : List BufferedCandidate → List BufferedCandidate
  pub sort-Permᴰ : (cs : List BufferedCandidate) → Permᴰ (sort cs) cs
  pub sort-InOrder : (cs : List BufferedCandidate) → InOrder (sort cs)

-- The memory that `vec` points at.
unfoldable pub load : List VectorChunk → ℕ → BufferedCandidate → Option (List ℕ)
load chunks vec_bytes c = do
  chunk ← get_elem? chunks c.chunk
  read_at chunk.storage c.offset vec_bytes

unfoldable pub load_all : List VectorChunk → ℕ → List BufferedCandidate → Option (List (List ℕ))
load_all chunks vec_bytes [] = some []
load_all chunks vec_bytes (c ∷ cs) = do
  vec ← load chunks vec_bytes c
  vecs ← load_all chunks vec_bytes cs
  some (vec ∷ vecs)

unfoldable pub count_reranked : RerankStats → RerankStats
count_reranked stats = record stats {
  total_reranked = u32 (stats.total_reranked + 1);
  reranked_candidates = u32 (stats.reranked_candidates + 1);
}

module _ (pq : PriorityQueue) (l2_sqr : List ℕ → List ℕ → ℕ → ℕ) (query : List ℕ) where
  -- The inserts of a batch.
  unfoldable pub insert_batch :
      List ℕ
      → List BufferedCandidate
      → ResultCollector pq × RerankStats
      → Option (ResultCollector pq × RerankStats)
  insert_batch [] [] s = some s
  insert_batch (dist ∷ dists) (c ∷ cs) (collector, stats) = do
    (collector', _) ← try_insert pq collector dist c.addr
    insert_batch dists cs (collector', count_reranked stats)
  insert_batch dists cs s = none

  -- The loop over the batches of the first `count` candidates, from `base` on; `base` is a uint32_t. A
  -- round goes 32 candidates on: as many rounds as candidates are enough, unless `base` wraps.
  unfoldable pub rank_batches :
      ℕ
      → List VectorChunk
      → ℕ
      → ℕ
      → List BufferedCandidate
      → ℕ
      → ℕ
      → ResultCollector pq × RerankStats
      → Option (ResultCollector pq × RerankStats)
  rank_batches zero chunks vec_bytes dim cs base count s = if ltb base count then none else some s
  rank_batches (suc fuel) chunks vec_bytes dim cs base count s =
      if not (ltb base count) then some s else do
        let batch = take (min kbatch_size (count - base)) (drop base cs)
        vecs ← load_all chunks vec_bytes batch
        s' ← insert_batch (l2_sqr_batch l2_sqr query vecs dim) batch s
        rank_batches fuel chunks vec_bytes dim cs (u32 (base + kbatch_size)) count s'

  -- The loop over the candidates, one by one.
  unfoldable pub rank_each :
      List VectorChunk
      → ℕ
      → ℕ
      → List BufferedCandidate
      → ResultCollector pq × RerankStats
      → Option (ResultCollector pq × RerankStats)
  rank_each chunks vec_bytes dim [] s = some s
  rank_each chunks vec_bytes dim (c ∷ cs) (collector, stats) = do
    vec ← load chunks vec_bytes c
    (collector', _) ← try_insert pq collector (l2_sqr query vec dim) c.addr
    rank_each chunks vec_bytes dim cs (collector', count_reranked stats)

  -- `batched` is enable_rerank_batched_distance_simd.
  unfoldable pub execute_buffered :
      Sorter
      → Bool
      → RerankConsumer
      → ResultCollector pq
      → Option (RerankConsumer × ResultCollector pq)
  execute_buffered sorter batched s collector = do
    let cs = sorter.sort s.buffered_candidates
    let start : ResultCollector pq × RerankStats = (collector, s.stats)
    (collector', stats) ←
        (if batched
          then rank_batches (length cs) s.vector_chunks s.vec_bytes s.dim cs 0 (u32 (length cs))
              start
          else rank_each s.vector_chunks s.vec_bytes s.dim cs start)
    some (
      record s {
        buffered_candidates = [];
        vector_chunks = reset_vector_chunks s.vector_chunks;
        stats = stats;
      },
      collector',
    )
