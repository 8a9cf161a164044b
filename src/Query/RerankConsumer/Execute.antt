-- ===== src/Query/RerankConsumer/Execute.antt =====
-- ExecuteBuffered ranks the vectors that were consumed.
use mathlib.Core.Path.{subst}
use mathlib.Core.List.{Permᴰ}
use native.Mathlib.Nat.{mod-eq_of_lt}
use vec_fetch.Prelude.{
  ℕ, suc, ◌+◌, ◌^◌, u32, refl, ◌*◌, ◌≤◌, ◌<◌, ◌≡◌, ap, ◌∙◌, arith, Bool, true, List, [], ◌∷◌,
  Option, some, Bool-cases, inl, inr, length, map, All,
}
use vec_fetch.Query.ResultCollector.{
  CollectorEntry, PriorityQueue, ResultCollector, make_collector, tally,
}
use vec_fetch.Query.ResultCollector.Tally.{below, tally-all}
use vec_fetch.Query.ResultCollector.Insert.{IsNearest, insert_all-IsNearest}
use vec_fetch.Query.RerankConsumer.{
  BufferedCandidate, VectorChunk, RerankStats, RerankConsumer, make_consumer, reset_vector_chunks,
}
use vec_fetch.Query.RerankConsumer.Rerank.{Sorter, execute_buffered}
use vec_fetch.Query.RerankConsumer.Chunks.{size_limit, Allocates, IsChunk}
use vec_fetch.Query.RerankConsumer.Copies.{
  Vector, Consumed, Completion, IsRead, consume_vecs, vectors_of, consume_vecs_lem, AreCopies,
  make_consumer-Consumed,
}
use vec_fetch.Query.RerankConsumer.Ranking.{
  Loads, ranked, entry_of, rank_each_lem, rank_batches_lem, tally-Permᴰ, All-Permᴰ, Loads-AreCopies,
}

-- The order of the entries does not matter.
IsNearest-tally :
    (k : ℕ) (es es' held : List CollectorEntry)
    → ((p : CollectorEntry → Bool) → tally p es ≡ tally p es')
    → IsNearest k es held
    → IsNearest k es' held
IsNearest-tally k es es' held same n = record {
  size = omega (arith, n.size, same (λ _. true), tally-all es, tally-all es');
  nearest = λ t. omega (arith, n.nearest t, same (below t));
  among = λ p. omega (arith, n.among p, same p);
}

IsChunk-reset :
    (aligned : ℕ) (chunks : List VectorChunk)
    → All (IsChunk aligned) chunks
    → All (IsChunk aligned) (reset_vector_chunks chunks)
unfolding reset_vector_chunks
IsChunk-reset aligned [] h = tt
IsChunk-reset aligned (c ∷ chunks) (h, hs) = (
  record { whole = h.whole; used_within = omega arith; no_wrap = h.no_wrap },
  IsChunk-reset aligned chunks hs,
)

length-Permᴰ : (cs ds : List BufferedCandidate) → Permᴰ cs ds → length cs ≡ length ds
length-Permᴰ _ _ Permᴰ.nil = refl
length-Permᴰ _ _ (Permᴰ.cons e perm) = ap suc (length-Permᴰ _ _ perm)
length-Permᴰ _ _ (Permᴰ.swap e f) = refl
length-Permᴰ _ _ (Permᴰ.trans perm perm') = length-Permᴰ _ _ perm ∙ length-Permᴰ _ _ perm'

length-AreCopies :
    (vec_bytes : ℕ) (chunks : List VectorChunk) (cs : List BufferedCandidate)
    (vectors : List Vector)
    → AreCopies vec_bytes chunks cs vectors
    → length cs ≡ length vectors
length-AreCopies vb chunks [] [] h = refl
length-AreCopies vb chunks [] (v ∷ vectors) h = absurd h
length-AreCopies vb chunks (c ∷ cs) [] h = absurd h
length-AreCopies vb chunks (c ∷ cs) (v ∷ vectors) (here, h) =
    ap suc (length-AreCopies vb chunks cs vectors h)

length-vectors_of :
    (dim : ℕ) (reads : List Completion) → length (vectors_of dim reads) ≡ length reads
unfolding vectors_of
length-vectors_of dim [] = refl
length-vectors_of dim ((alloc, buf, addr) ∷ reads) = ap suc (length-vectors_of dim reads)

module _ (pq : PriorityQueue) (l2_sqr : List ℕ → List ℕ → ℕ → ℕ) (query : List ℕ) where
  -- A consumer that holds copies of the vectors ranks them, and is ready for others.
  execute_buffered-Consumed :
      (sorter : Sorter) (batched : Bool) (top_k dim : ℕ) (s : RerankConsumer)
      (vectors : List Vector)
      → 0 < top_k
      → length vectors + 32 ≤ 2 ^ 32
      → Consumed dim s vectors
      → (s' : RerankConsumer) × (collector : ResultCollector pq) × (execute_buffered pq l2_sqr query
            sorter batched s
            (make_collector pq top_k)
          ≡ some (s', collector))
        × IsNearest top_k (map (ranked l2_sqr query dim) vectors) (pq.entries collector.heap)
        × Consumed dim s' []
  unfolding execute_buffered
  execute_buffered-Consumed sorter batched top_k dim s vectors hk few done =
      let chunks = s.vector_chunks in
      let cs = s.buffered_candidates in
      let sorted = sorter.sort cs in
      let counted : length sorted ≡ length vectors =
        length-Permᴰ sorted cs (sorter.sort-Permᴰ cs)
        ∙ length-AreCopies s.vec_bytes chunks cs vectors done.copies in
      let entries = map (entry_of pq l2_sqr query chunks s.vec_bytes s.dim) sorted in
      let (loads, same) =
        Loads-AreCopies pq l2_sqr query chunks s.vec_bytes s.dim cs vectors done.copies in
      let all =
        All-Permᴰ pq l2_sqr query chunks s.vec_bytes s.dim (Loads chunks s.vec_bytes) sorted cs
          (sorter.sort-Permᴰ cs) loads in
      let (collector, inserts, nearest) = insert_all-IsNearest pq top_k entries hk in
      let (stats', ran) =
        rank_each_lem pq l2_sqr query chunks s.vec_bytes s.dim sorted (make_collector pq top_k)
          collector s.stats all inserts in
      let batches =
        rank_batches_lem pq l2_sqr query chunks s.vec_bytes s.dim (length sorted) 0 sorted
          (make_collector pq top_k, s.stats) (omega arith) (omega arith) all in
      let whole : u32 (length sorted) ≡ length sorted =
        mod-eq_of_lt {n = length sorted} (omega arith) in
      let tallies = λ (p : CollectorEntry → Bool).
        tally-Permᴰ pq l2_sqr query chunks s.vec_bytes s.dim p sorted cs (sorter.sort-Permᴰ cs)
        ∙ ap (tally p) same in
      (
        record s {
          buffered_candidates = [];
          vector_chunks = reset_vector_chunks chunks;
          stats = stats';
        },
        collector,
        elim (Bool-cases batched) [
          | inl on ↦ rw (on, whole, batches, ran)
          | inr off ↦ rw (off, ran)
        ],
        subst
            (λ (d : ℕ).
              IsNearest top_k (map (ranked l2_sqr query d) vectors) (pq.entries collector.heap))
            done.same_dim
            (IsNearest-tally top_k entries (map (ranked l2_sqr query s.dim) vectors)
              (pq.entries collector.heap) tallies nearest),
        record {
          arena = record {
            chunks = IsChunk-reset s.aligned_vec_bytes chunks done.arena.chunks;
            fits = done.arena.fits;
            small = done.arena.small;
          };
          copies = tt;
          same_dim = done.same_dim;
          bytes = done.bytes;
        },
      )

  -- ConsumeVec for each of a list of reads by a new consumer, and then ExecuteBuffered, with batches or
  -- without: for at most 2^32 - 32 reads, when the allocators serve it, the buffers hold a vector each
  -- and a vector has at most 4190208 bytes, nothing is read or written out of bounds, and an empty collector for one entry
  -- or more ends with the nearest of the records read, by the distance of the bytes that were read.
  -- The consumer is then well-formed and holds no candidate.
  pub execute_buffered-IsNearest :
      (sorter : Sorter) (batched : Bool) (top_k dim : ℕ) (alloc : ℕ → Option (List ℕ))
      (stats : RerankStats) (reads : List Completion)
      → 0 < top_k
      → dim * 4 ≤ size_limit
      → length reads + 32 ≤ 2 ^ 32
      → Allocates alloc
      → All (IsRead dim) reads
      → (s s' : RerankConsumer) × (collector : ResultCollector pq) × (consume_vecs reads
            (make_consumer alloc dim stats)
          ≡ some s)
        × (execute_buffered pq l2_sqr query sorter batched s (make_collector pq top_k)
            ≡ some (s', collector))
        × IsNearest top_k
            (map (ranked l2_sqr query dim) (vectors_of dim reads))
            (pq.entries collector.heap)
        × Consumed dim s' []
  execute_buffered-IsNearest sorter batched top_k dim alloc stats reads hk small few served h =
      let (s, run, done) =
        consume_vecs_lem dim reads (make_consumer alloc dim stats) [] h
          (make_consumer-Consumed alloc dim stats served small) in
      let (s', collector, ran, nearest, ready) =
        execute_buffered-Consumed sorter batched top_k dim s (vectors_of dim reads) hk
          (omega (arith, length-vectors_of dim reads)) done in
      (s, s', collector, run, ran, nearest, ready)
