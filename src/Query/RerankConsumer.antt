-- ===== src/Query/RerankConsumer.antt =====
-- src/query/rerank_consumer.cpp and include/vdb/query/rerank_consumer.h: vectors are copied into chunks
-- until they are ranked, and payloads are kept by the offset of their record. A chunk is its bytes,
-- and a pointer into one is its number and an offset. What `std::aligned_alloc` returns is the
-- function `alloc` of its size, `none` for a null pointer. The result `none` is the abort on a
-- null pointer, or an access out of bounds. Times are left out.
pub mod Rerank
pub mod Payloads
pub mod Memory
pub mod Chunks
pub mod Allocate
pub mod Copies
pub mod Ranking
pub mod Execute
pub mod PayloadMap
use vec_fetch.Prelude.{
  ℕ, zero, suc, ◌+◌, ◌-◌, ◌*◌, ◌≡◌, ◌||◌, Bool, true, false, not, List, [], ◌∷◌, ◌++◌, Option, none,
  some, bit_and, ltb, leb, ◌==◌, if◌then◌else◌, ◌>>=◌, length, get_elem?, set, take, drop, max, u32,
  u32_max,
}
use vec_fetch.Types.{AddressEntry}
use vec_fetch.Query.ResultCollector.{CollectorEntry}

pub record BufferedCandidate : Type 0 where
  pub addr : AddressEntry
  pub chunk : ℕ
  pub offset : ℕ

pub record VectorChunk : Type 0 where
  pub storage : List ℕ
  pub capacity : ℕ
  pub used : ℕ

-- The counters of SearchStats that the consumer moves.
pub record RerankStats : Type 0 where
  pub buffered_candidates : ℕ
  pub total_reranked : ℕ
  pub reranked_candidates : ℕ
  pub total_safein_payload_prefetched : ℕ
  pub total_payload_prefetched : ℕ

-- The cache is an association list, with one entry for an offset.
pub record RerankConsumer : Type 0 where
  pub dim : ℕ
  pub vec_bytes : ℕ
  pub aligned_vec_bytes : ℕ
  pub buffered_candidates : List BufferedCandidate
  pub vector_chunks : List VectorChunk
  pub payload_cache : List (ℕ × List ℕ)
  pub stats : RerankStats

abbrev pub page_aligned : ℕ → ℕ
page_aligned n = bit_and (u32 (n + 4095)) (u32_max - 4095)

unfoldable pub chunk_capacity : RerankConsumer → ℕ → ℕ
chunk_capacity s min_capacity = max (u32 (s.aligned_vec_bytes * 1024)) min_capacity

-- RerankConsumer::GrowVectorChunk
unfoldable pub grow_vector_chunk :
    (ℕ → Option (List ℕ)) → RerankConsumer → ℕ → RerankConsumer × Bool
grow_vector_chunk alloc s min_capacity =
    let capacity = chunk_capacity s min_capacity in
    elim (alloc capacity) [
      | none ↦ (s, false)
      | some raw ↦ (
        record s {
          vector_chunks =
              s.vector_chunks ++ record { storage = raw; capacity = capacity; used = 0 } ∷ [];
        },
        true,
      )
    ]

-- RerankConsumer::RerankConsumer
unfoldable pub make_consumer : (ℕ → Option (List ℕ)) → ℕ → RerankStats → RerankConsumer
make_consumer alloc raw_dim stats =
    let vec_bytes = u32 (raw_dim * 4) in
    let aligned = page_aligned vec_bytes in
    let s : RerankConsumer = record {
      dim = raw_dim;
      vec_bytes = vec_bytes;
      aligned_vec_bytes = aligned;
      buffered_candidates = [];
      vector_chunks = [];
      payload_cache = [];
      stats = stats;
    } in
    (grow_vector_chunk alloc s (u32 (aligned * 1024))).0

-- The test before the copy: no chunk, or none with room.
unfoldable pub needs_chunk : RerankConsumer → Bool
needs_chunk s = elim (get_elem? s.vector_chunks (length s.vector_chunks - 1)) [
  | none ↦ true
  | some chunk ↦ ltb chunk.capacity (u32 (chunk.used + s.aligned_vec_bytes))
]

unfoldable pub ensure_chunk : (ℕ → Option (List ℕ)) → RerankConsumer → Option RerankConsumer
ensure_chunk alloc s =
    let (grown, ok) = grow_vector_chunk alloc s s.aligned_vec_bytes in
    if needs_chunk s then (if ok then some grown else none) else some s

-- memcpy of `bs` into a memory, at an offset.
unfoldable pub write_at : List ℕ → ℕ → List ℕ → Option (List ℕ)
write_at memory offset bs =
    if leb (offset + length bs) (length memory)
    then some (take offset memory ++ bs ++ drop (offset + length bs) memory)
    else none

unfoldable pub read_at : List ℕ → ℕ → ℕ → Option (List ℕ)
read_at memory offset count =
    if leb (offset + count) (length memory) then some (take count (drop offset memory)) else none

-- RerankConsumer::AllocateVectorCopy, with the place of the copy.
unfoldable pub allocate_vector_copy :
    (ℕ → Option (List ℕ)) → RerankConsumer → List ℕ → Option (RerankConsumer × ℕ × ℕ)
allocate_vector_copy alloc s₀ src = do
  s ← ensure_chunk alloc s₀
  let i = length s.vector_chunks - 1
  chunk ← get_elem? s.vector_chunks i
  vec ← read_at src 0 s.vec_bytes
  storage ← write_at chunk.storage chunk.used vec
  let filled : VectorChunk = record chunk {
    storage = storage;
    used = u32 (chunk.used + s.aligned_vec_bytes);
  }
  some (record s { vector_chunks = set s.vector_chunks i filled }, i, chunk.used)

-- RerankConsumer::ResetVectorChunks
unfoldable pub reset_vector_chunks : List VectorChunk → List VectorChunk
reset_vector_chunks [] = []
reset_vector_chunks (chunk ∷ chunks) = record chunk { used = 0 } ∷ reset_vector_chunks chunks

-- RerankConsumer::ConsumeVec
unfoldable pub consume_vec :
    (ℕ → Option (List ℕ)) → RerankConsumer → List ℕ → AddressEntry → Option RerankConsumer
consume_vec alloc s buf addr = do
  (s₁, chunk, offset) ← allocate_vector_copy alloc s buf
  some (record s₁ {
    buffered_candidates =
        s₁.buffered_candidates ++ record { addr = addr; chunk = chunk; offset = offset } ∷ [];
    stats = record s₁.stats { buffered_candidates = u32 (s₁.stats.buffered_candidates + 1) };
  })

-- L2SqrBatch1xN of src/simd/rerank_distance.cpp: the distances of `count` vectors. `l2_sqr` is the rank of
-- the float that L2Sqr returns.
unfoldable pub l2_sqr_batch : (List ℕ → List ℕ → ℕ → ℕ) → List ℕ → List (List ℕ) → ℕ → List ℕ
l2_sqr_batch l2_sqr query [] dim = []
l2_sqr_batch l2_sqr query (vec ∷ vectors) dim =
    l2_sqr query vec dim ∷ l2_sqr_batch l2_sqr query vectors dim

-- RerankConsumer::BufferedCount
unfoldable pub buffered_count : RerankConsumer → ℕ
buffered_count s = u32 (length s.buffered_candidates)
