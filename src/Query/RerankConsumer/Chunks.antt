-- ===== src/Query/RerankConsumer/Chunks.antt =====
-- The chunk for the next copy.
use mathlib.Core.Path.{subst}
use vec_fetch.Prelude.{
  ℕ, ◌+◌, ◌-◌, ◌^◌, ◌≤◌, ◌<◌, ◌≡◌, inl, inr, refl, sym, ap, ◌∙◌, arith, true, false, Bool-cases,
  List, [], ◌∷◌, ◌++◌, Option, none, some, ltb, length, length-append, get_elem?, take, drop, All,
  u32,
}
use vec_fetch.Query.RerankConsumer.{
  VectorChunk, RerankConsumer, chunk_capacity, grow_vector_chunk, needs_chunk, ensure_chunk,
}
use vec_fetch.Query.RerankConsumer.Memory.{
  get_elem?-append, get_elem?-append_last, All-get_elem?, All-push,
}

-- The largest size of a copy for which the 32-bit sums of the consumer do not wrap around.
abbrev pub size_limit : ℕ
size_limit = 4190208

-- Every request is served.
abbrev pub Allocates : (ℕ → Option (List ℕ)) → Type 0
Allocates alloc = (n : ℕ) → (raw : List ℕ) × (alloc n ≡ some raw) × (length raw ≡ n)

pub record IsChunk (aligned : ℕ) (chunk : VectorChunk) : Type 0 where
  pub whole : length chunk.storage ≡ chunk.capacity
  pub used_within : chunk.used ≤ chunk.capacity
  pub no_wrap : chunk.capacity + aligned < 2 ^ 32

pub record IsArena (s : RerankConsumer) : Type 0 where
  pub chunks : All (IsChunk s.aligned_vec_bytes) s.vector_chunks
  pub fits : s.vec_bytes ≤ s.aligned_vec_bytes
  pub small : s.aligned_vec_bytes ≤ size_limit

-- The chunk is still there, and what was used of it is unchanged.
pub record KeepsChunk (before after : VectorChunk) : Type 0 where
  pub grows : before.used ≤ after.used
  pub same :
      (o n : ℕ)
      → o + n ≤ before.used
      → take n (drop o after.storage) ≡ take n (drop o before.storage)
  pub long : length after.storage ≡ length before.storage

abbrev pub Keeps : List VectorChunk → List VectorChunk → Type 0
Keeps before after =
    (i : ℕ) (chunk : VectorChunk)
    → get_elem? before i ≡ some chunk
    → (chunk' : VectorChunk) × (get_elem? after i ≡ some chunk') × KeepsChunk chunk chunk'

KeepsChunk-refl : (chunk : VectorChunk) → KeepsChunk chunk chunk
KeepsChunk-refl chunk = record { grows = omega arith; same = λ o n h. refl; long = refl }

-- The place holds the bytes, among those that are used.
pub record Holds (chunks : List VectorChunk) (i offset : ℕ) (bs : List ℕ) : Type 0 where
  pub chunk : VectorChunk
  pub here : get_elem? chunks i ≡ some chunk
  pub inside : offset + length bs ≤ chunk.used
  pub within : offset + length bs ≤ length chunk.storage
  pub there : take (length bs) (drop offset chunk.storage) ≡ bs

-- The chunk for the next copy: the last one, with room for it.
pub record Room (s : RerankConsumer) (chunks : List VectorChunk) : Type 0 where
  pub chunk : VectorChunk
  pub last : get_elem? chunks (length chunks - 1) ≡ some chunk
  pub room : chunk.used + s.aligned_vec_bytes ≤ chunk.capacity
  pub are : All (IsChunk s.aligned_vec_bytes) chunks
  pub is : IsChunk s.aligned_vec_bytes chunk
  pub keeps : Keeps s.vector_chunks chunks

grow_vector_chunk-Room :
    (alloc : ℕ → Option (List ℕ)) (s : RerankConsumer)
    → Allocates alloc
    → IsArena s
    → (chunks : List VectorChunk) × (grow_vector_chunk alloc s s.aligned_vec_bytes
        ≡ (record s { vector_chunks = chunks }, true))
      × Room s chunks
unfolding grow_vector_chunk chunk_capacity
grow_vector_chunk-Room alloc s served arena =
    let capacity = chunk_capacity s s.aligned_vec_bytes in
    let (raw, run, long) = served capacity in
    let chunk : VectorChunk = record { storage = raw; capacity = capacity; used = 0 } in
    let chunks = s.vector_chunks ++ chunk ∷ [] in
    let one_more : length chunks - 1 ≡ length s.vector_chunks =
      omega (arith, length-append s.vector_chunks (chunk ∷ [])) in
    let is : IsChunk s.aligned_vec_bytes chunk = record {
      whole = long;
      used_within = omega arith;
      no_wrap = omega (arith, arena.small);
    } in
    (
      chunks,
      rw (grow_vector_chunk, run),
      record {
        chunk = chunk;
        last = ap (get_elem? chunks) one_more ∙ get_elem?-append_last s.vector_chunks chunk;
        room = omega arith;
        are = All-push (IsChunk s.aligned_vec_bytes) s.vector_chunks chunk arena.chunks is;
        is = is;
        keeps =
            λ i c h. (c, get_elem?-append s.vector_chunks (chunk ∷ []) i c h, KeepsChunk-refl c);
      },
    )

-- The test finds a last chunk with room.
free_chunk :
    (s : RerankConsumer)
    → needs_chunk s ≡ false
    → (chunk : VectorChunk) × (get_elem? s.vector_chunks (length s.vector_chunks - 1) ≡ some chunk)
      × (u32 (chunk.used + s.aligned_vec_bytes) ≤ chunk.capacity)
unfolding needs_chunk
free_chunk s h = go (get_elem? s.vector_chunks (length s.vector_chunks - 1)) refl h
  where
    go :
        (last : Option VectorChunk)
        → get_elem? s.vector_chunks (length s.vector_chunks - 1) ≡ last
        → (elim last [
          | none ↦ true
          | some chunk ↦ ltb chunk.capacity (u32 (chunk.used + s.aligned_vec_bytes))
        ])
          ≡ false
        → (chunk : VectorChunk) × (get_elem? s.vector_chunks (length s.vector_chunks - 1)
            ≡ some chunk)
          × (u32 (chunk.used + s.aligned_vec_bytes) ≤ chunk.capacity)
    go none e h = absurd (let never : true ≡ false = h in cc)
    go (some chunk) e h = (chunk, e, ground arith)

pub ensure_chunk_lem :
    (alloc : ℕ → Option (List ℕ)) (s : RerankConsumer)
    → Allocates alloc
    → IsArena s
    → (chunks : List VectorChunk) × (ensure_chunk alloc s
        ≡ some (record s { vector_chunks = chunks }))
      × Room s chunks
unfolding ensure_chunk
ensure_chunk_lem alloc s served arena = elim (Bool-cases (needs_chunk s)) [
  | inl full ↦
      let (chunks, run, room) = grow_vector_chunk-Room alloc s served arena in
      (chunks, rw (full, run), room)
  | inr free ↦
      let (chunk, last, room) = free_chunk s free in
      let (same_chunk, same, is') =
        All-get_elem? (IsChunk s.aligned_vec_bytes) s.vector_chunks (length s.vector_chunks - 1)
          chunk arena.chunks last in
      let is : IsChunk s.aligned_vec_bytes chunk =
        subst (IsChunk s.aligned_vec_bytes) (sym same) is' in
      (
        s.vector_chunks,
        rw free,
        record {
          chunk = chunk;
          last = last;
          room = omega (arith, is.used_within, is.no_wrap);
          are = arena.chunks;
          is = is;
          keeps = λ i c h. (c, h, KeepsChunk-refl c);
        },
      )
]
