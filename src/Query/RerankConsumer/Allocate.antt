-- ===== src/Query/RerankConsumer/Allocate.antt =====
-- What a copy into the chunks keeps.
use mathlib.Core.Path.{subst}
use mathlib.Core.Option.{some-injective}
use vec_fetch.Prelude.{
  ℕ, ◌+◌, ◌-◌, ◌≤◌, ◌≡◌, sym, ap, ◌∙◌, arith, List, Option, some, length, length-take, get_elem?,
  set, take, drop, u32, ℕ_discrete,
}
use vec_fetch.Query.RerankConsumer.{VectorChunk, RerankConsumer, write_at, allocate_vector_copy}
use vec_fetch.Query.RerankConsumer.Memory.{
  get_elem?-set_same, get_elem?-set_other, All-set, write_at_lem, read_at_lem,
}
use vec_fetch.Query.RerankConsumer.Chunks.{
  Allocates, IsChunk, IsArena, KeepsChunk, Keeps, Holds, ensure_chunk_lem,
}

-- A chunk with a copy behind what was used of it.
filled-IsChunk :
    (aligned : ℕ) (chunk : VectorChunk) (vec : List ℕ)
    → IsChunk aligned chunk
    → length vec ≤ aligned
    → chunk.used + aligned ≤ chunk.capacity
    → (storage : List ℕ) × (write_at chunk.storage chunk.used vec ≡ some storage)
      × (let filled : VectorChunk = record chunk {
        storage = storage;
        used = u32 (chunk.used + aligned);
      } in
          IsChunk aligned filled
          × KeepsChunk chunk filled
          × (chunk.used + length vec ≤ filled.used)
          × (take (length vec) (drop chunk.used storage) ≡ vec))
filled-IsChunk aligned chunk vec is fits room =
    let (storage, run, long, there, same) =
      write_at_lem chunk.storage chunk.used vec (omega (arith, is.whole)) in
    let end : u32 (chunk.used + aligned) ≡ chunk.used + aligned = omega (arith, is.no_wrap) in
    (
      storage,
      run,
      (
        record { whole = long ∙ is.whole; used_within = omega arith; no_wrap = is.no_wrap },
        record { grows = omega arith; same = same; long = long },
        omega arith,
        there,
      ),
    )

Keeps-set :
    (before chunks : List VectorChunk) (i : ℕ) (chunk filled : VectorChunk)
    → Keeps before chunks
    → get_elem? chunks i ≡ some chunk
    → KeepsChunk chunk filled
    → Keeps before (set chunks i filled)
Keeps-set before chunks i chunk filled keeps here kept j c h =
    let (c', there, kept') = keeps j c h in
    elim (ℕ_discrete i j) [
      | yes same ↦
          let is : c' ≡ chunk =
            some-injective c' chunk (sym there ∙ ap (get_elem? chunks) (sym same) ∙ here) in
          let kept_c : KeepsChunk c chunk = subst (KeepsChunk c) is kept' in
          (
            filled,
            ap (get_elem? (set chunks i filled)) (sym same)
                ∙ get_elem?-set_same chunks i chunk filled here,
            record {
              grows = omega (arith, kept.grows, kept_c.grows);
              same = λ o n inside.
                  kept.same o n (omega (arith, kept_c.grows)) ∙ kept_c.same o n inside;
              long = kept.long ∙ kept_c.long;
            },
          )
      | no other ↦ (c', get_elem?-set_other chunks i j filled other ∙ there, kept')
    ]

-- AllocateVectorCopy with an allocator that serves it: the bytes of the vector are at the place that it
-- returns, every chunk keeps what was used of it, and the chunks stay well-formed.
pub allocate_vector_copy_lem :
    (alloc : ℕ → Option (List ℕ)) (s : RerankConsumer) (src : List ℕ)
    → Allocates alloc
    → IsArena s
    → s.vec_bytes ≤ length src
    → (chunks : List VectorChunk) × (i : ℕ) × (offset : ℕ) × (allocate_vector_copy alloc s src
        ≡ some (record s { vector_chunks = chunks }, i, offset))
      × IsArena (record s { vector_chunks = chunks })
      × Keeps s.vector_chunks chunks
      × Holds chunks i offset (take s.vec_bytes src)
unfolding allocate_vector_copy
allocate_vector_copy_lem alloc s src served arena enough =
    let (chunks, run, room) = ensure_chunk_lem alloc s served arena in
    let vec = take s.vec_bytes src in
    let long : length vec ≡ s.vec_bytes = omega (arith, length-take s.vec_bytes src) in
    let chunk = room.chunk in
    let i = length chunks - 1 in
    let (storage, written, (is, kept, inside, there)) =
      filled-IsChunk s.aligned_vec_bytes chunk vec room.is (omega (arith, arena.fits)) room.room in
    let filled : VectorChunk = record chunk {
      storage = storage;
      used = u32 (chunk.used + s.aligned_vec_bytes);
    } in
    (
      set chunks i filled,
      i,
      chunk.used,
      rw (run, room.last, read_at_lem src 0 s.vec_bytes (omega arith), written),
      record {
        chunks = All-set (IsChunk s.aligned_vec_bytes) chunks i filled room.are is;
        fits = arena.fits;
        small = arena.small;
      },
      Keeps-set s.vector_chunks chunks i chunk filled room.keeps room.last kept,
      record {
        chunk = filled;
        here = get_elem?-set_same chunks i chunk filled room.last;
        inside = inside;
        within = omega (arith, inside, is.whole, is.used_within);
        there = there;
      },
    )
