-- ===== src/Query/RerankConsumer/Copies.antt =====
-- Consuming vectors one after the other.
use mathlib.Core.Path.{subst}
use mathlib.Core.List.{append-nil, append_assoc}
use vec_fetch.Prelude.{
  ℕ, ◌+◌, ◌*◌, ◌/◌, ◌^◌, ◌≤◌, ◌<◌, ◌≡◌, refl, sym, ◌∙◌, arith, List, [], ◌∷◌, ◌++◌, Option, some,
  ◌>>=◌, length, length-take, take, All, leb, le→leb, true, ◌-◌, u32,
}
use vec_fetch.Types.{AddressEntry}
use vec_fetch.Query.BufferPool.{aligned_size}
use vec_fetch.Query.BufferPool.Align.{aligned_size_lem}
use vec_fetch.Query.RerankConsumer.{
  BufferedCandidate, VectorChunk, RerankStats, RerankConsumer, page_aligned, chunk_capacity,
  grow_vector_chunk, make_consumer, consume_vec,
}
use vec_fetch.Query.RerankConsumer.Memory.{All-push}
use vec_fetch.Query.RerankConsumer.Allocate.{allocate_vector_copy_lem}
use vec_fetch.Query.RerankConsumer.Chunks.{size_limit, Allocates, IsChunk, IsArena, Keeps, Holds}

-- The bytes of a vector, and the address of its record.
abbrev pub Vector : Type 0
Vector = List ℕ × AddressEntry

-- Each candidate has the address, and points at the bytes.
abbrev pub AreCopies : ℕ → List VectorChunk → List BufferedCandidate → List Vector → Type 0
AreCopies vec_bytes chunks [] [] = Unit
AreCopies vec_bytes chunks (c ∷ cs) ((vec, addr) ∷ vectors) =
    ((c.addr ≡ addr) × (length vec ≡ vec_bytes) × Holds chunks c.chunk c.offset vec)
    × AreCopies vec_bytes chunks cs vectors
AreCopies vec_bytes chunks cs vectors = ⊥

Holds-Keeps :
    (before after : List VectorChunk) (i offset : ℕ) (bs : List ℕ)
    → Keeps before after
    → Holds before i offset bs
    → Holds after i offset bs
Holds-Keeps before after i offset bs keeps h =
    let (chunk', here, kept) = keeps i h.chunk h.here in
    record {
      chunk = chunk';
      here = here;
      inside = omega (arith, h.inside, kept.grows);
      within = omega (arith, h.within, kept.long);
      there = kept.same offset (length bs) h.inside ∙ h.there;
    }

AreCopies-Keeps :
    (vec_bytes : ℕ) (before after : List VectorChunk) (cs : List BufferedCandidate)
    (vectors : List Vector)
    → Keeps before after
    → AreCopies vec_bytes before cs vectors
    → AreCopies vec_bytes after cs vectors
AreCopies-Keeps vb before after [] [] keeps h = tt
AreCopies-Keeps vb before after [] (v ∷ vectors) keeps h = h
AreCopies-Keeps vb before after (c ∷ cs) [] keeps h = h
AreCopies-Keeps vb before after (c ∷ cs) ((vec, addr) ∷ vectors) keeps ((ha, hl, hv), hs) = (
  (ha, hl, Holds-Keeps before after c.chunk c.offset vec keeps hv),
  AreCopies-Keeps vb before after cs vectors keeps hs,
)

AreCopies-push :
    (vec_bytes : ℕ) (chunks : List VectorChunk) (cs : List BufferedCandidate)
    (vectors : List Vector) (c : BufferedCandidate) (vec : List ℕ)
    → AreCopies vec_bytes chunks cs vectors
    → length vec ≡ vec_bytes
    → Holds chunks c.chunk c.offset vec
    → AreCopies vec_bytes chunks (cs ++ c ∷ []) (vectors ++ (vec, c.addr) ∷ [])
AreCopies-push vb chunks [] [] c vec h hl hv = ((refl, hl, hv), tt)
AreCopies-push vb chunks [] (v ∷ vectors) c vec h hl hv = absurd h
AreCopies-push vb chunks (d ∷ cs) [] c vec h hl hv = absurd h
AreCopies-push vb chunks (d ∷ cs) (v ∷ vectors) c vec (h, hs) hl hv =
    (h, AreCopies-push vb chunks cs vectors c vec hs hl hv)

-- The consumer is well-formed, and its candidates are the vectors.
pub record Consumed (dim : ℕ) (s : RerankConsumer) (vectors : List Vector) : Type 0 where
  pub arena : IsArena s
  pub copies : AreCopies s.vec_bytes s.vector_chunks s.buffered_candidates vectors
  pub same_dim : s.dim ≡ dim
  pub bytes : s.vec_bytes ≡ u32 (dim * 4)

-- The vector of a buffer.
abbrev pub vector_of : ℕ → List ℕ → AddressEntry → Vector
vector_of dim buf addr = (take (u32 (dim * 4)) buf, addr)

pub consume_vec_lem :
    (alloc : ℕ → Option (List ℕ)) (dim : ℕ) (s : RerankConsumer) (vectors : List Vector)
    (buf : List ℕ) (addr : AddressEntry)
    → Allocates alloc
    → u32 (dim * 4) ≤ length buf
    → Consumed dim s vectors
    → (s' : RerankConsumer) × (consume_vec alloc s buf addr ≡ some s')
      × Consumed dim s' (vectors ++ vector_of dim buf addr ∷ [])
      × (s'.payload_cache ≡ s.payload_cache)
unfolding consume_vec
consume_vec_lem alloc dim s vectors buf addr served enough consumed =
    let (chunks, i, offset, run, arena, keeps, holds) =
      allocate_vector_copy_lem alloc s buf served consumed.arena (omega (arith, consumed.bytes)) in
    let c : BufferedCandidate = record { addr = addr; chunk = i; offset = offset } in
    let copies : AreCopies s.vec_bytes chunks (s.buffered_candidates ++ c ∷ [])
        (vectors ++ (take s.vec_bytes buf, addr) ∷ []) =
      AreCopies-push s.vec_bytes chunks s.buffered_candidates vectors c (take s.vec_bytes buf)
        (AreCopies-Keeps s.vec_bytes s.vector_chunks chunks s.buffered_candidates vectors keeps
          consumed.copies)
        (omega (arith, consumed.bytes, length-take s.vec_bytes buf)) holds in
    (
      record s {
        vector_chunks = chunks;
        buffered_candidates = s.buffered_candidates ++ c ∷ [];
        stats = record s.stats { buffered_candidates = u32 (s.stats.buffered_candidates + 1) };
      },
      rw run,
      record {
        arena = record { chunks = arena.chunks; fits = arena.fits; small = arena.small };
        copies =
            subst
              (λ (n : ℕ).
                AreCopies s.vec_bytes chunks (s.buffered_candidates ++ c ∷ [])
                  (vectors ++ (take n buf, addr) ∷ []))
              consumed.bytes copies;
        same_dim = consumed.same_dim;
        bytes = consumed.bytes;
      },
      refl,
    )

-- A read of a vector that is done: the allocator at that moment, the buffer and the address.
abbrev pub Completion : Type 0
Completion = (ℕ → Option (List ℕ)) × List ℕ × AddressEntry

-- ConsumeVec for each of them.
unfoldable pub consume_vecs : List Completion → RerankConsumer → Option RerankConsumer
consume_vecs [] s = some s
consume_vecs ((alloc, buf, addr) ∷ reads) s = do
  s₁ ← consume_vec alloc s buf addr
  consume_vecs reads s₁

-- The allocator serves, and the buffer holds a vector.
abbrev pub IsRead : ℕ → Completion → Type 0
IsRead dim (alloc, buf, addr) = Allocates alloc × (u32 (dim * 4) ≤ length buf)

unfoldable pub vectors_of : ℕ → List Completion → List Vector
vectors_of dim [] = []
vectors_of dim ((alloc, buf, addr) ∷ reads) = vector_of dim buf addr ∷ vectors_of dim reads

pub consume_vecs_lem :
    (dim : ℕ) (reads : List Completion) (s : RerankConsumer) (vectors : List Vector)
    → All (IsRead dim) reads
    → Consumed dim s vectors
    → (s' : RerankConsumer) × (consume_vecs reads s ≡ some s')
      × Consumed dim s' (vectors ++ vectors_of dim reads)
unfolding consume_vecs vectors_of
consume_vecs_lem dim [] s vectors h consumed =
    (s, refl, subst (Consumed dim s) (sym (append-nil vectors)) consumed)
consume_vecs_lem dim ((alloc, buf, addr) ∷ reads) s vectors ((served, enough), hs) consumed =
    let (s₁, run, consumed₁, same) =
      consume_vec_lem alloc dim s vectors buf addr served enough consumed in
    let (s', runs, done) =
      consume_vecs_lem dim reads s₁ (vectors ++ vector_of dim buf addr ∷ []) hs consumed₁ in
    (
      s',
      rw run runs,
      subst (Consumed dim s')
          (append_assoc vectors (vector_of dim buf addr ∷ []) (vectors_of dim reads)) done,
    )

pub page_aligned_lem : (n : ℕ) → n ≤ 2 ^ 32 - 4096 → page_aligned n ≡ (n + 4095) / 4096 * 4096
unfolding aligned_size
page_aligned_lem n h =
    let fits : leb n (2 ^ 32 - 4096) ≡ true = le→leb n (2 ^ 32 - 4096) h in
    aligned_size_lem n (omega arith) ∙ rw fits

first_chunk :
    (alloc : ℕ → Option (List ℕ)) (dim : ℕ) (s : RerankConsumer) (n : ℕ)
    → Allocates alloc
    → n + s.aligned_vec_bytes < 2 ^ 32
    → s.vector_chunks ≡ []
    → Consumed dim s []
    → s.buffered_candidates ≡ []
    → Consumed dim (grow_vector_chunk alloc s n).0 []
unfolding grow_vector_chunk chunk_capacity
first_chunk alloc dim s n served room none_yet consumed empty =
    let capacity = chunk_capacity s n in
    let (raw, run, long) = served capacity in
    let chunk : VectorChunk = record { storage = raw; capacity = capacity; used = 0 } in
    let chunks = s.vector_chunks ++ chunk ∷ [] in
    let arena = consumed.arena in
    let is : IsChunk s.aligned_vec_bytes chunk = record {
      whole = long;
      used_within = omega arith;
      no_wrap = omega (arith, arena.small);
    } in
    let first : Consumed dim (record s { vector_chunks = chunks }) [] = record {
      arena = record {
        chunks = All-push (IsChunk s.aligned_vec_bytes) s.vector_chunks chunk arena.chunks is;
        fits = arena.fits;
        small = arena.small;
      };
      copies = subst (λ cs. AreCopies s.vec_bytes chunks cs []) (sym empty) tt;
      same_dim = consumed.same_dim;
      bytes = consumed.bytes;
    } in
    rw (grow_vector_chunk, run) first

-- A new consumer, with an allocator that serves it, for vectors of at most 4190208 bytes.
pub make_consumer-Consumed :
    (alloc : ℕ → Option (List ℕ)) (dim : ℕ) (stats : RerankStats)
    → Allocates alloc
    → dim * 4 ≤ size_limit
    → Consumed dim (make_consumer alloc dim stats) []
unfolding make_consumer
make_consumer-Consumed alloc dim stats served small =
    let vb = u32 (dim * 4) in
    let rounded : page_aligned vb ≡ (vb + 4095) / 4096 * 4096 = page_aligned_lem vb (omega arith) in
    let fits : vb ≤ page_aligned vb = rw rounded (omega arith) in
    let limited : page_aligned vb ≤ size_limit = rw rounded (omega arith) in
    first_chunk alloc dim
      (record {
        dim = dim;
        vec_bytes = vb;
        aligned_vec_bytes = page_aligned vb;
        buffered_candidates = [];
        vector_chunks = [];
        payload_cache = [];
        stats = stats;
      })
      (u32 (page_aligned vb * 1024)) served (room (page_aligned vb) limited) refl
      (record {
        arena = record { chunks = tt; fits = fits; small = limited };
        copies = tt;
        same_dim = refl;
        bytes = refl;
      })
      refl
  where
    room : (a : ℕ) → a ≤ size_limit → u32 (a * 1024) + a < 2 ^ 32
    room a h = omega arith
