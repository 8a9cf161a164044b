-- ===== src/Query/RerankConsumer/PayloadMap.antt =====
-- The payload cache is a map from offsets to buffers.
use vec_fetch.Prelude.{
  ℕ, ◌+◌, ◌-◌, ◌*◌, ◌/◌, ◌^◌, ◌≤◌, ◌<◌, ◌≡◌, refl, sym, ap, ◌∙◌, arith, true, false, List, [], ◌∷◌,
  ◌++◌, Option, none, some, ltb, lt→ltb, ◌==◌, ==_iff, if◌then◌else◌, length, take_self,
  length-take, length-drop, take, drop, u32,
}
use vec_fetch.Types.{AddressEntry}
use vec_fetch.Query.ResultCollector.{CollectorEntry}
use vec_fetch.Query.RerankConsumer.{RerankConsumer, page_aligned}
use vec_fetch.Query.RerankConsumer.Memory.{write_at_lem, read_at_lem}
use vec_fetch.Query.RerankConsumer.Chunks.{Allocates}
use vec_fetch.Query.RerankConsumer.Copies.{
  Vector, Consumed, vector_of, consume_vec_lem, page_aligned_lem,
}
use vec_fetch.Query.RerankConsumer.Payloads.{
  Cache, lookup, erase_payload, insert_payload, has_payload, take_payload, cache_payload,
  consume_payload, consume_all, is_needed, keep_needed, cleanup_unused_cache,
}

==-eq : (a b : ℕ) → (a == b) ≡ true → a ≡ b
==-eq a b h = (==_iff a b).0 h

lookup-erase_payload :
    (cache : Cache) (o o' : ℕ)
    → lookup (erase_payload cache o) o' ≡ (if o == o' then none else lookup cache o')
unfolding lookup erase_payload
lookup-erase_payload [] o o' = ground arith
lookup-erase_payload ((k, buf) ∷ cache) o o' = ground (arith, lookup-erase_payload cache o o')

lookup-insert_payload :
    (cache : Cache) (o : ℕ) (buf : List ℕ) (o' : ℕ)
    → lookup (insert_payload cache o buf) o' ≡ (if o == o' then some buf else lookup cache o')
unfolding lookup insert_payload
lookup-insert_payload cache o buf o' = ground (arith, lookup-erase_payload cache o o')

lookup-keep_needed :
    (results : List CollectorEntry) (cache : Cache) (o : ℕ)
    → lookup (keep_needed results cache) o ≡ (if is_needed results o then lookup cache o else none)
unfolding lookup keep_needed
lookup-keep_needed results [] o = ground arith
lookup-keep_needed results ((k, buf) ∷ cache) o = ground (arith, lookup-keep_needed results cache o)

-- What the cache holds.
abbrev pub view : RerankConsumer → ℕ → Option (List ℕ)
view s offset = lookup s.payload_cache offset

take_payload_lem :
    (s : RerankConsumer) (offset other : ℕ)
    → ((take_payload s offset).1 ≡ view s offset)
      × (view (take_payload s offset).0 other ≡ (if offset == other then none else view s other))
unfolding take_payload
take_payload_lem s offset other = go (view s offset) refl
  where
    go :
        (found : Option (List ℕ))
        → view s offset ≡ found
        → let taken : RerankConsumer × Option (List ℕ) = elim found [
          | none ↦ (s, none)
          | some b ↦ (record s { payload_cache = erase_payload s.payload_cache offset }, some b)
        ] in
          (taken.1 ≡ found)
          × (view taken.0 other ≡ (if offset == other then none else view s other))
    go none e = (refl, ground (arith, e))
    go (some b) e = (refl, lookup-erase_payload s.payload_cache offset other)

-- The cache behaves like a map from offsets to buffers: CachePayload and ConsumePayload put a buffer at
-- an offset over the one there, HasPayload tells whether one is there, TakePayload returns what is
-- there and leaves nothing, CleanupUnusedCache leaves the buffers of the final results, and each
-- of them keeps what is at the other offsets.
pub payload_operations :
    (s : RerankConsumer) (offset other : ℕ) (buf : List ℕ) (addr : AddressEntry)
    (results : List CollectorEntry)
    → (view (cache_payload s offset buf) other
        ≡ (if offset == other then some buf else view s other))
      × (view (consume_payload s buf addr) other
          ≡ (if addr.offset == other then some buf else view s other))
      × (has_payload s offset ≡ elim (view s offset) [ none ↦ false | some b ↦ true ])
      × ((take_payload s offset).1 ≡ view s offset)
      × (view (take_payload s offset).0 other ≡ (if offset == other then none else view s other))
      × (view (cleanup_unused_cache s results) other
          ≡ (if is_needed results other then view s other else none))
unfolding cache_payload consume_payload has_payload take_payload cleanup_unused_cache
payload_operations s offset other buf addr results = (
  lookup-insert_payload s.payload_cache offset buf other,
  lookup-insert_payload s.payload_cache addr.offset buf other,
  refl,
  (take_payload_lem s offset other).0,
  (take_payload_lem s offset other).1,
  lookup-keep_needed results s.payload_cache other,
)

-- ConsumeAll on a consumer that holds some vectors, when the allocators serve it, the buffer holds the
-- whole record, the record is longer than a vector and at most 2^32 - 4096 bytes: the vector
-- is held behind the others, and the buffer cached at the record's offset starts with the
-- bytes that follow the vector. The other offsets keep their buffers.
pub consume_all_lem :
    (alloc alloc_payload : ℕ → Option (List ℕ)) (dim : ℕ) (s : RerankConsumer)
    (vectors : List Vector) (buf : List ℕ) (addr : AddressEntry)
    → Allocates alloc
    → Allocates alloc_payload
    → length buf ≡ addr.size
    → s.vec_bytes < addr.size
    → addr.size ≤ 2 ^ 32 - 4096
    → Consumed dim s vectors
    → (s' : RerankConsumer) × (filled : List ℕ) × (consume_all alloc alloc_payload s buf addr
        ≡ some s')
      × Consumed dim s' (vectors ++ vector_of dim buf addr ∷ [])
      × (take (addr.size - s.vec_bytes) filled ≡ drop s.vec_bytes buf)
      × ((other : ℕ) → view s' other ≡ (if addr.offset == other then some filled else view s other))
unfolding consume_all
consume_all_lem alloc alloc_payload dim s vectors buf addr served served_payload whole more small
      consumed =
    let vb = s.vec_bytes in
    let n = addr.size - vb in
    let (s₁, run, held, same_cache) =
      consume_vec_lem alloc dim s vectors buf addr served (omega (arith, consumed.bytes))
        consumed in
    let (pbuf, given, long) = served_payload (page_aligned n) in
    let rounded : page_aligned n ≡ (n + 4095) / 4096 * 4096 = page_aligned_lem n (omega arith) in
    let payload = take n (drop vb buf) in
    let exact : length payload ≡ n =
      omega (arith, length-take n (drop vb buf), length-drop vb buf) in
    let (filled, written, _, there, _) = write_at_lem pbuf 0 payload (omega arith) in
    let longer : ltb vb addr.size ≡ true = lt→ltb vb addr.size more in
    (
      record s₁ {
        payload_cache = insert_payload s₁.payload_cache addr.offset filled;
        stats = record s₁.stats {
          total_safein_payload_prefetched = u32 (s₁.stats.total_safein_payload_prefetched + 1);
        };
      },
      filled,
      rw (run, longer, given, read_at_lem buf vb n (omega arith), written),
      record {
        arena = record {
          chunks = held.arena.chunks;
          fits = held.arena.fits;
          small = held.arena.small;
        };
        copies = held.copies;
        same_dim = held.same_dim;
        bytes = held.bytes;
      },
      ap (λ (k : ℕ). take k filled) (sym exact)
          ∙ there
          ∙ take_self n (drop vb buf) (omega (arith, length-drop vb buf)),
      λ other.
          lookup-insert_payload s₁.payload_cache addr.offset filled other
          ∙ ap (λ (cache : Cache). if addr.offset == other then some filled else lookup cache other)
              same_cache,
    )
