-- ===== src/Query/RerankConsumer/Payloads.antt =====
-- The payload cache.
use vec_fetch.Prelude.{
  ℕ, ◌+◌, ◌-◌, ◌||◌, Bool, true, false, List, [], ◌∷◌, Option, none, some, ltb, ◌==◌, if◌then◌else◌,
  ◌>>=◌, u32,
}
use vec_fetch.Types.{AddressEntry}
use vec_fetch.Query.ResultCollector.{CollectorEntry}
use vec_fetch.Query.RerankConsumer.{RerankConsumer, page_aligned, read_at, write_at, consume_vec}

abbrev pub Cache : Type 0
Cache = List (ℕ × List ℕ)

-- `payload_cache_.find(offset)`
unfoldable pub lookup : Cache → ℕ → Option (List ℕ)
lookup [] offset = none
lookup ((o, buf) ∷ cache) offset = if o == offset then some buf else lookup cache offset

-- `payload_cache_.erase`
unfoldable pub erase_payload : Cache → ℕ → Cache
erase_payload [] offset = []
erase_payload ((o, buf) ∷ cache) offset =
    let rest = erase_payload cache offset in if o == offset then rest else (o, buf) ∷ rest

-- `payload_cache_[offset] = buf`
unfoldable pub insert_payload : Cache → ℕ → List ℕ → Cache
insert_payload cache offset buf = (offset, buf) ∷ erase_payload cache offset

unfoldable pub has_payload : RerankConsumer → ℕ → Bool
has_payload s offset = elim (lookup s.payload_cache offset) [ none ↦ false | some buf ↦ true ]

unfoldable pub take_payload : RerankConsumer → ℕ → RerankConsumer × Option (List ℕ)
take_payload s offset = elim (lookup s.payload_cache offset) [
  | none ↦ (s, none)
  | some buf ↦ (record s { payload_cache = erase_payload s.payload_cache offset }, some buf)
]

unfoldable pub cache_payload : RerankConsumer → ℕ → List ℕ → RerankConsumer
cache_payload s offset buf = record s { payload_cache = insert_payload s.payload_cache offset buf }

unfoldable pub consume_payload : RerankConsumer → List ℕ → AddressEntry → RerankConsumer
consume_payload s buf addr = record s {
  payload_cache = insert_payload s.payload_cache addr.offset buf;
  stats = record s.stats { total_payload_prefetched = u32 (s.stats.total_payload_prefetched + 1) };
}

-- RerankConsumer::ConsumeAll. A null pointer for the payload is not tested: `none`.
unfoldable pub consume_all :
    (ℕ → Option (List ℕ))
    → (ℕ → Option (List ℕ))
    → RerankConsumer
    → List ℕ
    → AddressEntry
    → Option RerankConsumer
consume_all alloc alloc_payload s buf addr = do
  s₁ ← consume_vec alloc s buf addr
  let payload_len = addr.size - s.vec_bytes
  let cached = do
    pbuf ← alloc_payload (page_aligned payload_len)
    payload ← read_at buf s.vec_bytes payload_len
    filled ← write_at pbuf 0 payload
    some (record s₁ {
      payload_cache = insert_payload s₁.payload_cache addr.offset filled;
      stats = record s₁.stats {
        total_safein_payload_prefetched = u32 (s₁.stats.total_safein_payload_prefetched + 1);
      };
    })
  if ltb s.vec_bytes addr.size then cached else some s₁

unfoldable pub is_needed : List CollectorEntry → ℕ → Bool
is_needed [] offset = false
is_needed (e ∷ es) offset = e.addr.offset == offset || is_needed es offset

unfoldable pub keep_needed : List CollectorEntry → Cache → Cache
keep_needed final_results [] = []
keep_needed final_results ((o, buf) ∷ cache) =
    let rest = keep_needed final_results cache in
    if is_needed final_results o then (o, buf) ∷ rest else rest

unfoldable pub cleanup_unused_cache : RerankConsumer → List CollectorEntry → RerankConsumer
cleanup_unused_cache s final_results = record s {
  payload_cache = keep_needed final_results s.payload_cache;
}
