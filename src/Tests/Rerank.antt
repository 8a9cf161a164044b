-- ===== src/Tests/Rerank.antt =====
-- Concrete runs of the rerank consumer.
use vec_fetch.Prelude.{
  ℕ, ◌≡◌, refl, arith, true, List, [], ◌∷◌, Option, some, map, length-replicate, replicate, get_or,
  take, ◌==◌, if◌then◌else◌,
}
use vec_fetch.Types.{AddressEntry}
use vec_fetch.Query.ResultCollector.{ResultCollector, make_collector}
use vec_fetch.Query.ResultCollector.Insert.{IsNearest}
use vec_fetch.Query.RerankConsumer.{RerankStats, RerankConsumer, make_consumer}
use vec_fetch.Query.RerankConsumer.Rerank.{execute_buffered}
use vec_fetch.Query.RerankConsumer.Chunks.{Allocates}
use vec_fetch.Query.RerankConsumer.Copies.{Consumed, Completion, consume_vecs, vectors_of}
use vec_fetch.Query.RerankConsumer.Ranking.{ranked}
use vec_fetch.Query.RerankConsumer.Execute.{execute_buffered-IsNearest}
use vec_fetch.Query.RerankConsumer.Payloads.{
  lookup, has_payload, take_payload, cache_payload, consume_payload, consume_all, is_needed,
  cleanup_unused_cache,
}
use vec_fetch.Query.RerankConsumer.PayloadMap.{view, payload_operations, consume_all_lem}
use vec_fetch.Tests.ListQueue.{list_queue}
use vec_fetch.Tests.InsertionSort.{sorter}

-- Memory that is all zeros.
abbrev zeros : ℕ → Option (List ℕ)
zeros n = some (replicate n 0)

zeros-Allocates : Allocates zeros
zeros-Allocates n = (replicate n 0, refl, length-replicate n 0)

-- The first byte is the distance.
abbrev first_byte : List ℕ → List ℕ → ℕ → ℕ
first_byte query vec dim = get_or vec 0 0

abbrev no_stats : RerankStats
no_stats = record {
  buffered_candidates = 0;
  total_reranked = 0;
  reranked_candidates = 0;
  total_safein_payload_prefetched = 0;
  total_payload_prefetched = 0;
}

abbrev place : ℕ → AddressEntry
place n = record { offset = n; size = 4096 }

abbrev three_reads : List Completion
three_reads =
    (zeros, 9 ∷ 0 ∷ 0 ∷ 0 ∷ 7 ∷ [], place 8192)
    ∷ (zeros, 2 ∷ 0 ∷ 0 ∷ 0 ∷ [], place 4096)
    ∷ (zeros, 5 ∷ 0 ∷ 0 ∷ 0 ∷ [], place 0)
    ∷ []

execute_buffered-IsNearest_example :
    (s s' : RerankConsumer) × (collector : ResultCollector list_queue) × (consume_vecs three_reads
        (make_consumer zeros 1 no_stats)
      ≡ some s)
    × (execute_buffered list_queue first_byte [] sorter true s (make_collector list_queue 2)
        ≡ some (s', collector))
    × IsNearest 2 (map (ranked first_byte [] 1) (vectors_of 1 three_reads)) collector.heap
    × Consumed 1 s' []
execute_buffered-IsNearest_example =
    execute_buffered-IsNearest list_queue first_byte [] sorter true 2 1 zeros no_stats three_reads
      (omega arith) (omega arith) (omega arith) zeros-Allocates
      (
        (zeros-Allocates, omega arith),
        ((zeros-Allocates, omega arith), ((zeros-Allocates, omega arith), tt)),
      )

abbrev consumer : RerankConsumer
consumer = record {
  dim = 1;
  vec_bytes = 4;
  aligned_vec_bytes = 4096;
  buffered_candidates = [];
  vector_chunks = [];
  payload_cache = (4096, 3 ∷ []) ∷ (0, 8 ∷ []) ∷ [];
  stats = no_stats;
}

consumer-Consumed : Consumed 1 consumer []
consumer-Consumed = record {
  arena = record { chunks = tt; fits = omega arith; small = omega arith };
  copies = tt;
  same_dim = refl;
  bytes = refl;
}

payload_operations_example :
    (view (cache_payload consumer 0 (6 ∷ [])) 4096 ≡ some (3 ∷ []))
    × (view (consume_payload consumer (6 ∷ []) (place 4096)) 4096 ≡ some (6 ∷ []))
    × (has_payload consumer 0 ≡ true)
    × ((take_payload consumer 0).1 ≡ some (8 ∷ []))
    × (view (take_payload consumer 0).0 4096 ≡ some (3 ∷ []))
    × (view (cleanup_unused_cache consumer (record { distance = 1; addr = place 4096 } ∷ [])) 4096
        ≡ some (3 ∷ []))
unfolding lookup is_needed
payload_operations_example =
    payload_operations consumer 0 4096 (6 ∷ []) (place 4096)
      (record { distance = 1; addr = place 4096 } ∷ [])

abbrev whole_record : List ℕ
whole_record = 1 ∷ 2 ∷ 3 ∷ 4 ∷ 5 ∷ 6 ∷ []

consume_all_lem_example :
    (s' : RerankConsumer) × (filled : List ℕ) × (consume_all zeros zeros consumer whole_record
        (record { offset = 4096; size = 6 })
      ≡ some s')
    × Consumed 1 s' ((1 ∷ 2 ∷ 3 ∷ 4 ∷ [], record { offset = 4096; size = 6 }) ∷ [])
    × (take 2 filled ≡ 5 ∷ 6 ∷ [])
    × ((other : ℕ) → view s' other ≡ (if 4096 == other then some filled else view consumer other))
consume_all_lem_example =
    consume_all_lem zeros zeros 1 consumer [] whole_record (record { offset = 4096; size = 6 })
      zeros-Allocates zeros-Allocates refl (omega arith) (omega arith) consumer-Consumed
