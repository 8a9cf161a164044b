-- ===== src/Tests/Query.antt =====
-- Concrete runs of the query pipeline's parts.
use vec_fetch.Prelude.{
  Bool, ℕ, ◌+◌, ◌*◌, ◌/◌, ◌^◌, ◌-◌, ◌≡◌, refl, arith, List, [], ◌∷◌, ◌++◌, ◌==◌, none, some, leb,
  if◌then◌else◌,
}
use vec_fetch.Query.BufferPool.{
  BufferPool, find, aligned_size, acquire, acquire_found, allocate, find_fit, assign, release,
}
use vec_fetch.Query.BufferPool.Align.{aligned_size_lem}
use vec_fetch.Query.BufferPool.Counts.{count}
use vec_fetch.Query.BufferPool.Ownership.{
  live, IsDisjoint, IsAcquired, acquire-IsAcquired, freed, release_lem,
}
use vec_fetch.Query.BufferPool.Reach.{
  no_buffers, Reachable, Reachable-IsDisjoint, start, next, acquiring, releasing,
}
use vec_fetch.Query.ResultCollector.{
  CollectorEntry, ResultCollector, make_collector, insert_all, finalize, tally,
}
use vec_fetch.Query.ResultCollector.Insert.{IsNearest, insert_all-IsNearest}
use vec_fetch.Query.ResultCollector.Finalize.{IsAscending, finalize_lem}
use vec_fetch.Tests.ListQueue.{list_queue}

aligned_size_lem_example :
    aligned_size 4294963201
    ≡ (if leb 4294963201 (2 ^ 32 - 4096) then (4294963201 + 4095) / 4096 * 4096 else 0)
aligned_size_lem_example = aligned_size_lem 4294963201 (omega arith)

abbrev two_buffers : BufferPool
two_buffers = record {
  pool = record { buf = 8192; capacity = 4096 } ∷ [];
  outstanding = record { buf = 16384; capacity = 8192 } ∷ [];
}

two_buffers-IsDisjoint : IsDisjoint two_buffers
unfolding IsDisjoint count
two_buffers-IsDisjoint x = ground arith

unknown : (raw : ℕ) → raw ≡ 32768 → live raw two_buffers ≡ 0
unfolding count
unknown raw h = ground arith

acquire-IsAcquired_example :
    (s' : BufferPool) × (buf : ℕ) × (acquire two_buffers 4000 (some 32768) ≡ some (s', buf))
    × IsAcquired two_buffers 4000 s' buf
acquire-IsAcquired_example =
    acquire-IsAcquired two_buffers 4000 32768 two_buffers-IsDisjoint (unknown 32768 refl)
      (omega arith)

release_lem_example :
    ((release two_buffers 16384).pool
      ≡ two_buffers.pool ++ freed 16384 (find two_buffers.outstanding 16384))
    × ((other : ℕ)
        → find (release two_buffers 16384).outstanding other
          ≡ (if 16384 == other then none else find two_buffers.outstanding other))
    × ((x : ℕ) → live x (release two_buffers 16384) ≡ live x two_buffers)
release_lem_example = release_lem two_buffers 16384 two_buffers-IsDisjoint

abbrev addresses : List ℕ
addresses = 32768 ∷ 36864 ∷ []

abbrev one_acquired : BufferPool
one_acquired = record { pool = []; outstanding = record { buf = 4096; capacity = 8192 } ∷ [] }

one_acquired-run : acquire no_buffers 5000 (some 4096) ≡ some (one_acquired, 4096)
unfolding acquire acquire_found allocate find_fit aligned_size assign
one_acquired-run = refl

two_calls : Reachable (release one_acquired 4096)
two_calls =
    next one_acquired (release one_acquired 4096)
      (next no_buffers one_acquired start
        (acquiring no_buffers one_acquired 5000 4096 4096 (unfold count in refl) one_acquired-run))
      (releasing one_acquired 4096)

Reachable-IsDisjoint_example : IsDisjoint (release one_acquired 4096)
Reachable-IsDisjoint_example = Reachable-IsDisjoint (release one_acquired 4096) two_calls

abbrev found : ℕ → CollectorEntry
found distance = record {
  distance = distance;
  addr = record { offset = distance * 4096; size = 4096 };
}

abbrev three_found : List CollectorEntry
three_found = found 7 ∷ found 3 ∷ found 5 ∷ []

insert_all-IsNearest_example :
    (c : ResultCollector list_queue) × (insert_all list_queue
        (make_collector list_queue 2)
        three_found
      ≡ some c)
    × IsNearest 2 three_found c.heap
insert_all-IsNearest_example = insert_all-IsNearest list_queue 2 three_found (omega arith)

abbrev holding_three : ResultCollector list_queue
holding_three = record { top_k = 4; heap = three_found }

finalize_lem_example :
    (results : List CollectorEntry) × (c' : ResultCollector list_queue) × (finalize list_queue
        holding_three
      ≡ some (results, c'))
    × (c'.heap ≡ [])
    × IsAscending results
    × ((p : CollectorEntry → Bool) → tally p results ≡ tally p three_found)
finalize_lem_example = finalize_lem list_queue holding_three
