-- ===== src/Query/ResultCollector.antt =====
-- src/query/result_collector.cpp and include/vdb/query/result_collector.h: the collector of the
-- nearest records. The code only compares distances: a float that is not NaN is its rank.
pub mod Tally
pub mod Insert
pub mod Finalize
use vec_fetch.Prelude.{
  ℕ, zero, suc, ◌+◌, ◌≤◌, ◌≡◌, Bool, true, false, List, [], ◌∷◌, Option, none, some, ltb, leb, ◌==◌,
  if◌then◌else◌, ◌>>=◌, length,
}
use vec_fetch.Types.{AddressEntry}

pub record CollectorEntry : Type 0 where
  pub distance : ℕ
  pub addr : AddressEntry

-- How many entries pass a test.
unfoldable pub tally : (CollectorEntry → Bool) → List CollectorEntry → ℕ
tally p [] = 0
tally p (e ∷ es) = (if p e then 1 else 0) + tally p es

-- What std::priority_queue promises: `entries` is what it holds, in some order; push adds an entry,
-- top is one that no other exceeds, and pop removes the one on top. Which of several equal
-- entries is on top is open.
pub record PriorityQueue : Type 1 where
  pub Queue : Type 0
  pub empty : Queue
  pub push : CollectorEntry → Queue → Queue
  pub top : Queue → Option CollectorEntry
  pub pop : Queue → Queue
  pub entries : Queue → List CollectorEntry
  pub entries-empty : entries empty ≡ []
  pub tally-push :
      (p : CollectorEntry → Bool) (e : CollectorEntry) (q : Queue)
      → tally p (entries (push e q)) ≡ (if p e then 1 else 0) + tally p (entries q)
  pub top_none : (q : Queue) → top q ≡ none → entries q ≡ []
  pub top_max :
      (q : Queue) (e : CollectorEntry)
      → top q ≡ some e
      → tally (λ f. ltb e.distance f.distance) (entries q) ≡ 0
  pub tally-pop :
      (q : Queue) (e : CollectorEntry) (p : CollectorEntry → Bool)
      → top q ≡ some e
      → tally p (entries (pop q)) + (if p e then 1 else 0) ≡ tally p (entries q)

module _ (pq : PriorityQueue) where
  pub record ResultCollector : Type 0 where
    pub top_k : ℕ
    pub heap : pq.Queue

  abbrev pub make_collector : ℕ → ResultCollector
  make_collector top_k = record { top_k = top_k; heap = pq.empty }

  abbrev pub heap_size : ResultCollector → ℕ
  heap_size c = length (pq.entries c.heap)

  -- `none` is the top of an empty heap, which is undefined.
  unfoldable pub try_insert : ResultCollector → ℕ → AddressEntry → Option (ResultCollector × Bool)
  try_insert c distance addr =
      let entry : CollectorEntry = record { distance = distance; addr = addr } in
      if ltb (heap_size c) c.top_k
      then some (record c { heap = pq.push entry c.heap }, true)
      else do
        worst ← pq.top c.heap
        some (
            if ltb distance worst.distance
            then (record c { heap = pq.push entry (pq.pop c.heap) }, true)
            else (c, false))

  unfoldable pub top_distance : ℕ → ResultCollector → ℕ
  top_distance float_max c = elim (pq.top c.heap) [ none ↦ float_max | some worst ↦ worst.distance ]

  unfoldable pub full : ResultCollector → Bool
  full c = leb c.top_k (heap_size c)

  -- `while (!heap_.empty())`: the entries in the order of the pops, and the heap left. A round pops
  -- one entry: as many rounds as entries, and one to see that none is left, are enough.
  unfoldable pub drain : ℕ → pq.Queue → Option (List CollectorEntry × pq.Queue)
  drain zero heap = none
  drain (suc fuel) heap = elim (pq.top heap) [
    | none ↦ some ([], heap)
    | some worst ↦ do (results, rest) ← drain fuel (pq.pop heap); some (worst ∷ results, rest)
  ]

-- std::reverse
unfoldable pub reverse_onto : List CollectorEntry → List CollectorEntry → List CollectorEntry
reverse_onto [] acc = acc
reverse_onto (e ∷ es) acc = reverse_onto es (e ∷ acc)

module _ (pq : PriorityQueue) where
  unfoldable pub finalize : ResultCollector pq → Option (List CollectorEntry × ResultCollector pq)
  finalize c = do
    (results, heap) ← drain pq (heap_size pq c + 1) c.heap
    some (reverse_onto results [], record c { heap = heap })

  -- The calls of TryInsert for the entries, in order.
  unfoldable pub insert_all : ResultCollector pq → List CollectorEntry → Option (ResultCollector pq)
  insert_all c [] = some c
  insert_all c (e ∷ es) = do (c', _) ← try_insert pq c e.distance e.addr; insert_all c' es
