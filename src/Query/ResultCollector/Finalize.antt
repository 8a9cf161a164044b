-- ===== src/Query/ResultCollector/Finalize.antt =====
-- Finalize hands out what the heap holds, nearest first.
use vec_fetch.Prelude.{
  ℕ, zero, suc, ◌+◌, ◌≤◌, ◌<◌, ◌≡◌, sym, ap, ◌∙◌, arith, Bool, true, List, [], ◌∷◌, some,
  Option-cases, inl, inr, ltb, All, length,
}
use vec_fetch.Query.ResultCollector.{
  CollectorEntry, tally, PriorityQueue, ResultCollector, heap_size, drain, reverse_onto, finalize,
}
use vec_fetch.Query.ResultCollector.Tally.{tally-all, tally-reverse_nil}

abbrev pub IsAscending : List CollectorEntry → Type 0
IsAscending [] = Unit
IsAscending (e ∷ es) = All (λ f. e.distance ≤ f.distance) es × IsAscending es

abbrev pub over : ℕ → CollectorEntry → Bool
over d f = ltb d f.distance

-- Nothing in `held` is farther than any of `acc`.
abbrev Under : List CollectorEntry → List CollectorEntry → Type 0
Under acc held = All (λ b. tally (over b.distance) held ≡ 0) acc

module _ (pq : PriorityQueue) where
  -- What the loop leaves and hands out.
  record IsDrained (q : pq.Queue) (results : List CollectorEntry) (rest : pq.Queue) : Type 0 where
    empty : pq.entries rest ≡ []
    same : (p : CollectorEntry → Bool) → tally p results ≡ tally p (pq.entries q)
    sorted :
        (acc : List CollectorEntry)
        → IsAscending acc
        → Under acc (pq.entries q)
        → IsAscending (reverse_onto results acc)

  next_round :
      (m : CollectorEntry) (q : pq.Queue) (acc : List CollectorEntry)
      → pq.top q ≡ some m
      → Under acc (pq.entries q)
      → All (λ b. m.distance ≤ b.distance) acc × Under acc (pq.entries (pq.pop q))
  next_round m q [] h u = (tt, tt)
  next_round m q (b ∷ acc) h (u, us) =
      let (les, unders) = next_round m q acc h us in
      let popped = pq.tally-pop q m (over b.distance) h in
      ((ground (arith, popped), les), (omega (arith, popped), unders))

  drain_lem :
      (fuel : ℕ) (q : pq.Queue)
      → length (pq.entries q) < fuel
      → (results : List CollectorEntry) × (rest : pq.Queue) × (drain pq fuel q
          ≡ some (results, rest))
        × IsDrained q results rest
  unfolding drain reverse_onto tally
  drain_lem zero q h = absurd (omega arith)
  drain_lem (suc fuel) q h = elim (Option-cases (pq.top q)) [
    | inl nothing ↦
        let empty = pq.top_none q nothing in
        (
          [],
          q,
          rw (drain, nothing),
          record { empty = empty; same = λ p. ap (tally p) (sym empty); sorted = λ acc a u. a },
        )
    | inr (m, on_top) ↦
        let one_less = pq.tally-pop q m (λ _. true) on_top in
        let (results, rest, run, d) =
          drain_lem fuel (pq.pop q) (
            omega (arith, one_less, tally-all (pq.entries q), tally-all (pq.entries (pq.pop q)))) in
        (
          m ∷ results,
          rest,
          rw (drain, on_top, run),
          record {
            empty = d.empty;
            same = λ p. omega (arith, d.same p, pq.tally-pop q m p on_top);
            sorted = λ acc a u.
                let (les, unders) = next_round m q acc on_top u in
                d.sorted (m ∷ acc) (les, a)
                  (
                    omega (arith, pq.top_max q m on_top, pq.tally-pop q m (over m.distance) on_top),
                    unders,
                  );
          },
        )
  ]

  -- Finalize ends. It hands out exactly the entries of the heap, by ascending distance, and leaves the
  -- heap empty.
  pub finalize_lem :
      (c : ResultCollector pq)
      → (results : List CollectorEntry) × (c' : ResultCollector pq) × (finalize pq c
          ≡ some (results, c'))
        × (pq.entries c'.heap ≡ [])
        × IsAscending results
        × ((p : CollectorEntry → Bool) → tally p results ≡ tally p (pq.entries c.heap))
  unfolding finalize
  finalize_lem c =
      let (results, heap, run, d) = drain_lem (heap_size pq c + 1) c.heap (omega arith) in
      (
        reverse_onto results [],
        record c { heap = heap },
        rw run,
        d.empty,
        d.sorted [] tt tt,
        λ p. tally-reverse_nil p results ∙ d.same p,
      )
