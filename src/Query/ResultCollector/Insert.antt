-- ===== src/Query/ResultCollector/Insert.antt =====
-- The heap holds the nearest of the entries inserted.
use mathlib.Core.Path.{subst}
use vec_fetch.Prelude.{
  ℕ, ◌+◌, ◌≤◌, ◌<◌, ◌≡◌, refl, sym, ap, ◌∙◌, arith, min, Bool, true, false, Bool-cases, inl, inr,
  List, [], ◌∷◌, some, Option-cases, ltb, lt→ltb, ltb→lt, if◌then◌else◌, length,
}
use vec_fetch.Query.ResultCollector.{
  CollectorEntry, tally, PriorityQueue, reverse_onto, ResultCollector, make_collector, heap_size,
  try_insert, insert_all,
}
use vec_fetch.Query.ResultCollector.Tally.{
  below, tally-le_length, tally-all, tally-reverse_nil, tally-below_max,
}

-- The heap `q` holds the `k` nearest of the entries `es`: for every bound as many below it as there
-- are among `es`, up to `k`; and none that is not among `es`.
pub record IsNearest (k : ℕ) (es held : List CollectorEntry) : Type 0 where
  pub size : length held ≡ min k (length es)
  pub nearest : (t : ℕ) → tally (below t) held ≡ min k (tally (below t) es)
  pub among : (p : CollectorEntry → Bool) → tally p held ≤ tally p es

-- The first entries.
IsNearest-room :
    (k : ℕ) (es held held' : List CollectorEntry) (e : CollectorEntry)
    → IsNearest k es held
    → length held < k
    → ((p : CollectorEntry → Bool) → tally p held' ≡ (if p e then 1 else 0) + tally p held)
    → IsNearest k (e ∷ es) held'
unfolding tally
IsNearest-room k es held held' e n room push = record {
  size = omega (arith, n.size, push (λ _. true), tally-all held, tally-all held');
  nearest = λ t. ground (arith, n.size, n.nearest t, push (below t), tally-le_length (below t) es);
  among = λ p. omega (arith, push p, n.among p);
}

-- A nearer entry takes the place of the farthest.
IsNearest-replace :
    (k : ℕ) (es held popped held' : List CollectorEntry) (m e : CollectorEntry)
    → IsNearest k es held
    → k ≤ length held
    → tally (λ f. ltb m.distance f.distance) held ≡ 0
    → ((p : CollectorEntry → Bool) → tally p popped + (if p m then 1 else 0) ≡ tally p held)
    → ((p : CollectorEntry → Bool) → tally p held' ≡ (if p e then 1 else 0) + tally p popped)
    → e.distance < m.distance
    → IsNearest k (e ∷ es) held'
unfolding tally
IsNearest-replace k es held popped held' m e n full max pop push near =
    let total = pop (λ _. true) in
    record {
      size = omega (
        arith,
        n.size,
        total,
        push (λ _. true),
        tally-all held,
        tally-all popped,
        tally-all held',
      );
      nearest = λ t. elim (Bool-cases (ltb m.distance t)) [
        | inl past ↦
            let whole = tally-below_max m.distance t held max (ltb→lt m.distance t past) in
            let closer : ltb e.distance t ≡ true =
              lt→ltb e.distance t (omega (arith, ltb→lt m.distance t past)) in
            let removed : tally (below t) popped + 1 ≡ tally (below t) held =
              rw past at (pop (below t)) in
            let added : tally (below t) held' ≡ 1 + tally (below t) popped =
              rw closer at (push (below t)) in
            rw closer (omega (arith, n.size, n.nearest t, tally-le_length (below t) es))
        | inr short ↦
            let removed : tally (below t) popped + 0 ≡ tally (below t) held =
              rw short at (pop (below t)) in
            ground (
              arith,
              n.size,
              n.nearest t,
              total,
              push (below t),
              tally-le_length (below t) popped,
              tally-all held,
              tally-all popped,
              tally-le_length (below t) es,
            )
      ];
      among = λ p. omega (arith, push p, pop p, n.among p);
    }

-- An entry that is not nearer is dropped.
IsNearest-drop :
    (k : ℕ) (es held : List CollectorEntry) (m e : CollectorEntry)
    → IsNearest k es held
    → k ≤ length held
    → tally (λ f. ltb m.distance f.distance) held ≡ 0
    → m.distance ≤ e.distance
    → IsNearest k (e ∷ es) held
unfolding tally
IsNearest-drop k es held m e n full max far = record {
  size = omega (arith, n.size);
  nearest = λ t. elim (Bool-cases (ltb e.distance t)) [
    | inl past ↦
        let whole =
          tally-below_max m.distance t held max (omega (arith, ltb→lt e.distance t past)) in
        rw past (omega (arith, n.size, n.nearest t, tally-le_length (below t) es))
    | inr short ↦ rw short (omega (arith, n.nearest t))
  ];
  among = λ p. omega (arith, n.among p);
}

module _ (pq : PriorityQueue) where
  insert_lem :
      (c : ResultCollector pq) (es : List CollectorEntry) (e : CollectorEntry)
      → 0 < c.top_k
      → IsNearest c.top_k es (pq.entries c.heap)
      → (c' : ResultCollector pq) × (entered : Bool) × (try_insert pq c e.distance e.addr
          ≡ some (c', entered))
        × (c'.top_k ≡ c.top_k)
        × IsNearest c.top_k (e ∷ es) (pq.entries c'.heap)
  unfolding try_insert
  insert_lem c es e hk n = elim (Bool-cases (ltb (heap_size pq c) c.top_k)) [
    | inl room ↦ rw room (
      record c { heap = pq.push e c.heap },
      true,
      refl,
      refl,
      IsNearest-room c.top_k es (pq.entries c.heap) _ e n (ltb→lt (heap_size pq c) c.top_k room)
          (λ p. pq.tally-push p e c.heap),
    )
    | inr full ↦ elim (Option-cases (pq.top c.heap)) [
      | inl none_left ↦
          let nothing : heap_size pq c ≡ 0 = ap length (pq.top_none c.heap none_left) in
          absurd (ground arith)
      | inr (m, on_top) ↦ elim (Bool-cases (ltb e.distance m.distance)) [
        | inl near ↦
            rw (full, on_top, near)
              (
                record c { heap = pq.push e (pq.pop c.heap) },
                true,
                refl,
                refl,
                IsNearest-replace c.top_k es (pq.entries c.heap) (pq.entries (pq.pop c.heap)) _ m e
                    n (ground arith) (pq.top_max c.heap m on_top)
                    (λ p. pq.tally-pop c.heap m p on_top) (λ p. pq.tally-push p e (pq.pop c.heap))
                    (ltb→lt e.distance m.distance near),
              )
        | inr far ↦
            rw (full, on_top, far)
              (
                c,
                false,
                refl,
                refl,
                IsNearest-drop c.top_k es (pq.entries c.heap) m e n (ground arith)
                    (pq.top_max c.heap m on_top) (ground arith),
              )
      ]
    ]
  ]

  IsNearest-nil : (k : ℕ) → IsNearest k [] (pq.entries pq.empty)
  unfolding tally
  IsNearest-nil k =
      subst (IsNearest k []) (sym pq.entries-empty)
        (record { size = omega arith; nearest = λ t. omega arith; among = λ p. omega arith })

  insert_all-cons :
      (c c₁ c' : ResultCollector pq) (e : CollectorEntry) (es : List CollectorEntry)
      (entered : Bool)
      → try_insert pq c e.distance e.addr ≡ some (c₁, entered)
      → insert_all pq c₁ es ≡ some c'
      → insert_all pq c (e ∷ es) ≡ some c'
  unfolding insert_all
  insert_all-cons c c₁ c' e es entered run runs = rw run runs

  insert_all_lem :
      (k : ℕ) (c : ResultCollector pq) (prior es : List CollectorEntry)
      → c.top_k ≡ k
      → 0 < k
      → IsNearest k prior (pq.entries c.heap)
      → (c' : ResultCollector pq) × (insert_all pq c es ≡ some c')
        × IsNearest k (reverse_onto es prior) (pq.entries c'.heap)
  unfolding insert_all reverse_onto
  insert_all_lem k c prior [] ek hk n = (c, refl, n)
  insert_all_lem k c prior (e ∷ es) ek hk n =
      let (c₁, entered, run, same, n₁) =
        insert_lem c prior e (omega arith)
          (subst (λ (k' : ℕ). IsNearest k' prior (pq.entries c.heap)) (sym ek) n) in
      let (c', runs, n') =
        insert_all_lem k c₁ (e ∷ prior) es (same ∙ ek) hk
          (subst (λ (k' : ℕ). IsNearest k' (e ∷ prior) (pq.entries c₁.heap)) ek n₁) in
      (c', insert_all-cons c c₁ c' e es entered run runs, n')

  -- TryInsert on entries one after the other, into a collector for one entry or more that is empty,
  -- never reads the top of an empty heap. The heap then holds the nearest of the entries: for every
  -- bound as many below it as there are among the entries, up to the collector's number.
  pub insert_all-IsNearest :
      (top_k : ℕ) (es : List CollectorEntry)
      → 0 < top_k
      → (c : ResultCollector pq) × (insert_all pq (make_collector pq top_k) es ≡ some c)
        × IsNearest top_k es (pq.entries c.heap)
  insert_all-IsNearest top_k es hk =
      let (c, run, n) =
        insert_all_lem top_k (make_collector pq top_k) [] es refl hk (IsNearest-nil top_k) in
      let same : (p : CollectorEntry → Bool) → tally p (reverse_onto es []) ≡ tally p es =
        λ p. tally-reverse_nil p es in
      (
        c,
        run,
        record {
          size =
              omega (arith, n.size, same (λ _. true), tally-all es, tally-all (reverse_onto es []));
          nearest = λ t. omega (arith, n.nearest t, same (below t));
          among = λ p. omega (arith, n.among p, same p);
        },
      )
