-- ===== src/Query/BufferPool/Ownership.antt =====
-- Who owns a buffer: the pool or one caller, never both and never twice.
use mathlib.Core.List.{append-nil}
use mathlib.Core.Path.{subst}
use mathlib.Core.Option.{some-injective}
use vec_fetch.Prelude.{
  ℕ, ◌+◌, ◌-◌, ◌^◌, ◌≤◌, ◌≡◌, refl, sym, ap, ◌∙◌, arith, List, [], ◌∷◌, ◌++◌, Option, none, some,
  Option-cases, Bool-cases, ◌==◌, ==_iff, if◌then◌else◌, inl, inr,
}
use vec_fetch.Query.BufferPool.{
  PoolEntry, BufferPool, aligned_size, find_fit, assign, find, reuse, allocate, acquire_found,
  acquire, release_found, release,
}
use vec_fetch.Query.BufferPool.Align.{aligned_size_lem}
use vec_fetch.Query.BufferPool.Counts.{
  hit_self, hit-cases, count, count-append, count-assign, find-assign, count-erase,
  count-assign_other, count-assign_self, find-erase, find_fit_lem, swap_and_pop_lem,
}

-- How often the buffer is known to the pool, free or acquired.
abbrev pub live : ℕ → BufferPool → ℕ
live x s = count x s.pool + count x s.outstanding

-- No buffer is known twice.
unfoldable pub IsDisjoint : BufferPool → Type 0
IsDisjoint s = (x : ℕ) → live x s ≤ 1

-- The buffer `buf` was not in use, is in use now with room for `size` bytes, and no buffer is known
-- twice after.
pub record IsAcquired (s : BufferPool) (size : ℕ) (s' : BufferPool) (buf : ℕ) : Type 0 where
  pub capacity : ℕ
  pub unused : count buf s.outstanding ≡ 0
  pub recorded : find s'.outstanding buf ≡ some capacity
  pub room : size ≤ capacity
  pub disjoint : IsDisjoint s'

reuse_lem :
    (s : BufferPool) (size k : ℕ) (e : PoolEntry)
    → IsDisjoint s
    → find_fit s.pool size 0 ≡ some (k, e)
    → (s' : BufferPool) × (buf : ℕ) × (reuse s k e ≡ some (s', buf)) × IsAcquired s size s' buf
unfolding reuse IsDisjoint
reuse_lem s size k e d h =
    let (i, at, found, large) = find_fit_lem s.pool size 0 k e h in
    let index : i ≡ k = omega arith in
    let (rest, run, left) = swap_and_pop_lem s.pool k e (rw index at found) in
    let unused : count e.buf s.outstanding ≡ 0 =
      omega (arith, left e.buf, d e.buf, hit_self e.buf) in
    (
      record { pool = rest; outstanding = assign s.outstanding e.buf e.capacity },
      e.buf,
      rw run,
      record {
        capacity = e.capacity;
        unused = unused;
        recorded = find-assign e.buf e.capacity s.outstanding;
        room = large;
        disjoint =
            λ x. omega (arith, count-assign x e.buf e.capacity s.outstanding unused, left x, d x);
      },
    )

allocate_lem :
    (s : BufferPool) (size raw : ℕ)
    → IsDisjoint s
    → live raw s ≡ 0
    → (s' : BufferPool) × (buf : ℕ) × (allocate s size (some raw) ≡ some (s', buf))
      × IsAcquired s size s' buf
unfolding allocate IsDisjoint
allocate_lem s size raw d fresh =
    let unused : count raw s.outstanding ≡ 0 = omega arith in
    (
      record { pool = s.pool; outstanding = assign s.outstanding raw size },
      raw,
      refl,
      record {
        capacity = size;
        unused = unused;
        recorded = find-assign raw size s.outstanding;
        room = omega arith;
        disjoint = λ x. elim (hit-cases raw x) [
          | inl other ↦ omega (arith, count-assign x raw size s.outstanding unused, d x, other)
          | inr (same, once) ↦
              let known : live x s ≡ 0 = ap (λ (y : ℕ). live y s) (sym same) ∙ fresh in
              omega (arith, count-assign x raw size s.outstanding unused, known, once)
        ];
      },
    )

IsAcquired-smaller :
    (s : BufferPool) (size size' : ℕ) (run : Option (BufferPool × ℕ))
    → size ≤ size'
    → (s' : BufferPool) × (buf : ℕ) × (run ≡ some (s', buf)) × IsAcquired s size' s' buf
    → (s' : BufferPool) × (buf : ℕ) × (run ≡ some (s', buf)) × IsAcquired s size s' buf
IsAcquired-smaller s size size' run h (s', buf, e, a) = (
  s',
  buf,
  e,
  record {
    capacity = a.capacity;
    unused = a.unused;
    recorded = a.recorded;
    room = omega (arith, a.room);
    disjoint = a.disjoint;
  },
)

-- Acquire, of at most 2^32 - 4096 bytes and with an address from the allocator that the pool does
-- not know, returns a buffer that was not in use and has room for the size; it is recorded as in
-- use, and no buffer is known twice after, if none was before.
pub acquire-IsAcquired :
    (s : BufferPool) (size raw : ℕ)
    → IsDisjoint s
    → live raw s ≡ 0
    → size ≤ 2 ^ 32 - 4096
    → (s' : BufferPool) × (buf : ℕ) × (acquire s size (some raw) ≡ some (s', buf))
      × IsAcquired s size s' buf
unfolding acquire acquire_found
acquire-IsAcquired s size raw d fresh h =
    let large : size ≤ aligned_size size = grind (arith, aligned_size_lem size (omega arith)) in
    elim (Option-cases (find_fit s.pool (aligned_size size) 0)) [
      | inl none_fits ↦ rw none_fits (
          IsAcquired-smaller s size (aligned_size size) (allocate s (aligned_size size) (some raw))
            large (allocate_lem s (aligned_size size) raw d fresh))
      | inr ((k, e), fit) ↦ rw fit (
          IsAcquired-smaller s size (aligned_size size) (reuse s k e) large
            (reuse_lem s (aligned_size size) k e d fit))
    ]

find_absent_erased :
    (s : BufferPool) (buf other : ℕ)
    → find s.outstanding buf ≡ none
    → find s.outstanding other ≡ (if buf == other then none else find s.outstanding other)
find_absent_erased s buf other absent = elim (Bool-cases (buf == other)) [
  | inl this ↦ rw this (ap (find s.outstanding) (sym ((==_iff buf other).0 this)) ∙ absent)
  | inr differs ↦ rw differs
]

-- Acquire of any size keeps every buffer known once at most, where the address from the allocator is
-- not that of a free buffer.
pub acquire-IsDisjoint :
    (s s' : BufferPool) (size raw buf : ℕ)
    → IsDisjoint s
    → count raw s.pool ≡ 0
    → acquire s size (some raw) ≡ some (s', buf)
    → IsDisjoint s'
unfolding acquire acquire_found
acquire-IsDisjoint s s' size raw buf d fresh run =
    let there : BufferPool × ℕ = (s', buf) in
    elim (Option-cases (find_fit s.pool (aligned_size size) 0)) [
      | inl none_fits ↦
          let after : BufferPool = record {
            pool = s.pool;
            outstanding = assign s.outstanding raw (aligned_size size);
          } in
          let here : BufferPool × ℕ = (after, raw) in
          let ran : some here ≡ some there = unfold allocate in rw none_fits at run in
          let same : here ≡ there = some-injective here there ran in
          subst IsDisjoint (ap (λ (q : BufferPool × ℕ). q.0) same) (
            unfold IsDisjoint in
            λ x. elim (hit-cases raw x) [
              | inl other ↦
                  omega
                    (arith, count-assign_other x raw (aligned_size size) s.outstanding other, d x)
              | inr (this, once) ↦
                  subst (λ (y : ℕ). live y after ≤ 1) this
                    (omega (
                      arith,
                      count-assign_self raw (aligned_size size) s.outstanding
                          (omega (arith, d raw)),
                      fresh,
                    ))
            ])
      | inr ((k, e), fit) ↦
          let (s₁, buf₁, run₁, a) = reuse_lem s (aligned_size size) k e d fit in
          let here : BufferPool × ℕ = (s₁, buf₁) in
          let ran : reuse s k e ≡ some there = rw fit at run in
          let same : here ≡ there = some-injective here there (sym run₁ ∙ ran) in
          subst IsDisjoint (ap (λ (q : BufferPool × ℕ). q.0) same) a.disjoint
    ]

-- What Release adds to the pool.
unfoldable pub freed : ℕ → Option ℕ → List PoolEntry
freed buf none = []
freed buf (some capacity) = record { buf = buf; capacity = capacity } ∷ []

-- Release of a buffer in use adds it to the end of the pool with its capacity, and Release of any other
-- buffer adds nothing; the rest of the pool stays. The buffer is not in use after, and any other
-- buffer is in use with the capacity that it had, or not in use, as before. Every buffer is known as
-- often as before. This holds of a pool in which no buffer is known twice.
pub release_lem :
    (s : BufferPool) (buf : ℕ)
    → IsDisjoint s
    → ((release s buf).pool ≡ s.pool ++ freed buf (find s.outstanding buf))
      × ((other : ℕ)
          → find (release s buf).outstanding other
            ≡ (if buf == other then none else find s.outstanding other))
      × ((x : ℕ) → live x (release s buf) ≡ live x s)
unfolding release release_found IsDisjoint count freed
release_lem s buf d = elim (Option-cases (find s.outstanding buf)) [
  | inl absent ↦
      rw absent (sym (append-nil s.pool), λ other. find_absent_erased s buf other absent, λ x. refl)
  | inr (c, present) ↦ rw present (
    refl,
    λ other. find-erase buf other s.outstanding (omega (arith, d buf)),
    λ x. omega (
      arith,
      count-append x s.pool (record { buf = buf; capacity = c } ∷ []),
      count-erase x buf c s.outstanding present,
    ),
  )
]
