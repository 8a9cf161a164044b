-- ===== src/Query/BufferPool/Reach.antt =====
-- The runs of the pool: any sequence of its operations from the empty pool.
use mathlib.Core.List.{append_assoc, append-nil}
use mathlib.Core.Path.{subst}
use mathlib.Core.Option.{some-injective}
use vec_fetch.Prelude.{
  ℕ, ◌+◌, ◌≡◌, refl, sym, ap, ◌∙◌, arith, List, [], ◌∷◌, ◌++◌, some, map, All, inl, inr,
}
use vec_fetch.Query.BufferPool.{BufferPool, aligned_size, acquire, release, prime}
use vec_fetch.Query.BufferPool.Counts.{hit, count, count-append, hit-cases}
use vec_fetch.Query.BufferPool.Ownership.{live, IsDisjoint, acquire-IsDisjoint, release_lem}

abbrev pub Distinct : List ℕ → Type 0
Distinct [] = Unit
Distinct (raw ∷ raws) = All (λ b. hit raw b ≡ 0) raws × Distinct raws

abbrev pub primed : BufferPool → ℕ → ℕ → BufferPool
primed s size raw = record {
  pool = s.pool ++ record { buf = raw; capacity = aligned_size size } ∷ [];
  outstanding = s.outstanding;
}

live-primed :
    (x : ℕ) (s : BufferPool) (size raw : ℕ) → live x (primed s size raw) ≡ live x s + hit raw x
unfolding count
live-primed x s size raw =
    omega (arith, count-append x s.pool (record { buf = raw; capacity = aligned_size size } ∷ []))

still_unknown :
    (s : BufferPool) (size raw : ℕ) (raws : List ℕ)
    → All (λ b. hit raw b ≡ 0) raws
    → All (λ b. live b s ≡ 0) raws
    → All (λ b. live b (primed s size raw) ≡ 0) raws
still_unknown s size raw [] h u = tt
still_unknown s size raw (b ∷ raws) (h, hs) (u, us) =
    (omega (arith, live-primed b s size raw), still_unknown s size raw raws hs us)

pub prime_lem :
    (s : BufferPool) (size : ℕ) (raws : List ℕ)
    → IsDisjoint s
    → All (λ b. live b s ≡ 0) raws
    → Distinct raws
    → (s' : BufferPool) × (prime s size (map some raws) ≡ some s')
      × (s'.pool ≡ s.pool ++ map (λ raw. record { buf = raw; capacity = aligned_size size }) raws)
      × (s'.outstanding ≡ s.outstanding)
      × IsDisjoint s'
unfolding prime
prime_lem s size [] d u v = (s, refl, sym (append-nil s.pool), refl, d)
prime_lem s size (raw ∷ raws) d (u, us) (v, vs) =
    let once : IsDisjoint (primed s size raw) =
      unfold IsDisjoint in
      λ x. elim (hit-cases raw x) [
        | inl other ↦ omega (arith, live-primed x s size raw, d x)
        | inr (same, once) ↦
            let unknown : live x s ≡ 0 = ap (λ (y : ℕ). live y s) (sym same) ∙ u in
            omega (arith, live-primed x s size raw)
      ] in
    let (s', run, pool, outstanding, disjoint) =
      prime_lem (primed s size raw) size raws once (still_unknown s size raw raws v us) vs in
    (s', run, pool ∙ append_assoc s.pool _ _, outstanding, disjoint)

-- One call. The allocator gives Acquire, of any size, no address of a free buffer, and Prime distinct
-- addresses that the pool does not know. It may give Acquire the address of a buffer that was freed
-- without Release: one that is still recorded as in use.
pub data Step : BufferPool → BufferPool → Type 0 where
  acquiring :
      (s s' : BufferPool) (size raw buf : ℕ)
      → count raw s.pool ≡ 0
      → acquire s size (some raw) ≡ some (s', buf)
      → Step s s'
  releasing : (s : BufferPool) (buf : ℕ) → Step s (release s buf)
  priming :
      (s s' : BufferPool) (size : ℕ) (raws : List ℕ)
      → All (λ b. live b s ≡ 0) raws
      → Distinct raws
      → prime s size (map some raws) ≡ some s'
      → Step s s'

abbrev pub no_buffers : BufferPool
no_buffers = record { pool = []; outstanding = [] }

pub data Reachable : BufferPool → Type 0 where
  start : Reachable no_buffers
  next : (s s' : BufferPool) → Reachable s → Step s s' → Reachable s'

Step-IsDisjoint : (s s' : BufferPool) → Step s s' → IsDisjoint s → IsDisjoint s'
Step-IsDisjoint s s' (acquiring _ _ size raw buf fresh run) d =
    acquire-IsDisjoint s s' size raw buf d fresh run
Step-IsDisjoint s s' (releasing _ buf) d =
    let (pool, others, kept) = release_lem s buf d in
    unfold IsDisjoint in λ x. omega (arith, kept x, d x)
Step-IsDisjoint s s' (priming _ _ size raws u v run) d =
    let (s₁, run₁, pool, outstanding, disjoint) = prime_lem s size raws d u v in
    subst IsDisjoint (some-injective s₁ s' (sym run₁ ∙ run)) disjoint

-- Any sequence of Acquire, Release and Prime from the empty pool, with any sizes and any buffers to
-- release, leaves no buffer known twice: none is free and in use at once, and none is free or in use
-- twice. The allocator gives Acquire no address of a free buffer, and Prime distinct addresses that
-- the pool does not know.
pub Reachable-IsDisjoint : (s : BufferPool) → Reachable s → IsDisjoint s
Reachable-IsDisjoint s start = unfold IsDisjoint in λ x. unfold count in omega arith
Reachable-IsDisjoint s (next s₀ _ r step) = Step-IsDisjoint s₀ s step (Reachable-IsDisjoint s₀ r)
