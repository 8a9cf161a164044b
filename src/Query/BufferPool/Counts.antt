-- ===== src/Query/BufferPool/Counts.antt =====
-- How often a buffer stands among entries, and what the operations on lists of entries do to it.
use mathlib.Core.Option.{some-injective}
use vec_fetch.Prelude.{
  ℕ, zero, suc, ◌+◌, ◌-◌, ◌≤◌, ◌≡◌, refl, sym, ap, ◌∙◌, arith, List, [], ◌∷◌, ◌++◌, none, some,
  false, Bool-cases, inl, inr, ◌⊎◌, leb, leb→le, ◌==◌, ==_iff, if◌then◌else◌, length, length-set,
  get_elem?, get_or, get_elem?-eq-get_or, set, take,
}
use vec_fetch.Query.BufferPool.{PoolEntry, find_fit, swap_and_pop, assign, find, erase}

abbrev pub hit : ℕ → ℕ → ℕ
hit buf x = if buf == x then 1 else 0

pub hit_self : (x : ℕ) → hit x x ≡ 1
hit_self x = ground arith

pub hit-cases : (buf x : ℕ) → (hit buf x ≡ 0) ⊎ ((buf ≡ x) × (hit buf x ≡ 1))
hit-cases buf x = elim (Bool-cases (buf == x)) [
  | inl found ↦ inr ((==_iff buf x).0 found, rw found)
  | inr other ↦ inl (rw other)
]

unfoldable pub count : ℕ → List PoolEntry → ℕ
count x [] = 0
count x (e ∷ es) = hit e.buf x + count x es

pub count-append : (x : ℕ) (es fs : List PoolEntry) → count x (es ++ fs) ≡ count x es + count x fs
unfolding count
count-append x [] fs = omega arith
count-append x (e ∷ es) fs = omega (arith, count-append x es fs)

pub count-assign :
    (x buf c : ℕ) (es : List PoolEntry)
    → count buf es ≡ 0
    → count x (assign es buf c) ≡ count x es + hit buf x
unfolding count assign
count-assign x buf c [] h = omega arith
count-assign x buf c (e ∷ es) h =
    let other : (e.buf == buf) ≡ false = ground arith in
    rw other (omega (arith, count-assign x buf c es (omega arith)))

pub find-assign : (buf c : ℕ) (es : List PoolEntry) → find (assign es buf c) buf ≡ some c
unfolding find assign
find-assign buf c [] = let same = (==_iff buf buf).1 refl in rw same
find-assign buf c (e ∷ es) =
    let same = (==_iff buf buf).1 refl in
    elim (Bool-cases (e.buf == buf)) [
      | inl found ↦ rw (found, same)
      | inr other ↦ rw (other, other, find-assign buf c es)
    ]

pub find-none : (buf : ℕ) (es : List PoolEntry) → find es buf ≡ none → count buf es ≡ 0
unfolding count find
find-none buf [] h = refl
find-none buf (e ∷ es) h = elim (Bool-cases (e.buf == buf)) [
  | inl found ↦ let absent : some e.capacity ≡ none = rw found at h in cc
  | inr other ↦
      let later : find es buf ≡ none = rw other at h in
      rw other (omega (arith, find-none buf es later))
]

pub count-erase :
    (x buf c : ℕ) (es : List PoolEntry)
    → find es buf ≡ some c
    → count x (erase es buf) + hit buf x ≡ count x es
unfolding count find erase
count-erase x buf c [] h = cc
count-erase x buf c (e ∷ es) h = elim (Bool-cases (e.buf == buf)) [
  | inl found ↦
      let same : e.buf ≡ buf = (==_iff e.buf buf).0 found in
      rw found (omega (arith, ap (λ (b : ℕ). hit b x) same))
  | inr other ↦
      let later : find es buf ≡ some c = rw other at h in
      rw other (omega (arith, count-erase x buf c es later))
]

-- A new capacity under an address leaves the other addresses as they are.
pub count-assign_other :
    (x buf c : ℕ) (es : List PoolEntry) → hit buf x ≡ 0 → count x (assign es buf c) ≡ count x es
unfolding count assign
count-assign_other x buf c [] h = omega arith
count-assign_other x buf c (e ∷ es) h = elim (Bool-cases (e.buf == buf)) [
  | inl found ↦
      let same : hit e.buf x ≡ hit buf x = ap (λ (b : ℕ). hit b x) ((==_iff e.buf buf).0 found) in
      rw found (omega arith)
  | inr other ↦ rw other (omega (arith, count-assign_other x buf c es h))
]

pub count-assign_self :
    (buf c : ℕ) (es : List PoolEntry) → count buf es ≤ 1 → count buf (assign es buf c) ≤ 1
unfolding count assign
count-assign_self buf c [] h = omega (arith, hit_self buf)
count-assign_self buf c (e ∷ es) h = elim (Bool-cases (e.buf == buf)) [
  | inl found ↦
      let same : hit e.buf buf ≡ hit buf buf =
        ap (λ (b : ℕ). hit b buf) ((==_iff e.buf buf).0 found) in
      rw found (omega (arith, same))
  | inr other ↦
      let none_here : hit e.buf buf ≡ 0 = rw other in
      rw other (omega (arith, none_here, count-assign_self buf c es (omega (arith, none_here))))
]

pub find-absent : (buf : ℕ) (es : List PoolEntry) → count buf es ≡ 0 → find es buf ≡ none
unfolding count find
find-absent buf [] h = refl
find-absent buf (e ∷ es) h =
    let other : (e.buf == buf) ≡ false = ground arith in rw other (find-absent buf es (omega arith))

-- What is left once the buffer is erased.
pub find-erase :
    (buf other : ℕ) (es : List PoolEntry)
    → count buf es ≤ 1
    → find (erase es buf) other ≡ (if buf == other then none else find es other)
unfolding count find erase
find-erase buf other [] h = ground arith
find-erase buf other (e ∷ es) h = elim (Bool-cases (e.buf == buf)) [
  | inl found ↦
      let same : e.buf ≡ buf = (==_iff e.buf buf).0 found in
      let gone : find es buf ≡ none =
        find-absent buf es (omega (arith, hit_self buf, ap (λ (b : ℕ). hit b buf) same)) in
      elim (Bool-cases (buf == other)) [
        | inl this ↦ rw (found, this) (ap (find es) (sym ((==_iff buf other).0 this)) ∙ gone)
        | inr differs ↦
            let passes : (e.buf == other) ≡ false = rw same differs in rw (found, differs, passes)
      ]
  | inr kept ↦
      let later = find-erase buf other es (omega arith) in
      elim (Bool-cases (e.buf == other)) [
        | inl here ↦ let differs : (buf == other) ≡ false = ground arith in rw (kept, here, differs)
        | inr passes ↦ rw (kept, passes, later)
      ]
]

pub find_fit_lem :
    (es : List PoolEntry) (size i j : ℕ) (e : PoolEntry)
    → find_fit es size i ≡ some (j, e)
    → (k : ℕ) × (j ≡ i + k) × (get_elem? es k ≡ some e) × (size ≤ e.capacity)
unfolding find_fit
find_fit_lem [] size i j e h = cc
find_fit_lem (f ∷ es) size i j e h = elim (Bool-cases (leb size f.capacity)) [
  | inl fits ↦
      let here : ℕ × PoolEntry = (i, f) in
      let there : ℕ × PoolEntry = (j, e) in
      let first : some here ≡ some there = rw fits at h in
      let same : here ≡ there = some-injective here there first in
      let entry : f ≡ e = ap (λ (q : ℕ × PoolEntry). q.1) same in
      let index : i ≡ j = ap (λ (q : ℕ × PoolEntry). q.0) same in
      (
        0,
        omega arith,
        ap some entry,
        omega (arith, leb→le size f.capacity fits, ap (λ (q : PoolEntry). q.capacity) entry),
      )
  | inr small ↦
      let later : find_fit es size (i + 1) ≡ some (j, e) = rw small at h in
      let (k, at, found, large) = find_fit_lem es size (i + 1) j e later in
      (suc k, omega arith, found, large)
]

count-set :
    (x k : ℕ) (es : List PoolEntry) (e v : PoolEntry)
    → get_elem? es k ≡ some e
    → count x (set es k v) + hit e.buf x ≡ count x es + hit v.buf x
unfolding count
count-set x k [] e v h = cc
count-set x zero (f ∷ es) e v h =
    let same : f ≡ e = some-injective f e h in
    omega (arith, ap (λ (q : PoolEntry). hit q.buf x) same)
count-set x (suc k) (f ∷ es) e v h = omega (arith, count-set x k es e v h)

count-take :
    (x n : ℕ) (es : List PoolEntry) (v : PoolEntry)
    → length es ≡ suc n
    → get_elem? es n ≡ some v
    → count x (take n es) + hit v.buf x ≡ count x es
unfolding count
count-take x n [] v hn h = absurd (omega arith)
count-take x zero (e ∷ []) v hn h =
    let same : e ≡ v = some-injective e v h in
    omega (arith, ap (λ (q : PoolEntry). hit q.buf x) same)
count-take x zero (e ∷ f ∷ es) v hn h = absurd (omega arith)
count-take x (suc n) (e ∷ es) v hn h = omega (arith, count-take x n es v (omega arith) h)

get_elem?-set :
    (n k : ℕ) (es : List PoolEntry) (v : PoolEntry)
    → get_elem? es n ≡ some v
    → get_elem? (set es k v) n ≡ some v
get_elem?-set n k [] v h = h
get_elem?-set zero zero (e ∷ es) v h = refl
get_elem?-set (suc n) zero (e ∷ es) v h = h
get_elem?-set zero (suc k) (e ∷ es) v h = h
get_elem?-set (suc n) (suc k) (e ∷ es) v h = get_elem?-set n k es v h

-- The entry at `k` leaves the pool, and the others stay.
pub swap_and_pop_lem :
    (es : List PoolEntry) (k : ℕ) (e : PoolEntry)
    → get_elem? es k ≡ some e
    → (rest : List PoolEntry) × (swap_and_pop es k ≡ some rest)
      × ((x : ℕ) → count x rest + hit e.buf x ≡ count x es)
unfolding swap_and_pop
swap_and_pop_lem [] k e h = cc
swap_and_pop_lem (f ∷ es) k e h =
    let all : List PoolEntry = f ∷ es in
    let n = length es in
    let v = get_or all n e in
    let back : get_elem? all n ≡ some v = get_elem?-eq-get_or all n e (omega arith) in
    let size : length all - 1 ≡ n = omega arith in
    (
      take n (set all k v),
      rw (size, back),
      λ x. omega (
        arith,
        count-set x k all e v h,
        count-take x n (set all k v) v (length-set all k v) (get_elem?-set n k all v back),
      ),
    )
