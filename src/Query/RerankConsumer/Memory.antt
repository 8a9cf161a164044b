-- ===== src/Query/RerankConsumer/Memory.antt =====
-- Lemmas on the memory of a chunk and on the list of the chunks.
use mathlib.Core.List.{append_assoc}
use vec_fetch.Prelude.{
  ℕ, zero, suc, ◌+◌, ◌≤◌, ◌≡◌, ◌≢◌, refl, sym, ap, ◌∙◌, arith, List, [], ◌∷◌, ◌++◌, Option, none,
  some, le→leb, length, length-append, length-take, length-drop, get_elem?, set, take, drop,
  take-append, drop-append, All,
}
use vec_fetch.Query.RerankConsumer.{write_at, read_at}

module _ {ℓ} {A : Type ℓ} where
  pub get_elem?-append :
      (xs ys : List A) (i : ℕ) (a : A) → get_elem? xs i ≡ some a → get_elem? (xs ++ ys) i ≡ some a
  get_elem?-append [] ys i a h = absurd (let never : ◌≡◌ {A = Option A} none (some a) = h in cc)
  get_elem?-append (x ∷ xs) ys zero a h = h
  get_elem?-append (x ∷ xs) ys (suc i) a h = get_elem?-append xs ys i a h

  pub get_elem?-append_last : (xs : List A) (a : A) → get_elem? (xs ++ a ∷ []) (length xs) ≡ some a
  get_elem?-append_last [] a = refl
  get_elem?-append_last (x ∷ xs) a = get_elem?-append_last xs a

  pub get_elem?-set_same :
      (xs : List A) (i : ℕ) (a v : A) → get_elem? xs i ≡ some a → get_elem? (set xs i v) i ≡ some v
  get_elem?-set_same [] i a v h = absurd (let never : ◌≡◌ {A = Option A} none (some a) = h in cc)
  get_elem?-set_same (x ∷ xs) zero a v h = refl
  get_elem?-set_same (x ∷ xs) (suc i) a v h = get_elem?-set_same xs i a v h

  pub get_elem?-set_other :
      (xs : List A) (i j : ℕ) (v : A) → i ≢ j → get_elem? (set xs i v) j ≡ get_elem? xs j
  get_elem?-set_other [] i j v h = refl
  get_elem?-set_other (x ∷ xs) zero zero v h = absurd (h refl)
  get_elem?-set_other (x ∷ xs) zero (suc j) v h = refl
  get_elem?-set_other (x ∷ xs) (suc i) zero v h = refl
  get_elem?-set_other (x ∷ xs) (suc i) (suc j) v h =
      get_elem?-set_other xs i j v (λ e. h (ap suc e))

  pub All-get_elem? {κ} :
      (P : A → Type κ) (xs : List A) (i : ℕ) (a : A)
      → All P xs
      → get_elem? xs i ≡ some a
      → (b : A) × (a ≡ b) × P b
  All-get_elem? P [] i a h e = absurd (let never : ◌≡◌ {A = Option A} none (some a) = e in cc)
  All-get_elem? P (x ∷ xs) zero a (h, hs) e =
      (x, (let same : ◌≡◌ {A = Option A} (some x) (some a) = e in cc), h)
  All-get_elem? P (x ∷ xs) (suc i) a (h, hs) e = All-get_elem? P xs i a hs e

  pub All-set {κ} :
      (P : A → Type κ) (xs : List A) (i : ℕ) (v : A) → All P xs → P v → All P (set xs i v)
  All-set P [] i v h p = h
  All-set P (x ∷ xs) zero v (h, hs) p = (p, hs)
  All-set P (x ∷ xs) (suc i) v (h, hs) p = (h, All-set P xs i v hs p)

  pub All-push {κ} : (P : A → Type κ) (xs : List A) (v : A) → All P xs → P v → All P (xs ++ v ∷ [])
  All-push P [] v h p = (p, tt)
  All-push P (x ∷ xs) v (h, hs) p = (h, All-push P xs v hs p)

  take-take_append :
      (n off : ℕ) (xs ys : List A)
      → n ≤ off
      → off ≤ length xs
      → take n (take off xs ++ ys) ≡ take n xs
  take-take_append zero off xs ys h k = refl
  take-take_append (suc n) zero xs ys h k = absurd (omega arith)
  take-take_append (suc n) (suc off) [] ys h k = absurd (omega arith)
  take-take_append (suc n) (suc off) (x ∷ xs) ys h k =
      ap (λ (l : List A). x ∷ l) (take-take_append n off xs ys (omega arith) (omega arith))

  -- What is before `off` does not see what follows.
  pub slice-before :
      (o n off : ℕ) (xs ys : List A)
      → o + n ≤ off
      → off ≤ length xs
      → take n (drop o (take off xs ++ ys)) ≡ take n (drop o xs)
  slice-before zero n off xs ys h k = take-take_append n off xs ys (omega arith) k
  slice-before (suc o) n zero xs ys h k = absurd (omega arith)
  slice-before (suc o) n (suc off) [] ys h k = absurd (omega arith)
  slice-before (suc o) n (suc off) (x ∷ xs) ys h k =
      slice-before o n off xs ys (omega arith) (omega arith)

-- A copy into a memory with room for it: the memory keeps its length and what is before the copy, and
-- the copy is there.
pub write_at_lem :
    (memory : List ℕ) (offset : ℕ) (bs : List ℕ)
    → offset + length bs ≤ length memory
    → (after : List ℕ) × (write_at memory offset bs ≡ some after)
      × (length after ≡ length memory)
      × (take (length bs) (drop offset after) ≡ bs)
      × ((o n : ℕ) → o + n ≤ offset → take n (drop o after) ≡ take n (drop o memory))
unfolding write_at
write_at_lem memory offset bs h =
    let behind = drop (offset + length bs) memory in
    let first : length (take offset memory) ≡ offset = omega (arith, length-take offset memory) in
    let flat : take offset memory ++ bs ++ behind ≡ take offset memory ++ (bs ++ behind) =
      append_assoc (take offset memory) bs behind in
    let after = take offset memory ++ (bs ++ behind) in
    (
      after,
      rw (le→leb (offset + length bs) (length memory) h, flat),
      omega (
        arith,
        length-append (take offset memory) (bs ++ behind),
        length-append bs behind,
        first,
        length-drop (offset + length bs) memory,
      ),
      ap (λ (k : ℕ). take (length bs) (drop k after)) (sym first)
          ∙ ap (take (length bs)) (drop-append (take offset memory) (bs ++ behind))
          ∙ take-append (length bs) bs behind refl,
      λ o n inside. slice-before o n offset memory (bs ++ behind) inside (omega arith),
    )

pub read_at_lem :
    (memory : List ℕ) (offset count : ℕ)
    → offset + count ≤ length memory
    → read_at memory offset count ≡ some (take count (drop offset memory))
unfolding read_at
read_at_lem memory offset count h = rw (le→leb (offset + count) (length memory) h)
