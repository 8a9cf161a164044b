-- ===== src/Codec/Dict/Index.antt =====
-- The map holds the indices of the dictionary, as it grows.
use mathlib.Core.Option.{some-injective}
use vec_fetch.Prelude.{
  ℕ, zero, suc, ◌≡◌, ◌↔◌, refl, sym, ap, ◌∙◌, true, false, Bool-cases, inl, inr, ◌⊎◌, List, [], ◌∷◌,
  ◌++◌, none, some, ◌==◌, ==_iff, length, get_elem?,
}
use vec_fetch.Codec.Dict.{Bytes, same_bytes, find_index}

same_bytes_refl : (xs : Bytes) → same_bytes xs xs ≡ true
unfolding same_bytes
same_bytes_refl [] = refl
same_bytes_refl (x ∷ xs) = let e = (==_iff x x).1 refl in rw (e, same_bytes_refl xs)

same_bytes_sound : (xs ys : Bytes) → same_bytes xs ys ≡ true → xs ≡ ys
unfolding same_bytes
same_bytes_sound [] [] h = refl
same_bytes_sound [] (y ∷ ys) h = cc
same_bytes_sound (x ∷ xs) [] h = cc
same_bytes_sound (x ∷ xs) (y ∷ ys) h = elim (Bool-cases (x == y)) [
  | inl same ↦
      let rest : same_bytes xs ys ≡ true = rw same at h in
      let first : x ≡ y = (==_iff x y).0 same in rw (first, same_bytes_sound xs ys rest)
  | inr other ↦ let never : false ≡ true = rw other at h in cc
]

-- The map finds exactly the places of the dictionary.
unfoldable pub IsIndex : List (Bytes × ℕ) → List Bytes → Type 0
IsIndex m d = (v : Bytes) (i : ℕ) → (find_index m v ≡ some i) ↔ (get_elem? d i ≡ some v)

-- No string stands at two places.
unfoldable pub IsDistinct : List Bytes → Type 0
IsDistinct d = (v : Bytes) (i j : ℕ) → get_elem? d i ≡ some v → get_elem? d j ≡ some v → i ≡ j

pub IsIndex-IsDistinct : (m : List (Bytes × ℕ)) (d : List Bytes) → IsIndex m d → IsDistinct d
unfolding IsIndex IsDistinct
IsIndex-IsDistinct m d h v i j p q = some-injective i j (sym ((h v i).1 p) ∙ (h v j).1 q)

pub get_elem?-extend :
    (d more : List Bytes) (i : ℕ) (v : Bytes)
    → get_elem? d i ≡ some v
    → get_elem? (d ++ more) i ≡ some v
get_elem?-extend [] more i v h = cc
get_elem?-extend (x ∷ d) more zero v h = h
get_elem?-extend (x ∷ d) more (suc i) v h = get_elem?-extend d more i v h

pub get_elem?-last : (d : List Bytes) (v : Bytes) → get_elem? (d ++ v ∷ []) (length d) ≡ some v
get_elem?-last [] v = refl
get_elem?-last (x ∷ d) v = get_elem?-last d v

get_elem?-append_cases :
    (d : List Bytes) (v u : Bytes) (i : ℕ)
    → get_elem? (d ++ v ∷ []) i ≡ some u
    → (get_elem? d i ≡ some u) ⊎ ((i ≡ length d) × (v ≡ u))
get_elem?-append_cases [] v u zero h = inr (refl, some-injective v u h)
get_elem?-append_cases [] v u (suc i) h = cc
get_elem?-append_cases (x ∷ d) v u zero h = inl h
get_elem?-append_cases (x ∷ d) v u (suc i) h = elim (get_elem?-append_cases d v u i h) [
  | inl inside ↦ inl inside
  | inr (e, same) ↦ inr (ap suc e, same)
]

pub IsIndex-nil : IsIndex [] []
unfolding IsIndex find_index
IsIndex-nil v i = (λ h. cc, λ h. cc)

-- A string that the map does not know is added to both.
pub IsIndex-snoc :
    (m : List (Bytes × ℕ)) (d : List Bytes) (v : Bytes)
    → IsIndex m d
    → find_index m v ≡ none
    → IsIndex ((v, length d) ∷ m) (d ++ v ∷ [])
unfolding IsIndex find_index
IsIndex-snoc m d v h absent u i = elim (Bool-cases (same_bytes v u)) [
  | inl same ↦
      let e : v ≡ u = same_bytes_sound v u same in
      let absent' : find_index m u ≡ none = rw e at absent in
      rw same (
        λ p.
            let at : length d ≡ i = some-injective (length d) i p in
            rw (← at, ← e) (get_elem?-last d v),
        λ p. elim (get_elem?-append_cases d v u i p) [
          | inl inside ↦
              let found = (h u i).1 inside in let never : none ≡ some i = sym absent' ∙ found in cc
          | inr (at, _) ↦ ap some (sym at)
        ],
      )
  | inr other ↦ rw other (
    λ p. get_elem?-extend d (v ∷ []) i u ((h u i).0 p),
    λ p. elim (get_elem?-append_cases d v u i p) [
      | inl inside ↦ (h u i).1 inside
      | inr (_, e) ↦
          let same : same_bytes v u ≡ true = rw (← e) (same_bytes_refl v) in
          let never : true ≡ false = sym same ∙ other in cc
    ],
  )
]
