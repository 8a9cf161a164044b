-- ===== src/Index/IvfBuilder/Clusters.antt =====
-- Which vectors a cluster gets.
use vec_fetch.Prelude.{
  ℕ, zero, suc, ◌+◌, ◌≤◌, ◌<◌, ◌≡◌, ◌≢◌, refl, sym, ap, ◌∙◌, arith, Bool-cases, inl, inr, List, [],
  ◌∷◌, ◌++◌, some, ◌==◌, ==_iff, if◌then◌else◌, length, length-set, length-replicate,
  get_elem?-eq-get_or, get_or, set, replicate, All,
}
use mathlib.Core.List.{append-nil, append_assoc}
use vec_fetch.Index.IvfBuilder.{push_member, group_from, cluster_members}

-- The vectors from `i` on that are assigned to cluster `k`, in order.
unfoldable pub members_of : ℕ → ℕ → List ℕ → List ℕ
members_of k i [] = []
members_of k i (cluster ∷ assignments) =
    let rest = members_of k (suc i) assignments in if cluster == k then i ∷ rest else rest

get_or-set :
    {A : Type 0} (xs : List A) (i : ℕ) (v d : A) → i < length xs → get_or (set xs i v) i d ≡ v
get_or-set [] i v d h = absurd (omega arith)
get_or-set (x ∷ xs) zero v d h = refl
get_or-set (x ∷ xs) (suc i) v d h = get_or-set xs i v d (omega arith)

get_or-set_other :
    {A : Type 0} (xs : List A) (i j : ℕ) (v d : A) → i ≢ j → get_or (set xs i v) j d ≡ get_or xs j d
get_or-set_other [] i j v d h = refl
get_or-set_other (x ∷ xs) zero zero v d h = absurd (h refl)
get_or-set_other (x ∷ xs) zero (suc j) v d h = refl
get_or-set_other (x ∷ xs) (suc i) zero v d h = refl
get_or-set_other (x ∷ xs) (suc i) (suc j) v d h = get_or-set_other xs i j v d (λ e. h (ap suc e))

get_or-replicate : {A : Type 0} (n i : ℕ) (d : A) → get_or (replicate n d) i d ≡ d
get_or-replicate zero i d = refl
get_or-replicate (suc n) zero d = refl
get_or-replicate (suc n) (suc i) d = get_or-replicate n i d

push_member_lem :
    (c i : ℕ) (members : List (List ℕ))
    → c < length members
    → push_member c i members ≡ some (set members c (get_or members c [] ++ (i ∷ [])))
unfolding push_member
push_member_lem c i members h = rw (get_elem?-eq-get_or members c [] h)

-- One push, at one cluster.
pushed :
    (c i k : ℕ) (assignments : List ℕ) (members : List (List ℕ))
    → c < length members
    → get_or (set members c (get_or members c [] ++ (i ∷ []))) k []
        ++ members_of k (suc i) assignments
      ≡ get_or members k [] ++ members_of k i (c ∷ assignments)
unfolding members_of
pushed c i k assignments members h = elim (Bool-cases (c == k)) [
  | inl here ↦
      let same : c ≡ k = (==_iff c k).0 here in
      rw (here, ← same, get_or-set members c (get_or members c [] ++ (i ∷ [])) [] h)
        (append_assoc (get_or members c []) (i ∷ []) (members_of c (suc i) assignments)
          ∙ ap (λ (n : ℕ). get_or members c [] ++ i ∷ members_of n (suc i) assignments) same)
  | inr there ↦
      let other : c ≢ k = λ e. (let both = (==_iff c k).1 e in cc) in
      rw (there, get_or-set_other members c k (get_or members c [] ++ (i ∷ [])) [] other)
]

group_from_lem :
    (i : ℕ) (assignments : List ℕ) (members : List (List ℕ))
    → All (λ c. c < length members) assignments
    → (grouped : List (List ℕ)) × (group_from i assignments members ≡ some grouped)
      × (length grouped ≡ length members)
      × ((k : ℕ) → get_or grouped k [] ≡ get_or members k [] ++ members_of k i assignments)
unfolding group_from
group_from_lem i [] members h =
    (members, refl, refl, λ k. unfold members_of in sym (append-nil (get_or members k [])))
group_from_lem i (c ∷ assignments) members (hc, h) =
    let next = set members c (get_or members c [] ++ (i ∷ [])) in
    let same : length next ≡ length members =
      length-set members c (get_or members c [] ++ (i ∷ [])) in
    let (grouped, run, long, here) = group_from_lem (suc i) assignments next (rw same h) in
    (
      grouped,
      rw (push_member_lem c i members hc) run,
      long ∙ same,
      λ k. here k ∙ pushed c i k assignments members hc,
    )

-- For assignments below the number of clusters, the grouping returns a list for each cluster: in order,
-- the vectors that are assigned to it.
pub cluster_members_lem :
    (k : ℕ) (assignments : List ℕ)
    → All (λ c. c < k) assignments
    → (members : List (List ℕ)) × (cluster_members k assignments ≡ some members)
      × (length members ≡ k)
      × ((c : ℕ) → get_or members c [] ≡ members_of c 0 assignments)
unfolding cluster_members
cluster_members_lem k assignments h =
    let long = length-replicate {A = List ℕ} k [] in
    let (members, run, count, here) = group_from_lem 0 assignments (replicate k []) (rw long h) in
    (
      members,
      run,
      count ∙ long,
      λ c. here c ∙ ap (λ (l : List ℕ). l ++ members_of c 0 assignments) (get_or-replicate k c []),
    )

-- A member is the index of a vector.
pub members_of-lt :
    (c i n : ℕ) (assignments : List ℕ)
    → i + length assignments ≤ n
    → All (λ m. m < n) (members_of c i assignments)
unfolding members_of
members_of-lt c i n [] h = tt
members_of-lt c i n (a ∷ assignments) h =
    let rest = members_of-lt c (suc i) n assignments (omega arith) in
    elim (Bool-cases (a == c)) [
      | inl here ↦ rw here (omega arith, rest)
      | inr there ↦ rw there rest
    ]
