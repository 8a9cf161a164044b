-- ===== src/Index/IvfBuilder.antt =====
-- src/index/ivf_builder.cpp, IvfBuilder::WriteIndex: the records of the vectors, and their addresses by
-- cluster. An index out of range is `none`.
pub mod Data
pub mod Records
pub mod Clusters
pub mod Addresses
pub mod Build
pub mod Returns
use vec_fetch.Prelude.{
  ℕ, suc, ◌+◌, List, [], ◌∷◌, ◌++◌, Option, none, some, ◌>>=◌, get_elem?, set, replicate,
}
use vec_fetch.Types.{AddressEntry}

unfoldable pub push_member : ℕ → ℕ → List (List ℕ) → Option (List (List ℕ))
push_member cluster i members = do
  cluster_members ← get_elem? members cluster
  some (set members cluster (cluster_members ++ (i ∷ [])))

-- `cluster_members[assignments_[i]].push_back(i)`, for the assignments from vector `i` on.
unfoldable pub group_from : ℕ → List ℕ → List (List ℕ) → Option (List (List ℕ))
group_from i [] members = some members
group_from i (cluster ∷ assignments) members = do
  pushed ← push_member cluster i members
  group_from (suc i) assignments pushed

unfoldable pub cluster_members : ℕ → List ℕ → Option (List (List ℕ))
cluster_members k assignments = group_from 0 assignments (replicate k [])

-- The addresses of the vectors of a cluster.
unfoldable pub gather {ℓ} : {A : Type ℓ} → List A → List ℕ → Option (List A)
gather by_vec_id [] = some []
gather by_vec_id (idx ∷ members) = do
  a ← get_elem? by_vec_id idx
  rest ← gather by_vec_id members
  some (a ∷ rest)

unfoldable pub addr_entries_per_cluster :
    List AddressEntry → List (List ℕ) → Option (List (List AddressEntry))
addr_entries_per_cluster addr_by_vec_id [] = some []
addr_entries_per_cluster addr_by_vec_id (members ∷ clusters) = do
  entries ← gather addr_by_vec_id members
  rest ← addr_entries_per_cluster addr_by_vec_id clusters
  some (entries ∷ rest)
