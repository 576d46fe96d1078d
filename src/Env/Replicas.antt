-- ===== src/Env/Replicas.antt =====
-- internal/env/replicas.go: the containers of a service that are there, and the indexes that are free.
pub mod Free
use caramelo.Common.{
  ℕ, zero, suc, ◌+◌, Bool, true, false, List, [], ◌∷◌, Option, none, some, ◌==◌, nat_eq, bytes_eq,
  Bytes, if◌then◌else◌, ltb, leb, length, any,
}

-- Go's `replica`; the index 0 is that of a container from before there were replicas.
pub record LiveReplica : Type 0 where
  pub index : ℕ
  pub container : Bytes
  pub id : Bytes
  pub running : Bool
  pub status : Bytes
  pub tree : Bytes

abbrev pub legacy_replica : ℕ
legacy_replica = 0

unfoldable pub numbered : List LiveReplica → List LiveReplica
numbered [] = []
numbered (r ∷ rs) = if leb 1 r.index then r ∷ numbered rs else numbered rs

unfoldable pub legacy_of : List LiveReplica → Option LiveReplica
legacy_of [] = none
legacy_of (r ∷ rs) = if r.index == legacy_replica then some r else legacy_of rs

unfoldable pub running_replicas : List LiveReplica → List LiveReplica
running_replicas [] = []
running_replicas (r ∷ rs) = if r.running then r ∷ running_replicas rs else running_replicas rs

-- The map `taken`.
unfoldable pub is_taken : List LiveReplica → ℕ → Bool
is_taken live i = any (λ (r : LiveReplica). r.index == i) live

with_index : ℕ → Option (List ℕ) → Option (List ℕ)
with_index i none = none
with_index i (some out) = some (i ∷ out)

-- The loop from index i, with n indexes still to find; `none` says that the fuel ran out.
unfoldable pub free_from : List LiveReplica → ℕ → ℕ → ℕ → Option (List ℕ)
unfolding with_index
free_from live fuel i zero = some []
free_from live zero i (suc n) = none
free_from live (suc fuel) i (suc n) =
    let next = free_from live fuel (i + 1) (suc n) in
    let found = free_from live fuel (i + 1) n in
    if is_taken live i then next else with_index i found

unfoldable pub free_indexes : List LiveReplica → ℕ → Option (List ℕ)
unfolding free_from
free_indexes live n = free_from live (length live + n) 1 n

-- A tree of code that a replica runs and that is not the wanted one.
unfoldable pub stale_tree : List LiveReplica → Bytes → Option Bytes
stale_tree [] tree = none
stale_tree (r ∷ rs) tree =
    if tree == [] then none else if r.tree == tree then stale_tree rs tree else some r.tree
