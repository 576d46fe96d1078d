-- ===== src/Env/Replicas/Free.antt =====
-- The indexes that `freeIndexes` of internal/env/replicas.go finds.
use caramelo.Common.{
  ℕ, zero, suc, ◌+◌, ◌≤◌, ◌<◌, ◌≡◌, refl, inl, inr, true, false, List, [], ◌∷◌, Option, some, arith,
  ◌==◌, nat_eq, if◌then◌else◌, leb, length, Bool-cases,
}
use caramelo.Env.Replicas.{LiveReplica, is_taken, free_from, free_indexes}

-- The indexes from i on that are free, as far as the list goes.
abbrev pub LowestFree : List LiveReplica → ℕ → List ℕ → Type 0
LowestFree live i [] = Unit {0}
LowestFree live i (j ∷ js) =
    (i ≤ j)
    × (is_taken live j ≡ false)
    × ((k : ℕ) → i ≤ k → k < j → is_taken live k ≡ true)
    × LowestFree live (j + 1) js

-- How many replicas stand at index i or later.
from_index : ℕ → List LiveReplica → ℕ
from_index i [] = 0
from_index i (r ∷ rs) = (if leb i r.index then 1 else 0) + from_index i rs

from_index_mono : (i : ℕ) (live : List LiveReplica) → from_index (i + 1) live ≤ from_index i live
unfolding from_index
from_index_mono i [] = omega arith
from_index_mono i (r ∷ rs) = ground (arith, from_index_mono i rs)

from_index_taken :
    (i : ℕ) (live : List LiveReplica)
    → is_taken live i ≡ true
    → from_index (i + 1) live < from_index i live
unfolding from_index is_taken
from_index_taken i [] e = cc
from_index_taken i (r ∷ rs) e = ground (arith, from_index_taken i rs, from_index_mono i rs)

from_index-le-length : (i : ℕ) (live : List LiveReplica) → from_index i live ≤ length live
unfolding from_index
from_index-le-length i [] = omega arith
from_index-le-length i (r ∷ rs) = ground (arith, from_index-le-length i rs)

LowestFree-earlier :
    (live : List LiveReplica) (i : ℕ) (js : List ℕ)
    → is_taken live i ≡ true
    → LowestFree live (i + 1) js
    → LowestFree live i js
LowestFree-earlier live i [] taken low = tt
LowestFree-earlier live i (j ∷ js) taken (le, open_, between, later) = (
  omega arith,
  open_,
  λ k from below. elim (Bool-cases (k == i)) [
    | inl same ↦ ground (arith, same, taken)
    | inr other ↦ between k (ground arith) below
  ],
  later,
)

-- What a search for n indexes comes to.
Found : List LiveReplica → ℕ → ℕ → Option (List ℕ) → Type 0
Found live i n result =
    (out : List ℕ) × (result ≡ some out) × (length out ≡ n) × LowestFree live i out

free_from-Found :
    (live : List LiveReplica) (fuel i n : ℕ)
    → from_index i live + n ≤ fuel
    → Found live i n (free_from live fuel i n)
unfolding free_from Found
free_from-Found live fuel i zero enough = ([], refl, refl, tt)
free_from-Found live zero i (suc n) enough = absurd (omega arith)
free_from-Found live (suc fuel) i (suc n) enough = elim (Bool-cases (is_taken live i)) [
  | inl taken ↦
      let (out, same, len, low) =
        free_from-Found live fuel (i + 1) (suc n) (omega (arith, from_index_taken i live taken)) in
      rw taken (out, same, len, LowestFree-earlier live i out taken low)
  | inr open_ ↦
      let (out, same, len, low) =
        free_from-Found live fuel (i + 1) n (omega (arith, from_index_mono i live)) in
      rw (open_, same)
        (
          i ∷ out,
          refl,
          omega (arith, len),
          (omega arith, open_, λ k from below. absurd (omega arith), low),
        )
]

-- The search for free indexes always ends, and gives as many as were asked for: the lowest from 1 on,
-- in order, that no replica has.
pub free_indexes-LowestFree :
    (live : List LiveReplica) (n : ℕ)
    → (out : List ℕ) × (free_indexes live n ≡ some out) × (length out ≡ n) × LowestFree live 1 out
unfolding free_indexes Found
free_indexes-LowestFree live n =
    free_from-Found live (length live + n) 1 n (omega (arith, from_index-le-length 1 live))
