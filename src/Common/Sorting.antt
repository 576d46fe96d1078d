-- ===== src/Common/Sorting.antt =====
-- Go's sort.SliceStable: an entry goes before the first one that is not less than it.
use mathlib.Core.List.{List, [], ◌∷◌}
use mathlib.Core.Logic.{inl, inr}
use mathlib.Core.Bool.{Bool}
use caramelo.Common.Tests.{if◌then◌else◌, Bool-cases}
use caramelo.Common.Lists.{All, Any}

module _ {ℓ} {A : Type ℓ} (less : A → A → Bool) where
  unfoldable pub insert_by : A → List A → List A
  insert_by a [] = a ∷ []
  insert_by a (b ∷ bs) = let rest = insert_by a bs in if less b a then b ∷ rest else a ∷ b ∷ bs

  unfoldable pub sort_by : List A → List A
  unfolding insert_by
  sort_by [] = []
  sort_by (a ∷ xs) = insert_by a (sort_by xs)

  module _ (P : A → Type 0) where
    pub All-insert_by : (a : A) (bs : List A) → P a → All P bs → All P (insert_by a bs)
    unfolding insert_by
    All-insert_by a [] h hs = (h, hs)
    All-insert_by a (b ∷ bs) h hs = elim (Bool-cases (less b a)) [
      | inl later ↦ rw later (hs.0, All-insert_by a bs h hs.1)
      | inr first ↦ rw first (h, hs)
    ]

    pub All-sort_by : (xs : List A) → All P xs → All P (sort_by xs)
    unfolding sort_by
    All-sort_by [] hs = hs
    All-sort_by (x ∷ xs) hs = All-insert_by x (sort_by xs) hs.0 (All-sort_by xs hs.1)

    All-of_insert_by : (a : A) (bs : List A) → All P (insert_by a bs) → P a × All P bs
    unfolding insert_by
    All-of_insert_by a [] hs = hs
    All-of_insert_by a (b ∷ bs) hs = elim (Bool-cases (less b a)) [
      | inl later ↦
          (let hs = rw later at hs in
            let rest = All-of_insert_by a bs hs.1 in (rest.0, (hs.0, rest.1)))
      | inr first ↦ rw first at hs
    ]

    -- What holds of the sorted entries holds of the entries.
    pub All-of_sort_by : (xs : List A) → All P (sort_by xs) → All P xs
    unfolding sort_by
    All-of_sort_by [] hs = hs
    All-of_sort_by (a ∷ xs) hs =
        let both = All-of_insert_by a (sort_by xs) hs in (both.0, All-of_sort_by xs both.1)

    Any-of_insert_by : (a : A) (bs : List A) → Any P (insert_by a bs) → Any P (a ∷ bs)
    unfolding insert_by
    Any-of_insert_by a [] h = h
    Any-of_insert_by a (b ∷ bs) h = elim (Bool-cases (less b a)) [
      | inl later ↦ elim (rw later at h) [
        | inl here ↦ inr (inl here)
        | inr further ↦ elim (Any-of_insert_by a bs further) [
          | inl here ↦ inl here
          | inr past ↦ inr (inr past)
        ]
      ]
      | inr first ↦ rw first at h
    ]

    pub Any-of_sort_by : (xs : List A) → Any P (sort_by xs) → Any P xs
    unfolding sort_by
    Any-of_sort_by [] h = h
    Any-of_sort_by (a ∷ xs) h = elim (Any-of_insert_by a (sort_by xs) h) [
      | inl here ↦ inl here
      | inr past ↦ inr (Any-of_sort_by xs past)
    ]

    Any-insert_by : (a : A) (bs : List A) → Any P (a ∷ bs) → Any P (insert_by a bs)
    unfolding insert_by
    Any-insert_by a [] h = h
    Any-insert_by a (b ∷ bs) h = elim (Bool-cases (less b a)) [
      | inl later ↦ rw later (elim h [
        | inl here ↦ inr (Any-insert_by a bs (inl here))
        | inr (inl past) ↦ inl past
        | inr (inr past) ↦ inr (Any-insert_by a bs (inr past))
      ])
      | inr first ↦ rw first h
    ]

    pub Any-sort_by : (xs : List A) → Any P xs → Any P (sort_by xs)
    unfolding sort_by
    Any-sort_by [] h = h
    Any-sort_by (a ∷ xs) h =
        Any-insert_by a (sort_by xs)
          (elim h [ inl here ↦ inl here | inr past ↦ inr (Any-sort_by xs past) ])
