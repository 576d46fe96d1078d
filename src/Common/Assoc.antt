-- ===== src/Common/Assoc.antt =====
-- A Go map as an association list with each key once, newest key last.
use mathlib.Core.Path.{◌≡◌, refl}
use mathlib.Core.List.{List, [], ◌∷◌}
use mathlib.Core.Option.{Option, none, some}
use native.Mathlib.Omega.{arith}
use caramelo.Common.Tests.{Eq, ◌==◌, if◌then◌else◌}

module _ {ℓ κ} {Key : Type ℓ} {Val : Type κ} ⦃e : Eq Key⦄ where
  unfoldable pub lookup : Key → List (Key × Val) → Option Val
  lookup key [] = none
  lookup key ((other, val) ∷ rest) = if other == key then some val else lookup key rest

  unfoldable pub insert : Key → Val → List (Key × Val) → List (Key × Val)
  insert key new [] = (key, new) ∷ []
  insert key new ((other, val) ∷ rest) =
      if other == key then (key, new) ∷ rest else (other, val) ∷ insert key new rest

  unfoldable pub erase : Key → List (Key × Val) → List (Key × Val)
  erase key [] = []
  erase key ((other, val) ∷ rest) =
      if other == key then erase key rest else (other, val) ∷ erase key rest

  pub lookup-insert :
      (key read : Key) (new : Val) (all : List (Key × Val))
      → lookup read (insert key new all) ≡ (if key == read then some new else lookup read all)
  unfolding lookup insert
  lookup-insert key read new [] = refl
  lookup-insert key read new ((other, val) ∷ rest) = ground (
    arith,
    lookup-insert key read new rest,
    e.same_iff key read,
    e.same_iff other key,
    e.same_iff other read,
  )

  pub lookup-erase :
      (key read : Key) (all : List (Key × Val))
      → lookup read (erase key all) ≡ (if key == read then none else lookup read all)
  unfolding lookup erase
  lookup-erase key read [] = ground arith
  lookup-erase key read ((other, val) ∷ rest) = ground (
    arith,
    lookup-erase key read rest,
    e.same_iff key read,
    e.same_iff other key,
    e.same_iff other read,
  )
