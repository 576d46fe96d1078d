-- ===== src/Common/Lists.antt =====
-- Lists measured and indexed by native numbers, under the library's names, and predicates on lists.
use Prim.Native.Nat.{ℕ, zero, suc, ◌+◌}
use mathlib.Core.Path.{◌≡◌}
use mathlib.Core.Bool.{Bool, true, false, ◌&&◌, ◌||◌}
use mathlib.Core.List.{List, [], ◌∷◌, ◌++◌}
use mathlib.Core.Logic.{◌⊎◌, inl, inr}
use mathlib.Core.Option.{Option, none, some}
use native.Mathlib.Omega.{arith}
use caramelo.Common.Tests.{if◌then◌else◌}

module _ {ℓ} {A : Type ℓ} where
  abbrev pub length : List A → ℕ
  length [] = 0
  length (x ∷ xs) = suc (length xs)

  abbrev pub get_elem? : List A → ℕ → Option A
  get_elem? [] i = none
  get_elem? (x ∷ xs) zero = some x
  get_elem? (x ∷ xs) (suc i) = get_elem? xs i

  abbrev pub take : ℕ → List A → List A
  take zero xs = []
  take (suc n) [] = []
  take (suc n) (x ∷ xs) = x ∷ take n xs

  abbrev pub drop : ℕ → List A → List A
  drop zero xs = xs
  drop (suc n) [] = []
  drop (suc n) (x ∷ xs) = drop n xs

  pub length-append : (xs ys : List A) → length (xs ++ ys) ≡ length xs + length ys
  length-append [] ys = omega arith
  length-append (x ∷ xs) ys = omega (arith, length-append xs ys)

  -- The first entry that passes the test.
  abbrev pub find? : (A → Bool) → List A → Option A
  find? p [] = none
  find? p (x ∷ xs) = if p x then some x else find? p xs

  abbrev pub any : (A → Bool) → List A → Bool
  any p [] = false
  any p (x ∷ xs) = p x || any p xs

  abbrev pub all : (A → Bool) → List A → Bool
  all p [] = true
  all p (x ∷ xs) = p x && all p xs

  -- `foldl`, with the loop's body first.
  abbrev pub loop {κ} : {S : Type κ} → (S → A → S) → S → List A → S
  loop f s [] = s
  loop f s (x ∷ xs) = loop f (f s x) xs

  abbrev pub sum_map : (A → ℕ) → List A → ℕ
  sum_map f [] = 0
  sum_map f (x ∷ xs) = f x + sum_map f xs

  pub sum_map-append :
      (f : A → ℕ) (xs ys : List A) → sum_map f (xs ++ ys) ≡ sum_map f xs + sum_map f ys
  sum_map-append f [] ys = omega arith
  sum_map-append f (x ∷ xs) ys = omega (arith, sum_map-append f xs ys)

module _ {ℓ κ} {A : Type ℓ} (P : A → Type κ) where
  abbrev pub All : List A → Type κ
  All [] = Unit
  All (x ∷ xs) = P x × All xs

  pub All-append : (xs ys : List A) → All xs → All ys → All (xs ++ ys)
  All-append [] ys hx hy = hy
  All-append (x ∷ xs) ys hx hy = (hx.0, All-append xs ys hx.1 hy)

  -- An invariant of the loop's body is one of the loop.
  pub loop_inv {μ ν} :
      {S : Type μ} (Q : S → Type ν) (f : S → A → S)
      → ((s : S) (x : A) → P x → Q s → Q (f s x))
      → (s : S) (xs : List A) → All xs
      → Q s
      → Q (loop f s xs)
  loop_inv Q f keep s [] h q = q
  loop_inv Q f keep s (x ∷ xs) h q = loop_inv Q f keep (f s x) xs h.1 (keep s x h.0 q)

module _ {ℓ κ μ} {A : Type ℓ} {P : A → Type κ} {Q : A → Type μ} where
  pub All-mono : ((a : A) → P a → Q a) → (xs : List A) → All P xs → All Q xs
  All-mono h [] p = tt
  All-mono h (x ∷ xs) p = (h x p.0, All-mono h xs p.1)

module _ {ℓ} {A : Type ℓ} (P : A → Type 0) where
  abbrev pub Any : List A → Type 0
  Any [] = ⊥
  Any (x ∷ xs) = P x ⊎ Any xs

module _ {ℓ} {A : Type ℓ} (P : A → Type 0) where
  pub Any-append_left : (xs ys : List A) → Any P xs → Any P (xs ++ ys)
  Any-append_left [] ys none_in = elim none_in [ ]
  Any-append_left (x ∷ xs) ys (inl p) = inl p
  Any-append_left (x ∷ xs) ys (inr p) = inr (Any-append_left xs ys p)

  pub Any-append_right : (xs ys : List A) → Any P ys → Any P (xs ++ ys)
  Any-append_right [] ys p = p
  Any-append_right (x ∷ xs) ys p = inr (Any-append_right xs ys p)

module _ {ℓ} {A : Type ℓ} (P Q : A → Type 0) where
  pub Any-mono : (xs : List A) → All (λ a. P a → Q a) xs → Any P xs → Any Q xs
  Any-mono [] h none_in = elim none_in [ ]
  Any-mono (x ∷ xs) h (inl p) = inl (h.0 p)
  Any-mono (x ∷ xs) h (inr p) = inr (Any-mono xs h.1 p)

module _ {ℓ κ} {A : Type ℓ} {P : A → Type κ} where
  pub All-every : ((a : A) → P a) → (xs : List A) → All P xs
  All-every h [] = tt
  All-every h (x ∷ xs) = (h x, All-every h xs)
