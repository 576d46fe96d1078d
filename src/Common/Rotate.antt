-- ===== src/Common/Rotate.antt =====
-- A list turned to the left, which is how a round-robin pointer reads its list.
use mathlib.Core.List.{append_assoc, append-nil}
use native.Mathlib.Nat.{div-add-mod}
use Prim.Native.Nat.{ℕ, zero, suc, ◌+◌, ◌*◌, ◌/◌, ◌%◌, ◌<◌}
use mathlib.Core.Path.{◌≡◌, refl, sym, ap, ◌∙◌}
use mathlib.Core.List.{List, [], ◌∷◌, ◌++◌}
use native.Mathlib.Omega.{arith}
use caramelo.Common.Lists.{length, get_elem?, length-append}

suc_add : (k j : ℕ) → suc k + j ≡ suc (k + j)
suc_add k j = omega arith

mul_suc : (n q : ℕ) → n * suc q ≡ n + n * q
mul_suc n q = grind arith

module _ {ℓ} {A : Type ℓ} where
  pub rotate : ℕ → List A → List A
  rotate zero xs = xs
  rotate (suc k) [] = []
  rotate (suc k) (x ∷ xs) = rotate k (xs ++ x ∷ [])

  pub rotate-nil : (k : ℕ) → rotate k [] ≡ []
  unfolding rotate
  rotate-nil zero = refl
  rotate-nil (suc k) = refl

  pub length-rotate : (k : ℕ) (xs : List A) → length (rotate k xs) ≡ length xs
  unfolding rotate
  length-rotate zero xs = refl
  length-rotate (suc k) [] = refl
  length-rotate (suc k) (x ∷ xs) =
      omega (arith, length-rotate k (xs ++ x ∷ []), length-append xs (x ∷ []))

  pub rotate-add : (k j : ℕ) (xs : List A) → rotate (k + j) xs ≡ rotate j (rotate k xs)
  unfolding rotate
  rotate-add zero j xs = ground arith
  rotate-add (suc k) j [] = rotate-nil (suc k + j) ∙ sym (rotate-nil j)
  rotate-add (suc k) j (x ∷ xs) =
      ap (λ m. rotate m (x ∷ xs)) (suc_add k j) ∙ rotate-add k j (xs ++ x ∷ [])

  -- Turning by the length of a front part moves that part to the back.
  pub rotate-append : (xs ys : List A) → rotate (length xs) (xs ++ ys) ≡ ys ++ xs
  unfolding rotate
  rotate-append [] ys = sym (append-nil ys)
  rotate-append (x ∷ xs) ys =
      ap (rotate (length xs)) (append_assoc xs ys (x ∷ []))
      ∙ rotate-append xs (ys ++ x ∷ [])
      ∙ append_assoc ys (x ∷ []) xs

  rotate-length : (xs : List A) → rotate (length xs) xs ≡ xs
  rotate-length xs = ap (rotate (length xs)) (sym (append-nil xs)) ∙ rotate-append xs []

  rotate-mul : (q : ℕ) (xs : List A) → rotate (length xs * q) xs ≡ xs
  unfolding rotate
  rotate-mul zero xs = ground arith
  rotate-mul (suc q) xs =
      ap (λ k. rotate k xs) (mul_suc (length xs) q)
      ∙ rotate-add (length xs) (length xs * q) xs
      ∙ ap (rotate (length xs * q)) (rotate-length xs)
      ∙ rotate-mul q xs

  pub rotate-mod : (k : ℕ) (xs : List A) → rotate (k % length xs) xs ≡ rotate k xs
  rotate-mod k xs =
      ap (rotate (k % length xs)) (sym (rotate-mul (k / length xs) xs))
      ∙ sym (rotate-add (length xs * (k / length xs)) (k % length xs) xs)
      ∙ ap (λ j. rotate j xs) (div-add-mod k (length xs))

  get_elem?-append :
      (xs ys : List A) (i : ℕ) → i < length xs → get_elem? (xs ++ ys) i ≡ get_elem? xs i
  get_elem?-append [] ys i h = absurd (omega arith)
  get_elem?-append (x ∷ xs) ys zero h = refl
  get_elem?-append (x ∷ xs) ys (suc i) h = get_elem?-append xs ys i (omega arith)

  pub head_rotate :
      (k : ℕ) (xs : List A) → k < length xs → get_elem? (rotate k xs) 0 ≡ get_elem? xs k
  unfolding rotate
  head_rotate zero xs h = refl
  head_rotate (suc k) [] h = refl
  head_rotate (suc k) (x ∷ xs) h =
      head_rotate k (xs ++ x ∷ []) (omega (arith, length-append xs (x ∷ [])))
      ∙ get_elem?-append xs (x ∷ []) k (omega arith)
