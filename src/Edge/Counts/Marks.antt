-- ===== src/Edge/Counts/Marks.antt =====
-- Which mark a pool counts from (internal/edge/counts.go).
use caramelo.Common.{
  ℕ, ◌≤◌, ◌≡◌, refl, ap, ◌∙◌, Bool, true, false, List, [], ◌∷◌, ◌++◌, some, arith, if◌then◌else◌,
  ltb, drop, length, All,
}
use caramelo.Edge.Pool.State.{CountMark, trim_marks, max_count_marks}
use caramelo.Edge.Counts.{last_before, mark_at}

not_after : (a b : ℕ) → a ≤ b → ltb b a ≡ false
not_after a b h = ground arith

-- The newest mark is the one to count from, if no mark is after the time.
last_before_newest :
    (since : ℕ) (m n : CountMark) (ms : List CountMark)
    → All (λ (x : CountMark). x.at ≤ since) ms
    → n.at ≤ since
    → last_before since m (ms ++ n ∷ []) ≡ n
unfolding last_before
last_before_newest since m n [] h k = ap (λ (b : Bool). if b then m else n) (not_after n.at since k)
last_before_newest since m n (x ∷ ms) h k =
    ap (λ (b : Bool). if b then m else last_before since x (ms ++ n ∷ []))
      (not_after x.at since h.0)
    ∙ last_before_newest since x n ms h.1 k

appended_mark :
    (since : ℕ) (n : CountMark) (ms : List CountMark)
    → All (λ (x : CountMark). x.at ≤ since) ms
    → n.at ≤ since
    → mark_at since (ms ++ n ∷ []) ≡ some n
unfolding mark_at
appended_mark since n [] h k = ap some (same (ltb since n.at))
  where
    same : (b : Bool) → (if b then n else n) ≡ n
    same true = refl
    same false = refl
appended_mark since n (x ∷ ms) h k = ap some (
    ap (λ (b : Bool). if b then x else last_before since x (ms ++ n ∷ []))
      (not_after x.at since h.0)
    ∙ last_before_newest since x n ms h.1 k)

pub mark_at-newest :
    (since : ℕ) (n : CountMark) (ms : List CountMark)
    → All (λ (x : CountMark). x.at ≤ since) ms
    → n.at ≤ since
    → mark_at since (trim_marks (ms ++ n ∷ [])) ≡ some n
unfolding trim_marks
mark_at-newest since n [] h k = appended_mark since n [] h k
mark_at-newest since n (x ∷ ms) h k = go (ltb max_count_marks (length (x ∷ ms ++ n ∷ [])))
  where
    go :
        (b : Bool)
        → mark_at since (if b then drop 1 (x ∷ ms ++ n ∷ []) else x ∷ ms ++ n ∷ []) ≡ some n
    go true = appended_mark since n ms h.1 k
    go false = appended_mark since n (x ∷ ms) h k
