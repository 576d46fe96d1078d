-- ===== src/Edge/Pool/Pick/Rotation.antt =====
-- `Pick` of internal/edge/pool.go against its specification: the pool as a queue that is turned.
use native.Mathlib.Nat.{mod-lt}
use mathlib.Core.List.{append_assoc}
use caramelo.Common.{
  ℕ, suc, ◌+◌, ◌%◌, ◌≡◌, refl, sym, ap, ◌∙◌, ◌⊎◌, inl, inr, true, false, subst, List, [], ◌∷◌, ◌++◌,
  Option, none, some, arith, length, length-append, get_elem?, All, Bool-cases,
}
use caramelo.Common.Rotate.{
  rotate, rotate-add, rotate-append, rotate-mod, length-rotate, head_rotate,
}
use caramelo.Edge.{Target}
use caramelo.Edge.Pool.State.{Tracked, RoutePool, live}
use caramelo.Edge.Pool.Pick.{pick_loop, picked, pick, passed_over}

-- The pool's targets in the order in which `Pick` tries them.
abbrev pub rotation : RoutePool → List Tracked
rotation p = rotate p.next p.targets

abbrev pub Passed : List ℕ → ℕ → Tracked → Type 0
Passed skip now ts = passed_over skip now ts ≡ true

-- What one `Pick` does to the order: it takes the first target that it does not pass over, and
-- turns the order until that target stands last; where all are passed over nothing changes.
pub data Picks (skip : List ℕ) (now : ℕ) (p : RoutePool) (r : RoutePool × Option Target)
    : Type 0 where
  nobody : All (Passed skip now) (rotation p) → r ≡ (p, none) → Picks skip now p r
  chosen :
      (before after : List Tracked) (ts : Tracked)
      → rotation p ≡ before ++ ts ∷ after
      → All (Passed skip now) before
      → passed_over skip now ts ≡ false
      → r.1 ≡ some (live ts)
      → rotation r.0 ≡ after ++ before ++ ts ∷ []
      → (r.0).targets ≡ p.targets
      → Picks skip now p r

zero_plus : (n : ℕ) → 0 + n ≡ n
zero_plus n = omega arith

plus_zero : (n : ℕ) → n ≡ n + 0
plus_zero n = omega arith

shift : (i n : ℕ) → i + 1 + n ≡ i + suc n
shift i n = omega arith

module _ (skip : List ℕ) (now : ℕ) (p : RoutePool) where
  abbrev Found : ℕ → List Tracked → Option (ℕ × Tracked) → Type 0
  Found i rest r =
      (All (Passed skip now) rest × (r ≡ none))
      ⊎ ((before after : List Tracked) × (ts : Tracked) × (rest ≡ before ++ ts ∷ after)
          × All (Passed skip now) before
          × (passed_over skip now ts ≡ false)
          × (r ≡ some ((p.next + (i + length before)) % length p.targets, ts)))

  length_parts :
      (before rest : List Tracked)
      → rotation p ≡ before ++ rest
      → length p.targets ≡ length before + length rest
  length_parts before rest e =
      sym (length-rotate p.next p.targets) ∙ ap length e ∙ length-append before rest

  turned_to :
      (before rest : List Tracked)
      → rotation p ≡ before ++ rest
      → rotate ((p.next + length before) % length p.targets) p.targets ≡ rest ++ before
  turned_to before rest e =
      rotate-mod (p.next + length before) p.targets
      ∙ rotate-add p.next (length before) p.targets
      ∙ ap (rotate (length before)) e
      ∙ rotate-append before rest

  at_front :
      (before rest : List Tracked) (ts : Tracked)
      → rotation p ≡ before ++ ts ∷ rest
      → get_elem? p.targets ((p.next + length before) % length p.targets) ≡ some ts
  at_front before rest ts e =
      sym (head_rotate _ p.targets (mod-lt _ (omega (arith, length_parts before (ts ∷ rest) e))))
      ∙ ap (λ xs. get_elem? xs 0) (turned_to before (ts ∷ rest) e)

  -- The pointer behind the chosen target: the order is turned past it.
  turned :
      (before after : List Tracked) (ts : Tracked)
      → rotation p ≡ before ++ ts ∷ after
      → rotate (((p.next + length before) % length p.targets + 1) % length p.targets) p.targets
        ≡ after ++ before ++ ts ∷ []
  turned before after ts e =
      rotate-mod ((p.next + length before) % length p.targets + 1) p.targets
      ∙ rotate-add ((p.next + length before) % length p.targets) 1 p.targets
      ∙ ap (rotate 1) (turned_to before (ts ∷ after) e)
      ∙ rotate-append (ts ∷ []) (after ++ before)

  pick_loop_skips :
      (rest before : List Tracked) (ts : Tracked)
      → rotation p ≡ before ++ ts ∷ rest
      → Passed skip now ts
      → pick_loop p skip now (suc (length rest)) (length before)
        ≡ pick_loop p skip now (length rest) (length before + 1)
  unfolding pick_loop
  pick_loop_skips rest before ts e h = rw (at_front before rest ts e, pick_loop) (rw h)

  pick_loop_takes :
      (rest before : List Tracked) (ts : Tracked)
      → rotation p ≡ before ++ ts ∷ rest
      → passed_over skip now ts ≡ false
      → pick_loop p skip now (suc (length rest)) (length before)
        ≡ some ((p.next + length before) % length p.targets, ts)
  unfolding pick_loop
  pick_loop_takes rest before ts e h = rw (at_front before rest ts e, pick_loop) (rw h)

  extend_found :
      (i : ℕ) (rest : List Tracked) (ts : Tracked) (r : Option (ℕ × Tracked))
      → Passed skip now ts
      → Found (i + 1) rest r
      → Found i (ts ∷ rest) r
  extend_found i rest ts r passed (inl (all_passed, e)) = inl ((passed, all_passed), e)
  extend_found i rest ts r passed (inr (before, after, hit, e, hb, eligible, er)) = inr (
    ts ∷ before,
    after,
    hit,
    ap (◌∷◌ ts) e,
    (passed, hb),
    eligible,
    er ∙ ap (λ k. some ((p.next + k) % length p.targets, hit)) (shift i (length before)),
  )

  loop_found :
      (rest before : List Tracked)
      → rotation p ≡ before ++ rest
      → Found (length before) rest (pick_loop p skip now (length rest) (length before))
  unfolding pick_loop
  loop_found [] before e = inl (tt, refl)
  loop_found (ts ∷ rest) before e = elim (Bool-cases (passed_over skip now ts)) [
    | inl passed ↦
        subst (Found (length before) (ts ∷ rest)) (sym (pick_loop_skips rest before ts e passed)) (
          extend_found (length before) rest ts _ passed (
            subst (λ k. Found k rest (pick_loop p skip now (length rest) k))
              (length-append before (ts ∷ []))
              (loop_found rest (before ++ ts ∷ []) (e ∙ sym (append_assoc before (ts ∷ []) rest)))))
    | inr eligible ↦ inr (
      [],
      rest,
      ts,
      refl,
      tt,
      eligible,
      pick_loop_takes rest before ts e eligible
          ∙ ap (λ k. some ((p.next + k) % length p.targets, ts)) (plus_zero (length before)),
    )
  ]

  found-Picks : (r : Option (ℕ × Tracked)) → Found 0 (rotation p) r → Picks skip now p (picked p r)
  unfolding picked
  found-Picks r (inl (passed, e)) = nobody passed (rw e)
  found-Picks r (inr (before, after, ts, e, passed, eligible, er)) =
      let at =
        er ∙ ap (λ k. some ((p.next + k) % length p.targets, ts)) (zero_plus (length before)) in
      chosen before after ts e passed eligible (rw at) (rw at (turned before after ts e)) (rw at)

-- `Pick` takes the first target, in the order that starts at its pointer, that is active, not to be
-- skipped and not in its failure window, and turns the order until that target stands last. It
-- finds none only if each target is passed over, and then leaves the pool as it was.
pub pick-Picks : (skip : List ℕ) (now : ℕ) (p : RoutePool) → Picks skip now p (pick skip now p)
unfolding pick
pick-Picks skip now p = found-Picks skip now p _ (
    subst (λ n. Found skip now p 0 (rotation p) (pick_loop p skip now n 0))
      (length-rotate p.next p.targets) (loop_found skip now p (rotation p) [] refl))
