-- ===== src/Edge/Pool/Invariant/Sweeps.antt =====
-- The sweep and the pick keep the invariant (internal/edge/pool.go).
use native.Mathlib.Nat.{mod-lt}
use native.Mathlib.Decide.{dec_lt}
use caramelo.Common.{
  ℕ, suc, ◌+◌, ◌<◌, ◌≡◌, refl, ap, inl, inr, List, [], ◌∷◌, Option, none, some, arith, length, All,
  Bool-cases, nat_eq,
}
use caramelo.Edge.{state_eq}
use caramelo.Edge.Pool.State.{Tracked, RoutePool}
use caramelo.Edge.Pool.Requests.{sweep, sweep_targets, overdue, cut}
use caramelo.Edge.Pool.Pick.{pick, picked, pick_loop}
use caramelo.Edge.Pool.Invariant.{IsSettled, PoolInv}

module _ (p : RoutePool) (v : PoolInv p) where
  sweep_targets-each :
      (drain now : ℕ) (tss : List Tracked)
      → All (IsSettled p.seq) tss
      → All (IsSettled p.seq) (sweep_targets drain now tss)
  unfolding sweep_targets cut
  sweep_targets-each drain now [] a = tt
  sweep_targets-each drain now (ts ∷ tss) a = elim (Bool-cases (overdue drain now ts)) [
    | inl late ↦
        rw late
          (record { settled = λ _ _. refl; numbered = tt }, sweep_targets-each drain now tss a.1)
    | inr keep ↦ rw keep (a.0, sweep_targets-each drain now tss a.1)
  ]

  length-sweep_targets :
      (drain now : ℕ) (tss : List Tracked) → length (sweep_targets drain now tss) ≡ length tss
  unfolding sweep_targets
  length-sweep_targets drain now [] = refl
  length-sweep_targets drain now (ts ∷ tss) = ap suc (length-sweep_targets drain now tss)

  pub sweep-PoolInv : (now : ℕ) → PoolInv (sweep now p).pool
  unfolding sweep
  sweep-PoolInv now = record {
    each = sweep_targets-each p.drain now p.targets v.each;
    drain_pos = v.drain_pos;
    pointer = ground (arith, v.pointer, length-sweep_targets p.drain now p.targets);
    few_marks = v.few_marks;
  }

  picked-PoolInv : (r : Option (ℕ × Tracked)) → 0 < length p.targets → PoolInv (picked p r).0
  unfolding picked
  picked-PoolInv none some_target = v
  picked-PoolInv (some (idx, ts)) some_target = record {
    each = v.each;
    drain_pos = v.drain_pos;
    pointer = inl (mod-lt (idx + 1) some_target);
    few_marks = v.few_marks;
  }

  pub pick-PoolInv : (skip : List ℕ) (now : ℕ) → PoolInv (pick skip now p).0
  unfolding pick pick_loop picked
  pick-PoolInv skip now = elim (dec_lt 0 (length p.targets)) [
    | yes h ↦ picked-PoolInv _ h
    | no h ↦ (let e : length p.targets ≡ 0 = omega arith in rw e v)
  ]
