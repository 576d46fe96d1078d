-- ===== src/Edge/Pool/Pick.antt =====
-- `Pick` of internal/edge/pool.go: round robin over the targets that may take a request.
pub mod Rotation
use caramelo.Common.{
  ℕ, zero, suc, ◌+◌, ◌%◌, ◌-◌, ◌≤◌, ◌<◌, ◌≡◌, refl, Bool, true, false, not, ◌&&◌, ◌||◌, List, [],
  ◌∷◌, ◌++◌, Option, none, some, ◌==◌, nat_eq, arith, if◌then◌else◌, length, ltb, get_elem?, any,
  find?, take, drop, Bool-cases,
}
use caramelo.Edge.{Target, routable}
use caramelo.Edge.Pool.State.{Tracked, RoutePool, live}

unfoldable pub contains : List ℕ → ℕ → Bool
contains xs x = any (λ v. v == x) xs

-- The test by which the loop passes a target over.
unfoldable pub passed_over : List ℕ → ℕ → Tracked → Bool
unfolding contains routable
passed_over skip now ts =
    not (routable ts.t.state) || contains skip ts.t.replica || ltb now ts.failed_until

-- The loop, with the rounds left and `i`; the result is the index and the target.
unfoldable pub pick_loop : RoutePool → List ℕ → ℕ → ℕ → ℕ → Option (ℕ × Tracked)
pick_loop p skip now zero i = none
pick_loop p skip now (suc rounds) i =
    let rest = pick_loop p skip now rounds (i + 1) in
    let idx = (p.next + i) % length p.targets in
    elim (get_elem? p.targets idx) [
      | none ↦ none
      | some ts ↦ if passed_over skip now ts then rest else some (idx, ts)
    ]

unfoldable pub picked : RoutePool → Option (ℕ × Tracked) → RoutePool × Option Target
picked p none = (p, none)
picked p (some (idx, ts)) = (record p { next = (idx + 1) % length p.targets }, some (live ts))

unfoldable pub pick : List ℕ → ℕ → RoutePool → RoutePool × Option Target
unfolding pick_loop picked passed_over
pick skip now p = picked p (pick_loop p skip now (length p.targets) 0)
