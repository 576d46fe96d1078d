-- ===== src/Edge/Pool/Invariant/Steps.antt =====
-- Every history of a pool, from NewPool on, keeps the invariant.
use caramelo.Common.{ℕ, List, [], ◌∷◌, Option, arith, All-mono}
use caramelo.Edge.{Route}
use caramelo.Edge.Pool.State.{RoutePool}
use caramelo.Edge.Pool.Install.{install, empty_pool, new_pool}
use caramelo.Edge.Pool.Requests.{Mark, begin, end, mark, sweep}
use caramelo.Edge.Pool.Pick.{pick}
use caramelo.Edge.Pool.Invariant.{
  IsSettled, PoolInv, after_begin, after_mark, begin-PoolInv, end-PoolInv,
}
use caramelo.Edge.Pool.Invariant.Marks.{mark-PoolInv}
use caramelo.Edge.Pool.Invariant.Sweeps.{sweep-PoolInv, pick-PoolInv}
use caramelo.Edge.Pool.Invariant.Install.{install-PoolInv}

-- The calls that change a pool, each with the clock's reading.
pub data PoolCall : Type 0 where
  picks : List ℕ → ℕ → PoolCall
  begins : ℕ → Option ℕ → PoolCall
  ends : ℕ → ℕ → ℕ → PoolCall
  marks : ℕ → Mark → PoolCall
  sweeps : ℕ → PoolCall
  installs : ℕ → ℕ → Route → PoolCall

unfoldable pub step : RoutePool → PoolCall → RoutePool
step p (picks skip now) = (pick skip now p).0
step p (begins replica cancel) = after_begin p (begin replica cancel p)
step p (ends now replica id) = (end now replica id p).pool
step p (marks now m) = after_mark p (mark now m p)
step p (sweeps now) = (sweep now p).pool
step p (installs now incarnations r) = (install now incarnations r p).pool

unfoldable pub run : RoutePool → List PoolCall → RoutePool
run p [] = p
run p (c ∷ cs) = run (step p c) cs

step-PoolInv : (p : RoutePool) (c : PoolCall) → PoolInv p → PoolInv (step p c)
unfolding step
step-PoolInv p (picks skip now) v = pick-PoolInv p v skip now
step-PoolInv p (begins replica cancel) v = begin-PoolInv replica cancel p v
step-PoolInv p (ends now replica id) v = end-PoolInv now replica id p v
step-PoolInv p (marks now m) v = mark-PoolInv now m p v
step-PoolInv p (sweeps now) v = sweep-PoolInv p v now
step-PoolInv p (installs now incarnations r) v =
    install-PoolInv now incarnations r p
      (All-mono (λ ts (h : IsSettled p.seq ts). h.numbered) p.targets v.each) v.few_marks

run-PoolInv : (p : RoutePool) (cs : List PoolCall) → PoolInv p → PoolInv (run p cs)
unfolding run
run-PoolInv p [] v = v
run-PoolInv p (c ∷ cs) v = run-PoolInv (step p c) cs (step-PoolInv p c v)

-- After any calls on a new pool: each draining target with no open connection has been reported as
-- drained, each connection number in use was given out, the drain time is positive, the pointer is
-- within the targets or 0, and at most 64 count marks are kept.
pub run-new_pool-PoolInv :
    (now incarnations drain_option : ℕ) (r : Route) (cs : List PoolCall)
    → PoolInv (run (new_pool now incarnations drain_option r).pool cs)
unfolding new_pool
run-new_pool-PoolInv now incarnations drain_option r cs =
    run-PoolInv _ cs
      (install-PoolInv now incarnations r (empty_pool drain_option r) tt (omega arith))
