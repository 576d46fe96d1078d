-- ===== src/Tests/Edge.antt =====
-- internal/edge on concrete routes.
use caramelo.Common.{
  ℕ, suc, ◌+◌, ◌≡◌, refl, List, [], ◌∷◌, Option, none, some, codes, All, true, false, lookup,
  insert, erase, arith,
}
use caramelo.Edge.{Target, Route, active, draining, https, valid_state}
use caramelo.Edge.Counts.{counts, plus, add_request}
use caramelo.Edge.Counts.Parts.{Request, answered, turned_away, serve_all, worth_all}
use caramelo.Edge.Counts.Since.{counts-serve_all}
use caramelo.Edge.Pool.State.{
  RoutePool, Tracked, no_counts, snapshot, find, live, set_tracked, drained,
}
use caramelo.Edge.Pool.Install.{install, new_pool}
use caramelo.Edge.Pool.Requests.{begin, end, sweep, inflight, ok, overdue, state, mark}
use caramelo.Edge.Pool.Pick.{pick}
use caramelo.Edge.Pool.Pick.Rotation.{Picks, pick-Picks}
use caramelo.Edge.Pool.Invariant.{PoolInv, after_begin}
use caramelo.Edge.Pool.Invariant.Steps.{
  step, run, run-new_pool-PoolInv, PoolCall, picks, begins, ends, marks, sweeps, installs,
}
use caramelo.Edge.Pool.Drains.{drains, cuts, outstanding, pending, sweep-accounts}
use caramelo.Edge.Pool.Drains.Histories.{reported, notified, called_off, run-reported}
use caramelo.Edge.Pool.Drains.Marks.{off_by_state}
use caramelo.Edge.Pool.Drains.Passes.{carried}
use caramelo.Edge.Pool.RoundTrip.{end-begin}

abbrev target_at : ℕ → ℕ → Target
target_at replica port = record {
  replica = replica;
  port = port;
  state = active;
  inflight = 0;
  since = 0;
  detail = [];
}

abbrev shop : List Target → Route
shop targets = record {
  host = codes "shop.example";
  kind = https;
  app = codes "shop";
  env = codes "main";
  service = codes "web";
  targets = targets;
  via = [];
  drain = 0;
  created_at = 0;
}

-- Replicas 1 and 2, given out of order.
abbrev two : Route
two = shop (target_at 2 20002 ∷ target_at 1 20001 ∷ [])

abbrev leaving : Route
leaving = shop (record (target_at 1 20001) { state = draining } ∷ target_at 2 20002 ∷ [])

two_pool : RoutePool
two_pool = (new_pool 100 0 0 two).pool

map_option : Option Target → Option ℕ
map_option none = none
map_option (some t) = some t.replica

first_pick : map_option (pick [] 200 two_pool).1 ≡ some 1
unfolding two_pool new_pool pick install map_option lookup live
first_pick = refl

pick-Picks_example : Picks (1 ∷ []) 200 two_pool (pick (1 ∷ []) 200 two_pool)
pick-Picks_example = pick-Picks (1 ∷ []) 200 two_pool

run-new_pool-PoolInv_example : PoolInv (
    run
      (new_pool 100 0 0 two).pool
      (picks [] 200 ∷ begins 1 none ∷ installs 300 2 leaving ∷ sweeps 400 ∷ ends 500 1 1 ∷ []))
run-new_pool-PoolInv_example =
    run-new_pool-PoolInv 100 0 0 two
      (picks [] 200 ∷ begins 1 none ∷ installs 300 2 leaving ∷ sweeps 400 ∷ ends 500 1 1 ∷ [])

-- Replica 1 drains with a request open.
leaving_pool : RoutePool
leaving_pool = run two_pool (begins 1 (some 7) ∷ installs 300 2 leaving ∷ [])

-- Replica 1 begins to drain, is put back, and drains again until its request ends.
abbrev back_and_forth : List PoolCall
back_and_forth =
    begins 1 none
    ∷ installs 300 2 leaving
    ∷ marks 400 (record { replica = 1; kind = state; state = active; at = 0; detail = [] })
    ∷ marks 500 (record { replica = 1; kind = state; state = draining; at = 0; detail = [] })
    ∷ ends 600 1 1
    ∷ sweeps 700
    ∷ []

back_and_forth-counts :
    (reported two_pool back_and_forth ≡ 1)
    × (notified two_pool back_and_forth ≡ 2)
    × (called_off two_pool back_and_forth ≡ 1)
unfolding two_pool new_pool install lookup live find off_by_state pending outstanding drains carried
    step begin set_tracked insert erase mark valid_state end drained sweep
back_and_forth-counts = (refl, refl, refl)

run-reported_example :
    reported two_pool back_and_forth
      + outstanding (run two_pool back_and_forth)
      + called_off two_pool back_and_forth
    ≡ outstanding two_pool + notified two_pool back_and_forth
run-reported_example = run-reported two_pool back_and_forth

sweep-accounts_example :
    let s = sweep 40_000_000_000 leaving_pool in
    (drains s.events + outstanding s.pool ≡ outstanding leaving_pool)
    × (cuts s.events + inflight s.pool ≡ inflight leaving_pool)
    × All (λ ts. overdue leaving_pool.drain 40_000_000_000 ts ≡ false) (s.pool).targets
sweep-accounts_example = sweep-accounts 40_000_000_000 leaving_pool

two_pool-PoolInv : PoolInv two_pool
unfolding two_pool run
two_pool-PoolInv = run-new_pool-PoolInv 100 0 0 two []

begun : RoutePool
unfolding begin
begun = after_begin two_pool (begin 2 none two_pool)

begin_two : begin 2 none two_pool ≡ ok (begun, 1)
unfolding begin begun two_pool new_pool install find live lookup
begin_two = refl

end-begin_example :
    end 500 2 1 begun
    ≡ record { pool = record two_pool { seq = suc two_pool.seq }; events = []; draining = none }
unfolding two_pool new_pool install
end-begin_example = end-begin 500 2 none two_pool begun 1 two_pool-PoolInv begin_two

abbrev mixed : List Request
mixed = answered 1 200 false ∷ answered 2 503 false ∷ answered 9 0 true ∷ turned_away ∷ []

mixed_worth : worth_all mixed ≡ record { requests = 4; status5xx = 2; connect_failures = 1 }
unfolding plus add_request
mixed_worth = refl

abbrev tracked_at : ℕ → Tracked
tracked_at replica = record {
  t = target_at replica 20000;
  failed_until = 0;
  conns = [];
  reported = false;
  incarnation = replica;
  counted = record { requests = 5; status5xx = 1; connect_failures = 0 };
}

abbrev counting_pool : RoutePool
counting_pool = record {
  host = codes "shop.example";
  drain_option = 0;
  drain = 1;
  targets = tracked_at 1 ∷ tracked_at 2 ∷ [];
  next = 0;
  seq = 0;
  unrouted = no_counts;
  marks = record { at = 50; unrouted = no_counts; per = [] } ∷ [];
}

counts-serve_all_example :
    (counts 120 (serve_all mixed (snapshot 100 counting_pool))).total ≡ worth_all mixed
counts-serve_all_example =
    counts-serve_all counting_pool 100 120 mixed (((λ e. omega arith), tt), (tt, tt))
      (omega arith, tt) (omega arith)
