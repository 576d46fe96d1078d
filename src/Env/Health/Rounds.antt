-- ===== src/Env/Health/Rounds.antt =====
-- One round of the health loop after another (internal/env/health_loop.go).
use caramelo.Common.{
  ℕ, suc, ◌+◌, ◌≤◌, ◌<◌, ◌≡◌, ◌≢◌, refl, ap, ◌∙◌, Bool, true, false, List, [], ◌∷◌, ◌++◌, none,
  arith, nat_eq, bytes_eq, Bytes, ltb, All, length,
}
use caramelo.Edge.{TargetState, state_eq}
use caramelo.Env.Health.{
  HealthLoop, failures_of, fails_at, fail, pass, was_down, set_down, restart_moved, Inspected,
  restarted_times, not_found, inspect_error, out_of_pool, silent, Seen, Round, with_rows, restart,
  restart_if_set, unhealthy, silent_round, judge, replica_round,
}
use caramelo.Env.Health.Keys.{
  fails_at-fail, fails_at-pass, was_down-set_down, ltb_of_lt, fails_at-set_down, failures_of-fail,
  was_down-fail, restart_moved-SameAt, SameAt,
}
use caramelo.Env.Health.Targets.{RouteRow, set_target_state}

-- One round after the other, each on what the last one left.
unfoldable pub watch :
    Bytes → Bytes → ℕ → List Seen → HealthLoop → List RouteRow → HealthLoop × List RouteRow
watch key service replica [] l routes = (l, routes)
watch key service replica (s ∷ ss) l routes =
    let r = replica_round key service replica s l routes in
    watch key service replica ss r.loop r.routes

-- The replica was inspected, its probe failed, and a restart would work.
pub record IsSilent (s : Seen) : Type 0 where
  pub failed_probe : s.verdict ≡ silent
  pub seen_at_all : s.inspected ≢ inspect_error
  pub can_restart : s.restart_works ≡ true

module _ (key service : Bytes) (replica : ℕ) where
  judge-silent :
      (s : Seen) (l : HealthLoop) (routes : List RouteRow)
      → s.verdict ≡ silent
      → judge key service replica s l routes
        ≡ silent_round key service replica s.restart_works
            (suc (fails_at key l))
            (fail key l)
            routes
  unfolding judge
  judge-silent s l routes e = rw (e, judge, fails_at-fail key l) refl

  -- The replica's round as a round of `judge`, on a loop that is the same at the key.
  pub record Judged (s : Seen) (l : HealthLoop) (routes : List RouteRow) : Type 0 where
    pub from : HealthLoop
    pub same : SameAt key l from
    pub same_loop :
        (replica_round key service replica s l routes).loop
        ≡ (judge key service replica s from routes).loop
    pub same_routes :
        (replica_round key service replica s l routes).routes
        ≡ (judge key service replica s from routes).routes

  pub replica_round-Judged :
      (s : Seen) (l : HealthLoop) (routes : List RouteRow) (i : Inspected)
      → s.inspected ≡ i
      → i ≢ inspect_error
      → Judged s l routes
  unfolding replica_round judge
  replica_round-Judged s l routes (restarted_times n) e ok_ = record {
    from = (restart_moved key n l).0;
    same = restart_moved-SameAt key n l;
    same_loop = rw (e, replica_round) refl;
    same_routes = rw (e, replica_round) refl;
  }
  replica_round-Judged s l routes not_found e ok_ = record {
    from = l;
    same = record { same_fails = refl; same_down = refl; same_failures = refl };
    same_loop = rw (e, replica_round) refl;
    same_routes = rw (e, replica_round) refl;
  }
  replica_round-Judged s l routes inspect_error e ok_ = absurd (ok_ refl)

  -- A silent round that is not the last: one more failure, and all else the same.
  pub record Waits (l : HealthLoop) (routes : List RouteRow) (l' : HealthLoop)
      (routes' : List RouteRow) : Type 0 where
    routes_same : routes' ≡ routes
    one_more : fails_at key l' ≡ suc (fails_at key l)
    down_same : was_down key l' ≡ was_down key l
    failures_same : failures_of l' ≡ failures_of l

  silent-Waits :
      (s : Seen) (l : HealthLoop) (routes : List RouteRow)
      → IsSilent s
      → suc (fails_at key l) < failures_of l
      → let r = replica_round key service replica s l routes in Waits l routes r.loop r.routes
  unfolding silent_round
  silent-Waits s l routes quiet early =
      let j = replica_round-Judged s l routes s.inspected refl quiet.seen_at_all in
      let from = j.from in
      let same = judge-silent s from routes quiet.failed_probe in
      let test : ltb (suc (fails_at key from)) (failures_of (fail key from)) ≡ true =
        ltb_of_lt _ _
          (rw (failures_of-fail key from, j.same.same_fails, j.same.same_failures) early) in
      record {
        routes_same = j.same_routes ∙ rw (same, test) refl;
        one_more =
            ap (fails_at key) (j.same_loop ∙ rw (same, test) refl)
            ∙ fails_at-fail key from
            ∙ ap suc j.same.same_fails;
        down_same =
            ap (was_down key) (j.same_loop ∙ rw (same, test) refl)
            ∙ was_down-fail key from
            ∙ j.same.same_down;
        failures_same =
            ap failures_of (j.same_loop ∙ rw (same, test) refl)
            ∙ failures_of-fail key from
            ∙ j.same.same_failures;
      }

  -- The rows with the replica in that state, and what is known of the loop.
  pub record Leaves (want : TargetState) (down : Bool) (routes : List RouteRow) (l' : HealthLoop)
      (routes' : List RouteRow) : Type 0 where
    pub rows_set : routes' ≡ (set_target_state service replica want routes).routes
    pub none_failed : fails_at key l' ≡ 0
    pub is_down : was_down key l' ≡ down

  silent_round-Leaves :
      (works : Bool) (fails : ℕ) (l : HealthLoop) (routes : List RouteRow)
      → works ≡ true
      → failures_of l ≤ fails
      → was_down key l ≡ false
      → (set_target_state service replica TargetState.unhealthy routes).error ≡ none
      → let r = silent_round key service replica works fails l routes in
        Leaves TargetState.unhealthy true routes r.loop r.routes
  unfolding silent_round unhealthy restart_if_set restart with_rows
  silent_round-Leaves works fails l routes can late still_up rows_ok =
      let rows = set_target_state service replica TargetState.unhealthy routes in
      let test : ltb fails (failures_of l) ≡ false = ground arith in
      let same : silent_round key service replica works fails l routes
          ≡ restart key service replica true fails
              (with_rows (set_down key l) (out_of_pool fails ∷ []) rows) =
        rw (test, still_up, rows_ok, can) refl in
      record {
        rows_set = ap (λ (r : Round). r.routes) same;
        none_failed =
            ap (λ (r : Round). fails_at key r.loop) same
            ∙ fails_at-set_down key (pass key (set_down key l))
            ∙ fails_at-pass key (set_down key l);
        is_down =
            ap (λ (r : Round). was_down key r.loop) same
            ∙ was_down-set_down key (pass key (set_down key l));
      }

  silent-Leaves :
      (s : Seen) (l : HealthLoop) (routes : List RouteRow)
      → IsSilent s
      → suc (fails_at key l) ≡ failures_of l
      → was_down key l ≡ false
      → (set_target_state service replica TargetState.unhealthy routes).error ≡ none
      → let r = replica_round key service replica s l routes in
        Leaves TargetState.unhealthy true routes r.loop r.routes
  silent-Leaves s l routes quiet last still_up rows_ok =
      let j = replica_round-Judged s l routes s.inspected refl quiet.seen_at_all in
      let from = j.from in
      let same = judge-silent s from routes quiet.failed_probe in
      let left =
        silent_round-Leaves s.restart_works (suc (fails_at key from)) (fail key from) routes
          quiet.can_restart
          (rw (failures_of-fail key from, j.same.same_fails, j.same.same_failures)
            (omega (arith, last)))
          (was_down-fail key from ∙ j.same.same_down ∙ still_up) rows_ok in
      record {
        rows_set = j.same_routes ∙ ap (λ (r : Round). r.routes) same ∙ left.rows_set;
        none_failed =
            ap (fails_at key) (j.same_loop ∙ ap (λ (r : Round). r.loop) same) ∙ left.none_failed;
        is_down = ap (was_down key) (j.same_loop ∙ ap (λ (r : Round). r.loop) same) ∙ left.is_down;
      }

  -- The rounds before the last change nothing of the routes, and the last takes the replica out.
  pub watch_out :
      (ss : List Seen) (s : Seen) (l : HealthLoop) (routes : List RouteRow)
      → All IsSilent ss
      → IsSilent s
      → suc (fails_at key l + length ss) ≡ failures_of l
      → was_down key l ≡ false
      → (set_target_state service replica TargetState.unhealthy routes).error ≡ none
      → ((watch key service replica ss l routes).1 ≡ routes)
        × (let end = watch key service replica (ss ++ s ∷ []) l routes in
            Leaves TargetState.unhealthy true routes end.0 end.1)
  unfolding watch
  watch_out [] s l routes quiet last enough still_up rows_ok =
      (refl, silent-Leaves s l routes last (omega (arith, enough)) still_up rows_ok)
  watch_out (t ∷ ss) s l routes quiet last enough still_up rows_ok =
      let r = replica_round key service replica t l routes in
      let w = silent-Waits t l routes quiet.0 (omega (arith, enough)) in
      let rows_same = w.routes_same in
      let rest =
        watch_out ss s r.loop r.routes quiet.1 last
          (omega (arith, enough, w.one_more, w.failures_same)) (w.down_same ∙ still_up)
          (rw rows_same rows_ok) in
      (
        rest.0 ∙ rows_same,
        record {
          rows_set =
              rest.1.rows_set
              ∙ ap (λ rs. (set_target_state service replica TargetState.unhealthy rs).routes)
                  rows_same;
          none_failed = rest.1.none_failed;
          is_down = rest.1.is_down;
        },
      )
