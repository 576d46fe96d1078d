-- ===== src/Env/Health/Recovery.antt =====
-- How long a silent replica stays in the pool, and how it comes back (internal/env/health_loop.go).
use caramelo.Common.{
  ℕ, ◌+◌, ◌≡◌, ◌≢◌, refl, subst, sym, ap, ◌∙◌, true, false, List, [], ◌∷◌, ◌++◌, none, arith,
  nat_eq, bytes_eq, Bytes, All, length,
}
use caramelo.Edge.{TargetState, state_eq}
use caramelo.Env.Health.{
  HealthLoop, failures_of, fails_at, pass, was_down, inspect_error, answered, Seen, Round,
  with_rows, healthy, judge, replica_round,
}
use caramelo.Env.Health.Rounds.{replica_round-Judged, Leaves, watch, watch_out, IsSilent}
use caramelo.Env.Health.Rows.{Moved, set_target_state-Moved}
use caramelo.Env.Health.Keys.{fails_at-pass, was_down-up, fails_at-up, was_down-pass}
use caramelo.Env.Health.Targets.{RouteRow, set_target_state}

answered-up :
    (key service : Bytes) (replica : ℕ) (l : HealthLoop) (routes : List RouteRow)
    → was_down key l ≡ true
    → let r = healthy key service replica l routes in
      Leaves key service replica TargetState.active false routes r.loop r.routes
unfolding healthy with_rows
answered-up key service replica l routes down =
    rw (was_down-pass key l, down, healthy)
      (record {
        rows_set = refl;
        none_failed = fails_at-up key (pass key l) ∙ fails_at-pass key l;
        is_down = was_down-up key (pass key l);
      })

judge-answered :
    (key service : Bytes) (replica : ℕ) (s : Seen) (l : HealthLoop) (routes : List RouteRow)
    → s.verdict ≡ answered
    → judge key service replica s l routes ≡ healthy key service replica l routes
unfolding judge
judge-answered key service replica s l routes e = rw (e, judge) refl

-- A replica that is in the pool stays there while fewer rounds in a row than the loop's limit find it
-- silent, and the round that makes up the limit takes it out: its rows are unhealthy but for those
-- that are held, it is marked as down, and its failures count from 0 again. The restarts work, and
-- the store takes the rows.
pub watch-Leaves :
    (key service : Bytes) (replica : ℕ) (ss : List Seen) (s : Seen) (l : HealthLoop)
    (routes : List RouteRow)
    → All IsSilent ss
    → IsSilent s
    → fails_at key l ≡ 0
    → was_down key l ≡ false
    → length ss + 1 ≡ failures_of l
    → (set_target_state service replica TargetState.unhealthy routes).error ≡ none
    → ((watch key service replica ss l routes).1 ≡ routes)
      × (let end = watch key service replica (ss ++ s ∷ []) l routes in
          Leaves key service replica TargetState.unhealthy true routes end.0 end.1
          × All (Moved service replica TargetState.unhealthy) end.1)
watch-Leaves key service replica ss s l routes quiet last fresh still_up enough rows_ok =
    let out =
      watch_out key service replica ss s l routes quiet last (omega (arith, fresh, enough)) still_up
        rows_ok in
    (
      out.0,
      (
        out.1,
        subst (All (Moved service replica TargetState.unhealthy)) (sym out.1.rows_set)
            (set_target_state-Moved service replica TargetState.unhealthy routes rows_ok),
      ),
    )

-- The first round that a replica marked as down answers puts it back: its rows are active but for
-- those that are held, and it is down no more. The replica could be inspected, and the store takes
-- the rows.
pub replica_round-Leaves :
    (key service : Bytes) (replica : ℕ) (s : Seen) (l : HealthLoop) (routes : List RouteRow)
    → s.verdict ≡ answered
    → s.inspected ≢ inspect_error
    → was_down key l ≡ true
    → (set_target_state service replica TargetState.active routes).error ≡ none
    → (let r = replica_round key service replica s l routes in
        Leaves key service replica TargetState.active false routes r.loop r.routes
        × All (Moved service replica TargetState.active) r.routes)
replica_round-Leaves key service replica s l routes answers seen down rows_ok =
    let j = replica_round-Judged key service replica s l routes s.inspected refl seen in
    let from = j.from in
    let same = judge-answered key service replica s from routes answers in
    let back = answered-up key service replica from routes (j.same.same_down ∙ down) in
    let rows_set = j.same_routes ∙ ap (λ (r : Round). r.routes) same ∙ back.rows_set in
    let loop_same = j.same_loop ∙ ap (λ (r : Round). r.loop) same in
    (
      record {
        rows_set = rows_set;
        none_failed = ap (fails_at key) loop_same ∙ back.none_failed;
        is_down = ap (was_down key) loop_same ∙ back.is_down;
      },
      subst (All (Moved service replica TargetState.active)) (sym rows_set)
          (set_target_state-Moved service replica TargetState.active routes rows_ok),
    )
