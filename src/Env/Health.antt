-- ===== src/Env/Health.antt =====
-- internal/env/health_loop.go: replicas that fail their probe leave the pool and are restarted, and
-- come back when they answer. A key stands for healthKey's text, and a
-- replica has a container. What the driver, the probe and the
-- store answer is given; the loop's log and the JSON of events are left out.
pub mod Targets
pub mod Keys
pub mod Rounds
pub mod Rows
pub mod Recovery
use caramelo.Common.{
  ℕ, zero, suc, ◌+◌, Bool, true, false, not, ◌&&◌, ◌||◌, List, [], ◌∷◌, ◌++◌, Option, none, some,
  ◌==◌, nat_eq, bytes_eq, Bytes, if◌then◌else◌, ltb, insert, erase, lookup,
}
use caramelo.Edge.{TargetState, state_eq}
use caramelo.Env.Health.Targets.{RouteRow, HealthError, inspect_failed, SetRows, set_target_state}

abbrev pub default_health_failures : ℕ
default_health_failures = 3

-- The loop's state. The map `down` holds true only.
pub record HealthLoop : Type 0 where
  pub failures : ℕ
  pub fails : List (Bytes × ℕ)
  pub restarts : List (Bytes × ℕ)
  pub down : List (Bytes × Bool)

unfoldable pub failures_of : HealthLoop → ℕ
failures_of l = if ltb 0 l.failures then l.failures else default_health_failures

unfoldable pub fails_at : Bytes → HealthLoop → ℕ
fails_at key l = elim (lookup key l.fails) [ none ↦ 0 | some n ↦ n ]

unfoldable pub fail : Bytes → HealthLoop → HealthLoop
unfolding fails_at
fail key l = record l { fails = insert key (suc (fails_at key l)) l.fails }

unfoldable pub pass : Bytes → HealthLoop → HealthLoop
pass key l = record l { fails = erase key l.fails }

unfoldable pub was_down : Bytes → HealthLoop → Bool
was_down key l = elim (lookup key l.down) [ none ↦ false | some b ↦ b ]

unfoldable pub set_down : Bytes → HealthLoop → HealthLoop
set_down key l = record l { down = insert key true l.down }

unfoldable pub up : Bytes → HealthLoop → HealthLoop
up key l = record l { down = erase key l.down }

-- The loop after it, and by how much the count has moved, if it had been seen.
unfoldable pub restart_moved : Bytes → ℕ → HealthLoop → HealthLoop × Option ℕ
restart_moved key now l = (
  record l { restarts = insert key now l.restarts },
  elim (lookup key l.restarts) [
    | none ↦ none
    | some before ↦ if ltb before now then some before else none
  ],
)

pub data HealthEvent : Type 0 where
  crashloop : ℕ → ℕ → HealthEvent
  out_of_pool restarted : ℕ → HealthEvent
  back_in_pool : HealthEvent

pub data Inspected : Type 0 where
  restarted_times : ℕ → Inspected
  not_found inspect_error : Inspected

pub data Verdict : Type 0 where
  nothing_to_probe answered silent : Verdict

-- What one round sees of a replica.
pub record Seen : Type 0 where
  pub inspected : Inspected
  pub verdict : Verdict
  pub restart_works : Bool

pub record Round : Type 0 where
  pub loop : HealthLoop
  pub routes : List RouteRow
  pub events : List HealthEvent
  pub changed : Bool
  pub error : Option HealthError

-- After the rows have been set: with an error the round ends.
unfoldable pub with_rows : HealthLoop → List HealthEvent → SetRows → Round
with_rows l events s = record {
  loop = l;
  routes = s.routes;
  events = events;
  changed = s.changed;
  error = s.error;
}

module _ (key service : Bytes) (replica : ℕ) where
  unfoldable pub healthy : HealthLoop → List RouteRow → Round
  healthy l routes =
      if not (was_down key (pass key l))
      then record { loop = pass key l; routes = routes; events = []; changed = false; error = none }
      else with_rows (up key (pass key l)) (back_in_pool ∷ [])
          (set_target_state service replica TargetState.active routes)

  -- The restart, after the replica has left the pool.
  unfoldable pub restart : Bool → ℕ → Round → Round
  restart works fails r =
      if works
      then record r {
        loop = set_down key (pass key r.loop);
        events = r.events ++ restarted fails ∷ [];
      }
      else r

  unfoldable pub restart_if_set : Bool → ℕ → HealthLoop → SetRows → Round
  unfolding restart with_rows
  restart_if_set works fails l s = elim s.error [
    | none ↦ restart works fails (with_rows l (out_of_pool fails ∷ []) s)
    | some e ↦ with_rows l [] s
  ]

  unfoldable pub unhealthy : Bool → ℕ → HealthLoop → List RouteRow → Round
  unhealthy works fails l routes =
      if was_down key l
      then restart works fails (record {
        loop = set_down key l;
        routes = routes;
        events = [];
        changed = false;
        error = none;
      })
      else restart_if_set works fails (set_down key l)
          (set_target_state service replica TargetState.unhealthy routes)

  unfoldable pub silent_round : Bool → ℕ → HealthLoop → List RouteRow → Round
  silent_round works fails l routes =
      if ltb fails (failures_of l)
      then record { loop = l; routes = routes; events = []; changed = false; error = none }
      else unhealthy works fails l routes

  unfoldable pub judge : Seen → HealthLoop → List RouteRow → Round
  judge seen l routes = elim seen.verdict [
    | nothing_to_probe ↦ record {
      loop = l;
      routes = routes;
      events = [];
      changed = false;
      error = none;
    }
    | answered ↦ healthy l routes
    | silent ↦ silent_round seen.restart_works (fails_at key (fail key l)) (fail key l) routes
  ]

  crash_events : ℕ → Option ℕ → List HealthEvent
  crash_events now none = []
  crash_events now (some before) = crashloop now before ∷ []

  unfoldable pub before_all : List HealthEvent → Round → Round
  before_all events r = record r { events = events ++ r.events }

  unfoldable pub replica_round : Seen → HealthLoop → List RouteRow → Round
  unfolding crash_events before_all
  replica_round seen l routes = elim seen.inspected [
    | inspect_error ↦ record {
      loop = l;
      routes = routes;
      events = [];
      changed = false;
      error = some inspect_failed;
    }
    | not_found ↦ judge seen l routes
    | restarted_times n ↦
        before_all (crash_events n (restart_moved key n l).1)
          (judge seen (restart_moved key n l).0 routes)
  ]
