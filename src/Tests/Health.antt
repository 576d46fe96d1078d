-- ===== src/Tests/Health.antt =====
-- internal/env/health_loop.go on a replica in the pools of two hosts, of which one holds it.
use caramelo.Common.{
  ◌≡◌, refl, List, [], ◌∷◌, none, codes, Bytes, true, false, bytes_beq, All, lookup,
}
use caramelo.Edge.{TargetState, state_eq}
use caramelo.Env.Health.{
  HealthLoop, failures_of, fails_at, was_down, Seen, not_found, restarted_times, silent, answered,
  replica_round,
}
use caramelo.Env.Health.Rounds.{watch, IsSilent, Leaves}
use caramelo.Env.Health.Rows.{Moved}
use caramelo.Env.Health.Recovery.{watch-Leaves, replica_round-Leaves}
use caramelo.Env.Health.Targets.{
  RouteRow, set_target_state, set_rows, to_set, also_changed, after_rows,
}

abbrev key : Bytes
key = codes "4/web/1"

abbrev silence : Seen
silence = record { inspected = restarted_times 2; verdict = silent; restart_works = true }

silence-IsSilent : IsSilent silence
silence-IsSilent = record { failed_probe = refl; seen_at_all = λ e. cc; can_restart = refl }

abbrev new_loop : HealthLoop
new_loop = record { failures = 0; fails = []; restarts = []; down = [] }

abbrev route_row : TargetState → RouteRow
route_row state = record {
  service = codes "web";
  readable = true;
  targets =
      record { replica = 1; state = state; writable = true }
      ∷ record { replica = 2; state = TargetState.active; writable = true }
      ∷ [];
}

abbrev in_pool : List RouteRow
in_pool = route_row TargetState.active ∷ route_row TargetState.held ∷ []

none_failed_yet : fails_at key new_loop ≡ 0
unfolding fails_at lookup
none_failed_yet = refl

not_down_yet : was_down key new_loop ≡ false
unfolding was_down lookup
not_down_yet = refl

three_rounds : 3 ≡ failures_of new_loop
unfolding failures_of
three_rounds = refl

unhealthy_taken : (set_target_state (codes "web") 1 TargetState.unhealthy in_pool).error ≡ none
unfolding set_target_state set_rows to_set also_changed after_rows bytes_beq
unhealthy_taken = refl

abbrev out_of_it : List RouteRow
out_of_it = route_row TargetState.unhealthy ∷ route_row TargetState.held ∷ []

active_taken : (set_target_state (codes "web") 1 TargetState.active out_of_it).error ≡ none
unfolding set_target_state set_rows to_set also_changed after_rows bytes_beq
active_taken = refl

watch-Leaves_example :
    ((watch key (codes "web") 1 (silence ∷ silence ∷ []) new_loop in_pool).1 ≡ in_pool)
    × (let end = watch key (codes "web") 1 (silence ∷ silence ∷ silence ∷ []) new_loop in_pool in
        Leaves key (codes "web") 1 TargetState.unhealthy true in_pool end.0 end.1
        × All (Moved (codes "web") 1 TargetState.unhealthy) end.1)
watch-Leaves_example =
    watch-Leaves key (codes "web") 1 (silence ∷ silence ∷ []) silence new_loop in_pool
      (silence-IsSilent, (silence-IsSilent, tt)) silence-IsSilent none_failed_yet not_down_yet
      three_rounds unhealthy_taken

abbrev down_loop : HealthLoop
down_loop = record { failures = 0; fails = []; restarts = []; down = (key, true) ∷ [] }

abbrev answer : Seen
answer = record { inspected = not_found; verdict = answered; restart_works = true }

is_down : was_down key down_loop ≡ true
unfolding was_down lookup bytes_beq
is_down = refl

replica_round-Leaves_example :
    let r = replica_round key (codes "web") 1 answer down_loop out_of_it in
    Leaves key (codes "web") 1 TargetState.active false out_of_it r.loop r.routes
    × All (Moved (codes "web") 1 TargetState.active) r.routes
replica_round-Leaves_example =
    replica_round-Leaves key (codes "web") 1 answer down_loop out_of_it refl (λ e. cc) is_down
      active_taken
