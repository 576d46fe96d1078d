-- ===== src/Env/Rollout/Drained.antt =====
-- What is asked for while the old replicas of a rollout go (internal/env/rollout.go).
use caramelo.Common.{
  ℕ, ◌≡◌, refl, ◌∙◌, false, List, [], ◌∷◌, ◌++◌, none, Bytes, nat_eq, Option, some,
}
use caramelo.Env.Replicas.{LiveReplica}
use caramelo.Env.Rollout.{
  draining, Replica, step_drain, step_ok, step_skipped, remove_container, stop_container,
  wait_drain, Answer, fine, refused, drained, Plant, Rollout, ok, err, Result, Plan, add_step, step,
  must, stopped, step_stop,
}
use caramelo.Env.Rollout.Flip.{
  replicas_of, drain_step, await_drain, stop_replica, stop_result, drain_and_stop,
}
use caramelo.Env.Rollout.Extends.{
  Ending, Ends, Whatever, bind-Ends, done-Ends, step-Ends, must-Ends, ask-Ends, if-Ends, Extends,
  Extends-refl, Extends-trans,
}
use caramelo.Env.Rollout.Roll.{
  Drains, all_drained, stuck, drain_rest, drain_all, stop_legacy, legacy_result, after_drains,
}
use caramelo.Env.Rollout.FlipCalls.{DrainEntry}
use caramelo.Env.Rollout.Flips.{publish_targets-Ends}

module _ (plant : Plant) (p : Plan) where
  stop_replica-Ends :
      (container : Bytes) → Ends DrainEntry Whatever (stop_replica plant p container)
  unfolding stop_replica
  stop_replica-Ends container =
      bind-Ends DrainEntry Whatever Whatever (must plant (stop_container container) none) _
        (must-Ends DrainEntry plant Whatever (stop_container container) none (λ a. tt) (λ a f. tt))
        (λ u l q.
          must-Ends DrainEntry plant _ (remove_container container) none (λ a. tt) (λ a f. tt))

  stop_result-Ending :
      (i : ℕ) (r : Rollout) (x : Result (Unit {0}) × Rollout)
      → Ending DrainEntry Whatever r x
      → Ending DrainEntry Whatever r (stop_result plant p i x)
  unfolding stop_result step add_step
  stop_result-Ending i r (ok u, s) e = record {
    extends = record {
      added = e.extends.added;
      same_log = e.extends.same_log;
      each = e.extends.each;
    };
    on_ok = tt;
  }
  stop_result-Ending i r (err f, s) e = record {
    extends = record {
      added = e.extends.added;
      same_log = e.extends.same_log;
      each = e.extends.each;
    };
    on_ok = tt;
  }

  drain_step-Ends : (i : ℕ) (a : Answer) → Ends DrainEntry Whatever (drain_step plant p i a)
  unfolding drain_step
  drain_step-Ends i fine = step-Ends DrainEntry Whatever i step_drain step_ok draining tt
  drain_step-Ends i (drained n b) = step-Ends DrainEntry Whatever i step_drain step_ok draining tt
  drain_step-Ends i refused = step-Ends DrainEntry Whatever i step_drain step_skipped draining tt

  await_drain-Ends : (i : ℕ) → Ends DrainEntry Whatever (await_drain plant p i)
  unfolding await_drain
  await_drain-Ends i =
      if-Ends DrainEntry Whatever p.has_edge _ _
        (λ e. ask-Ends DrainEntry plant Whatever (wait_drain i) (λ a. tt) (λ a. tt))
        (λ e. done-Ends DrainEntry Whatever (drained 0 false) tt)

  drain_and_stop-Ends :
      (old : LiveReplica) (pool : List Replica)
      → Ends DrainEntry Whatever (drain_and_stop plant p old pool)
  unfolding drain_and_stop
  drain_and_stop-Ends old pool =
      bind-Ends DrainEntry Whatever Whatever (await_drain plant p old.index) _
        (await_drain-Ends old.index)
        (λ a l q.
          bind-Ends DrainEntry Whatever Whatever (drain_step plant p old.index a) _
            (drain_step-Ends old.index a)
            (λ u l q.
              bind-Ends DrainEntry Whatever Whatever _ _
                (λ r.
                  stop_result-Ending old.index r (stop_replica plant p old.container r)
                    (stop_replica-Ends old.container r))
                (λ u l q. publish_targets-Ends plant p pool)))

  drain_rest-Extends :
      (go_on : Rollout → Drains × Rollout) (left : List LiveReplica) (r : Rollout)
      (x : Result (Unit {0}) × Rollout)
      → ((s : Rollout) → Extends DrainEntry s (go_on s).1)
      → Extends DrainEntry r x.1
      → Extends DrainEntry r (drain_rest go_on left x).1
  unfolding drain_rest
  drain_rest-Extends go_on left r (ok u, s) later e =
      Extends-trans DrainEntry r s (go_on s).1 e (later s)
  drain_rest-Extends go_on left r (err f, s) later e = e

  pub drain_all-Extends :
      (fresh : List Replica) (os : List LiveReplica) (r : Rollout)
      → Extends DrainEntry r (drain_all plant p fresh os r).1
  unfolding drain_all
  drain_all-Extends fresh [] r = Extends-refl DrainEntry r r refl
  drain_all-Extends fresh (o ∷ os) r =
      let pool = fresh ++ replicas_of p draining os in
      drain_rest-Extends (drain_all plant p fresh os) (o ∷ os) r (drain_and_stop plant p o pool r)
        (λ s. drain_all-Extends fresh os s) (drain_and_stop-Ends o pool r).extends

  stop_legacy-Ends :
      (legacy : Option LiveReplica) → Ends DrainEntry Whatever (stop_legacy plant p legacy)
  unfolding stop_legacy
  stop_legacy-Ends none = done-Ends DrainEntry Whatever tt tt
  stop_legacy-Ends (some old) =
      bind-Ends DrainEntry Whatever Whatever (stop_replica plant p old.container) _
        (stop_replica-Ends old.container)
        (λ u l q. step-Ends DrainEntry Whatever 0 step_stop step_ok stopped tt)

  legacy_result-log :
      (fresh : List Replica) (x : Result (Unit {0}) × Rollout)
      → (legacy_result plant p fresh x).rollout.log ≡ x.1.log
  unfolding legacy_result
  legacy_result-log fresh (ok u, s) = refl
  legacy_result-log fresh (err f, s) = refl

  pub after_drains-Extends :
      (fresh : List Replica) (legacy : Option LiveReplica) (r : Rollout) (x : Drains × Rollout)
      → Extends DrainEntry r x.1
      → Extends DrainEntry r (after_drains plant p fresh legacy x).rollout
  unfolding after_drains
  after_drains-Extends fresh legacy r (stuck os f, s) e = record {
    added = e.added;
    same_log = e.same_log;
    each = e.each;
  }
  after_drains-Extends fresh legacy r (all_drained, s) e =
      let last = Extends-trans DrainEntry r s _ e (stop_legacy-Ends legacy s).extends in
      record {
        added = last.added;
        same_log = legacy_result-log fresh (stop_legacy plant p legacy s) ∙ last.same_log;
        each = last.each;
      }
