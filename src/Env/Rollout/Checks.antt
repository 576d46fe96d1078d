-- ===== src/Env/Rollout/Checks.antt =====
-- The calls of a replica's start, and its health check and probe (internal/env/rollout.go and
-- replica.go).
use caramelo.Common.{
  ℕ, zero, suc, ◌-◌, ◌≡◌, refl, inl, inr, ◌⊎◌, true, false, [], ◌∷◌, ◌++◌, some, if◌then◌else◌, ltb,
  arith, Any, Any-append_right, Bool-cases,
}
use caramelo.Env.Rollout.{
  HealthStatus, health_none, health_unset, health_waiting, health_ok, health_failed, Replica,
  StepName, Call, remove_container, stop_container, read_secrets, run_container, wait_healthy,
  probe, sleep, push_table, set_targets, wait_drain, Answer, is_refused, Log, Plant, call_failed,
  Rollout, ok, err, Result, M, ◌>>=◌, done, Plan, step, ask, must,
}
use caramelo.Env.Rollout.Start.{
  or_step, step_on_error, health_replica, has_check, probe_rest, probe_replica, probe_tries,
}
use caramelo.Env.Rollout.Extends.{
  Ending, Ends, Whatever, bind-Ends, done-Ends, must-Ends, ask-Ends, if-Ends, fail-Ends,
  weaken-Ends,
}

-- What may be asked before the pool is changed: a container is removed only if it has a fresh
-- replica's name.
abbrev pub StartCall : Plan → Call → Type 0
StartCall p (remove_container name) = (i port : ℕ) × (p.spec_name i port ≡ some name)
StartCall p (stop_container name) = ⊥
StartCall p read_secrets = Unit
StartCall p (run_container i name port) = Unit
StartCall p (wait_healthy i) = Unit
StartCall p (probe i) = Unit
StartCall p sleep = Unit
StartCall p push_table = ⊥
StartCall p (set_targets id rows) = ⊥
StartCall p (wait_drain i) = ⊥

abbrev pub StartEntry : Plan → Call × Answer → Type 0
StartEntry p e = StartCall p e.0

-- The call was answered, and not refused.
abbrev pub Answered : Call → Call × Answer → Type 0
Answered c e = (e.0 ≡ c) × (is_refused e.1 ≡ false)

HealthStatus-check :
    (h : HealthStatus) → ((h ≡ health_none) × (has_check h ≡ false)) ⊎ (has_check h ≡ true)
unfolding has_check
HealthStatus-check health_none = inl (refl, refl)
HealthStatus-check health_unset = inr refl
HealthStatus-check health_waiting = inr refl
HealthStatus-check health_ok = inr refl
HealthStatus-check health_failed = inr refl

module _ (p : Plan) where
  step_on_error-Ending :
      {A : Type 0} (Q : A → Log → Type 0) (i : ℕ) (n : StepName) (mend : Replica → Replica)
      (r : Rollout) (x : Result A × Rollout)
      → Ending (StartEntry p) Q r x
      → Ending (StartEntry p) Q r (step_on_error i n mend x)
  unfolding step_on_error step
  step_on_error-Ending Q i n mend r (ok a, s) e = e
  step_on_error-Ending Q i n mend r (err f, s) e = record {
    extends = record {
      added = e.extends.added;
      same_log = e.extends.same_log;
      each = e.extends.each;
    };
    on_ok = tt;
  }

  pub or_step-Ends :
      {A : Type 0} (Q : A → Log → Type 0) (i : ℕ) (n : StepName) (mend : Replica → Replica)
      (m : M A)
      → Ends (StartEntry p) Q m
      → Ends (StartEntry p) Q (or_step i n mend m)
  or_step-Ends Q i n mend m e r = step_on_error-Ending Q i n mend r (m r) (e r)

  module _ (plant : Plant) where
    pub health_replica-Ends :
        (rep : Replica)
        → Ends
            (StartEntry p)
            (λ u l. (rep.health ≡ health_none) ⊎ Any (Answered (wait_healthy rep.index)) l)
            (health_replica plant p rep)
    unfolding health_replica
    health_replica-Ends rep = elim (HealthStatus-check rep.health) [
      | inl (unchecked, skip) ↦ rw skip (done-Ends (StartEntry p) _ tt (inl unchecked))
      | inr waits ↦ rw waits (
          must-Ends (StartEntry p) plant _ (wait_healthy rep.index) (some rep) (λ a. tt)
            (λ a f. inr (inl (refl, f))))
    ]

    probe_then-Ends :
        (rep : Replica) (m : M (Unit {0}))
        → Ends (StartEntry p) (λ u l. Any (Answered (probe rep.index)) l) m
        → Ends
            (StartEntry p)
            (λ u l. Any (Answered (probe rep.index)) l)
            (do a ← ask plant (probe rep.index); (if is_refused a then m else done tt))
    probe_then-Ends rep m again =
        let answered = λ (l : Log). Any (Answered (probe rep.index)) l in
        bind-Ends (StartEntry p) (λ a l. l ≡ (probe rep.index, a) ∷ []) (λ u l. answered l)
          (ask plant (probe rep.index)) _
          (ask-Ends (StartEntry p) plant _ (probe rep.index) (λ a. tt) (λ a. refl))
          (λ a l same.
            if-Ends (StartEntry p) (λ u l'. answered (l ++ l')) (is_refused a) m (done tt)
              (λ again_.
                weaken-Ends (StartEntry p) (λ u l'. answered l') (λ u l'. answered (l ++ l')) m
                  (λ u l'. Any-append_right (Answered (probe rep.index)) l l') again)
              (λ fine_.
                done-Ends (StartEntry p) (λ u l'. answered (l ++ l')) tt
                  (rw same (inl (refl, fine_)))))

    probe_rest-Ends :
        (tries : ℕ) (rep : Replica)
        → Ends
            (StartEntry p)
            (λ u l. Any (Answered (probe rep.index)) l)
            (probe_rest plant p tries rep)
    unfolding probe_rest
    probe_rest-Ends zero rep = fail-Ends (StartEntry p) _ (call_failed (probe rep.index)) (some rep)
    probe_rest-Ends (suc tries) rep =
        bind-Ends (StartEntry p) Whatever _ (must plant sleep (some rep)) _
          (must-Ends (StartEntry p) plant Whatever sleep (some rep) (λ a. tt) (λ a f. tt))
          (λ u l q.
            weaken-Ends (StartEntry p) (λ u l'. Any (Answered (probe rep.index)) l') _ _
              (λ u l'. Any-append_right (Answered (probe rep.index)) l l')
              (probe_then-Ends rep (probe_rest plant p tries rep) (probe_rest-Ends tries rep)))

    pub probe_replica-Ends :
        (rep : Replica)
        → Ends
            (StartEntry p)
            (λ u l. (rep.port ≡ 0) ⊎ Any (Answered (probe rep.index)) l)
            (probe_replica plant p rep)
    unfolding probe_replica
    probe_replica-Ends rep = elim (Bool-cases (ltb 0 rep.port)) [
      | inr portless ↦ rw portless (done-Ends (StartEntry p) _ tt (inl (ground arith)))
      | inl has_port ↦ rw has_port (
          weaken-Ends (StartEntry p) (λ u l'. Any (Answered (probe rep.index)) l') _ _
            (λ u l' a. inr a)
            (probe_then-Ends rep (probe_rest plant p (probe_tries - 1) rep)
              (probe_rest-Ends (probe_tries - 1) rep)))
    ]
