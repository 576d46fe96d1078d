-- ===== src/Env/Rollout/Starts.antt =====
-- What `bringUpReplica` of internal/env/rollout.go asks for, and what its success shows.
use caramelo.Common.{
  ℕ, ◌≡◌, refl, subst, sym, ◌∙◌, inl, inr, ◌⊎◌, [], ◌++◌, none, some, Bytes, Any, Any-append_left,
  Any-append_right, Option-cases,
}
use caramelo.Env.Layout.{ReplicaPort, PortError, replica_port, at, no_port}
use caramelo.Env.Rollout.{
  starting, healthy, health_none, health_ok, Replica, step_start, step_health, step_probe, step_ok,
  remove_container, read_secrets, run_container, wait_healthy, probe, Log, Plant, no_replica_port,
  no_spec, Plan, step, must,
}
use caramelo.Env.Rollout.Start.{
  start_container, start_replica, new_replica, health_replica, probe_replica, bring_up_replica,
  as_it_is, unhealthy_replica, unprobed_replica,
}
use caramelo.Env.Rollout.Extends.{
  Ends, Whatever, bind-Ends, done-Ends, step-Ends, must-Ends, fail-Ends,
}
use caramelo.Env.Rollout.Checks.{
  StartEntry, Answered, or_step-Ends, health_replica-Ends, probe_replica-Ends,
}

-- A replica that is up: on the port of its index, its health check passed, if it has one, and it
-- answered a probe, if it has a port.
pub record IsUp (p : Plan) (i : ℕ) (rep : Replica) (l : Log) : Type 0 where
  pub same_index : rep.index ≡ i
  pub own_port : replica_port p.ports p.service i ≡ at rep.port
  pub checked : (p.health_of rep.port ≡ health_none) ⊎ Any (Answered (wait_healthy i)) l
  pub probed : (rep.port ≡ 0) ⊎ Any (Answered (probe i)) l

record Started (p : Plan) (i : ℕ) (rep : Replica) : Type 0 where
  same_index : rep.index ≡ i
  own_port : replica_port p.ports p.service i ≡ at rep.port
  own_health : rep.health ≡ p.health_of rep.port

ReplicaPort-cases :
    (x : ReplicaPort) → ((port : ℕ) × (x ≡ at port)) ⊎ ((e : PortError) × (x ≡ no_port e))
ReplicaPort-cases (at port) = inl (port, refl)
ReplicaPort-cases (no_port e) = inr (e, refl)

module _ (p : Plan) (plant : Plant) where
  start_container-Ends :
      (i port : ℕ) (name : Bytes)
      → p.spec_name i port ≡ some name
      → replica_port p.ports p.service i ≡ at port
      → Ends
          (StartEntry p)
          (λ rep l. Started p i rep)
          (start_container plant p (new_replica p i name port))
  unfolding start_container new_replica
  start_container-Ends i port name named own =
      let rep = new_replica p i name port in
      bind-Ends (StartEntry p) Whatever _ (must plant (remove_container name) (some rep)) _
        (must-Ends (StartEntry p) plant Whatever _ _ (λ a. (i, port, named)) (λ a f. tt))
        (λ u l q.
          bind-Ends (StartEntry p) Whatever _ (must plant read_secrets (some rep)) _
            (must-Ends (StartEntry p) plant Whatever _ _ (λ a. tt) (λ a f. tt))
            (λ u l q.
              bind-Ends (StartEntry p) Whatever _
                (must plant (run_container i name port) (some rep)) _
                (must-Ends (StartEntry p) plant Whatever _ _ (λ a. tt) (λ a f. tt))
                (λ u l q.
                  done-Ends (StartEntry p) _ _
                    (record { same_index = refl; own_port = own; own_health = refl }))))

  start_replica-Ends :
      (i : ℕ) → Ends (StartEntry p) (λ rep l. Started p i rep) (start_replica plant p i)
  unfolding start_replica
  start_replica-Ends i = elim (ReplicaPort-cases (replica_port p.ports p.service i)) [
    | inr (e, none_there) ↦
        rw (none_there, start_replica) (fail-Ends (StartEntry p) _ (no_replica_port e) none)
    | inl (port, own) ↦ elim (Option-cases (p.spec_name i port)) [
      | inl unnamed ↦ rw (own, start_replica, unnamed) (fail-Ends (StartEntry p) _ (no_spec i) none)
      | inr (name, named) ↦
          rw (own, start_replica, named) (start_container-Ends i port name named own)
    ]
  ]

  up_replica : Replica → Replica
  up_replica rep = record rep { state = healthy; health = health_ok }

  IsUp-of_parts :
      (i : ℕ) (rep : Replica) (l2 l3 l4 l5 l6 l1 : Log)
      → Started p i rep
      → (rep.health ≡ health_none) ⊎ Any (Answered (wait_healthy rep.index)) l3
      → (rep.port ≡ 0) ⊎ Any (Answered (probe rep.index)) l5
      → IsUp p i (up_replica rep) (l1 ++ (l2 ++ (l3 ++ (l4 ++ (l5 ++ l6)))))
  unfolding up_replica
  IsUp-of_parts i rep l2 l3 l4 l5 l6 l1 s checked probed = record {
    same_index = s.same_index;
    own_port = s.own_port;
    checked = elim checked [
      | inl unchecked ↦ inl (sym s.own_health ∙ unchecked)
      | inr waited ↦
          let here = subst (λ j. Any (Answered (wait_healthy j)) l3) s.same_index waited in
          inr (Any-append_right _ l1 _ (Any-append_right _ l2 _ (Any-append_left _ l3 _ here)))
    ];
    probed = elim probed [
      | inl portless ↦ inl portless
      | inr answered ↦
          let here = subst (λ j. Any (Answered (probe j)) l5) s.same_index answered in
          inr (
            Any-append_right _ l1 _ (
              Any-append_right _ l2 _
                (Any-append_right _ l3 _ (Any-append_right _ l4 _ (Any-append_left _ l5 _ here)))))
    ];
  }

  -- A replica that is brought up is up, and until then only calls of a start were made.
  pub bring_up_replica-IsUp :
      (i : ℕ) → Ends (StartEntry p) (λ rep l. IsUp p i rep l) (bring_up_replica plant p i)
  unfolding bring_up_replica up_replica
  bring_up_replica-IsUp i =
      let P = StartEntry p in
      bind-Ends P (λ rep l. Started p i rep) _ _ _
        (or_step-Ends p _ i step_start as_it_is (start_replica plant p i) (start_replica-Ends i))
        (λ rep l1 s.
          bind-Ends P Whatever _ (step i step_start step_ok starting) _
            (step-Ends P Whatever i step_start step_ok starting tt)
            (λ u l2 q.
              bind-Ends P _ _ _ _
                (or_step-Ends p _ i step_health unhealthy_replica (health_replica plant p rep)
                  (health_replica-Ends p plant rep))
                (λ u l3 checked.
                  bind-Ends P Whatever _ (step i step_health step_ok healthy) _
                    (step-Ends P Whatever i step_health step_ok healthy tt)
                    (λ u l4 q.
                      bind-Ends P _ _ _ _
                        (or_step-Ends p _ i step_probe unprobed_replica
                          (probe_replica plant p (up_replica rep))
                          (probe_replica-Ends p plant (up_replica rep)))
                        (λ u l5 probed.
                          bind-Ends P Whatever _ (step i step_probe step_ok healthy) _
                            (step-Ends P Whatever i step_probe step_ok healthy tt)
                            (λ u l6 q.
                              done-Ends P _ (up_replica rep) (
                                IsUp-of_parts i rep l2 l3 l4 l5 (l6 ++ []) l1 s checked
                                  probed)))))))
