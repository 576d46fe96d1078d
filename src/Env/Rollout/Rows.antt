-- ===== src/Env/Rollout/Rows.antt =====
-- The rows that a route's targets have, written out for a list of replicas (internal/env/rollout.go).
use mathlib.Core.List.{append_assoc}
use caramelo.Common.{
  ℕ, ◌≡◌, refl, sym, ap, ◌∙◌, inl, inr, List, [], ◌∷◌, ◌++◌, map, nat_eq, Bytes, if◌then◌else◌, ltb,
  Bool-cases,
}
use caramelo.Edge.{TargetState}
use caramelo.Env.Layout.{PortLayout, ReplicaPort, replica_port, at, no_port}
use caramelo.Env.Replicas.{LiveReplica}
use caramelo.Env.Rollout.{ReplicaState, target_state, active, draining, Replica, TargetRow, Plan}
use caramelo.Env.Rollout.Flip.{target_rows, activate, replica_of, replicas_of}

-- A replica without a port has no row.
abbrev pub row_for : ℕ → ℕ → TargetState → List TargetRow
row_for replica port state =
    if ltb 0 port then record { replica = replica; port = port; state = state } ∷ [] else []

-- Replicas that are all in one state at the edge.
unfoldable pub rows_in : TargetState → List Replica → List TargetRow
rows_in state [] = []
rows_in state (rep ∷ reps) = row_for rep.index rep.port state ++ rows_in state reps

-- Replicas that serve.
abbrev pub active_rows : List Replica → List TargetRow
active_rows reps = rows_in TargetState.active reps

abbrev pub port_or_none : ReplicaPort → ℕ
port_or_none (at port) = port
port_or_none (no_port e) = 0

-- Replicas that leave, by their indexes: each on the port of its index.
unfoldable pub leaving_rows : PortLayout → Bytes → List ℕ → List TargetRow
leaving_rows ports service [] = []
leaving_rows ports service (i ∷ is) =
    row_for i (port_or_none (replica_port ports service i)) TargetState.draining
    ++ leaving_rows ports service is

target_rows-∷ :
    (rep : Replica) (reps : List Replica)
    → target_rows (rep ∷ reps)
      ≡ row_for rep.index rep.port (target_state rep.state) ++ target_rows reps
unfolding target_rows
target_rows-∷ rep reps = elim (Bool-cases (ltb 0 rep.port)) [
  | inl has ↦ rw has refl
  | inr none_ ↦ rw none_ refl
]

pub target_rows-append :
    (a b : List Replica) → target_rows (a ++ b) ≡ target_rows a ++ target_rows b
target_rows-append [] b = unfold target_rows in refl
target_rows-append (rep ∷ reps) b =
    let first = row_for rep.index rep.port (target_state rep.state) in
    target_rows-∷ rep (reps ++ b)
    ∙ ap (λ rows. first ++ rows) (target_rows-append reps b)
    ∙ sym (append_assoc first (target_rows reps) (target_rows b))
    ∙ ap (λ rows. rows ++ target_rows b) (sym (target_rows-∷ rep reps))

pub target_rows-activate : (reps : List Replica) → target_rows (activate reps) ≡ active_rows reps
unfolding activate rows_in target_state
target_rows-activate [] = unfold target_rows in refl
target_rows-activate (rep ∷ reps) =
    target_rows-∷ (record rep { state = active }) (activate reps)
    ∙ ap (λ rows. row_for rep.index rep.port TargetState.active ++ rows) (target_rows-activate reps)

-- Replicas that have been put in one state.
target_rows-in_state :
    (state : ReplicaState) (reps : List Replica)
    → target_rows (map (λ (rep : Replica). record rep { state = state }) reps)
      ≡ rows_in (target_state state) reps
unfolding rows_in
target_rows-in_state state [] = unfold target_rows in refl
target_rows-in_state state (rep ∷ reps) =
    target_rows-∷ (record rep { state = state })
      (map (λ (r : Replica). record r { state = state }) reps)
    ∙ ap (λ rows. row_for rep.index rep.port (target_state state) ++ rows)
        (target_rows-in_state state reps)

-- Some replicas leave, and others serve.
pub target_rows-turned :
    (fresh old : List Replica)
    → target_rows (
        map (λ (rep : Replica). record rep { state = draining }) fresh
        ++ map (λ (rep : Replica). record rep { state = active }) old)
      ≡ rows_in TargetState.draining fresh ++ rows_in TargetState.active old
unfolding target_state
target_rows-turned fresh old =
    target_rows-append (map (λ (rep : Replica). record rep { state = draining }) fresh)
      (map (λ (rep : Replica). record rep { state = active }) old)
    ∙ rw (target_rows-in_state draining fresh, target_rows-in_state active old) refl

-- A row of a replica that leaves, on the port of its index.
pub target_rows-leaving :
    (ports : PortLayout) (service : Bytes) (rep : Replica) (reps : List Replica) (is : List ℕ)
    → rep.port ≡ port_or_none (replica_port ports service rep.index)
    → rep.state ≡ draining
    → target_rows reps ≡ leaving_rows ports service is
    → target_rows (rep ∷ reps) ≡ leaving_rows ports service (rep.index ∷ is)
unfolding leaving_rows target_state
target_rows-leaving ports service rep reps is port leaves rest =
    target_rows-∷ rep reps ∙ rw (port, leaves, rest) refl

pub target_rows-replicas_of :
    (p : Plan) (os : List LiveReplica)
    → target_rows (replicas_of p draining os)
      ≡ leaving_rows p.ports p.service (map (λ (o : LiveReplica). o.index) os)
unfolding replicas_of replica_of leaving_rows target_rows
target_rows-replicas_of p [] = refl
target_rows-replicas_of p (o ∷ os) =
    target_rows-leaving p.ports p.service (replica_of p draining o) (replicas_of p draining os)
      (map (λ (l : LiveReplica). l.index) os) (same_port (replica_port p.ports p.service o.index))
      refl (target_rows-replicas_of p os)
  where
    same_port : (x : ReplicaPort) → (elim x [ no_port e ↦ 0 | at port ↦ port ]) ≡ port_or_none x
    same_port (at port) = refl
    same_port (no_port e) = refl
