-- ===== src/Env/Deploy/SwitchRows.antt =====
-- The rows that a switch records for its pools (internal/env/deploy_run.go).
use caramelo.Common.{
  ℕ, ◌≡◌, ◌≢◌, refl, ap, ◌∙◌, true, List, [], ◌∷◌, ◌++◌, map, Bytes, All, All-mono, Any-append_left,
  Any-append_right,
}
use caramelo.Env.Layout.{PortLayout, ReplicaPort, replica_port, at, no_port}
use caramelo.Env.Rollout.{Replica, TargetRow}
use caramelo.Env.Rollout.Flip.{activate, target_rows}
use caramelo.Env.Rollout.Rows.{
  active_rows, leaving_rows, port_or_none, target_rows-append, target_rows-activate,
  target_rows-leaving,
}
use caramelo.Env.Deploy.{DeployPool, Log, fine, set_targets}
use caramelo.Env.Deploy.Switch.{drained_of, switch_pool}
use caramelo.Env.Deploy.Pushes.{Recorded}

-- The rows of a pool after a switch: the fresh replicas serve, and those that were there leave.
abbrev pub switch_rows : PortLayout → DeployPool → List TargetRow
switch_rows ports p =
    active_rows p.fresh ++ leaving_rows ports p.service (map (λ (rep : Replica). rep.index) p.held)

-- The rows of a pool were recorded, and not refused, for each of its routes.
abbrev pub RowsOf : PortLayout → Log → DeployPool → Type 0
RowsOf ports l p =
    p.exposed ≡ true → p.route ≢ 0 → Recorded (switch_rows ports p) (p.route ∷ p.more) l

abbrev pub AllRows : PortLayout → List DeployPool → Log → Type 0
AllRows ports ps l = All (RowsOf ports l) ps

-- A log that goes on still has what it had.
abbrev Later : (Log → Type 0) → Type 0
Later Q = (l l' : Log) → Q l → Q (l ++ l')

pub Recorded-left : (rows : List TargetRow) (ids : List ℕ) → Later (Recorded rows ids)
Recorded-left rows ids l l' h =
    All-mono (λ i g. Any-append_left (λ e. e ≡ (set_targets i rows, fine)) l l' g) ids h

pub Recorded-right :
    (rows : List TargetRow) (ids : List ℕ) (l l' : Log)
    → Recorded rows ids l'
    → Recorded rows ids (l ++ l')
Recorded-right rows ids l l' h =
    All-mono (λ i g. Any-append_right (λ e. e ≡ (set_targets i rows, fine)) l l' g) ids h

module _ (ports : PortLayout) where
  pub AllRows-left : (ps : List DeployPool) → Later (AllRows ports ps)
  AllRows-left ps l l' h =
      All-mono
        (λ p g exposed routed.
          Recorded-left (switch_rows ports p) (p.route ∷ p.more) l l' (g exposed routed))
        ps h

  pub AllRows-right :
      (ps : List DeployPool) (l l' : Log) → AllRows ports ps l' → AllRows ports ps (l ++ l')
  AllRows-right ps l l' h =
      All-mono
        (λ p g exposed routed.
          Recorded-right (switch_rows ports p) (p.route ∷ p.more) l l' (g exposed routed))
        ps h

  held_rows :
      (service : Bytes) (reps : List Replica)
      → target_rows (map (drained_of ports service) reps)
        ≡ leaving_rows ports service (map (λ (rep : Replica). rep.index) reps)
  unfolding drained_of
  held_rows service [] = unfold target_rows leaving_rows in refl
  held_rows service (rep ∷ reps) =
      target_rows-leaving ports service (drained_of ports service rep)
        (map (drained_of ports service) reps) (map (λ (r : Replica). r.index) reps)
        (same_port (replica_port ports service rep.index)) refl (held_rows service reps)
    where
      same_port : (x : ReplicaPort) → (elim x [ no_port e ↦ 0 | at port ↦ port ]) ≡ port_or_none x
      same_port (at port) = refl
      same_port (no_port e) = refl

  pub switched_rows :
      (p : DeployPool)
      → target_rows ((switch_pool ports p).fresh ++ (switch_pool ports p).held)
        ≡ switch_rows ports p
  unfolding switch_pool
  switched_rows p =
      target_rows-append (activate p.fresh) (map (drained_of ports p.service) p.held)
      ∙ ap (λ rows. rows ++ target_rows (map (drained_of ports p.service) p.held))
          (target_rows-activate p.fresh)
      ∙ ap (λ rows. active_rows p.fresh ++ rows) (held_rows p.service p.held)
