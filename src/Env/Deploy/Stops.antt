-- ===== src/Env/Deploy/Stops.antt =====
-- Which containers the end of a deploy stops (internal/env/deploy_watch.go).
use mathlib.Core.List.{append_assoc}
use caramelo.Common.{
  ℕ, ◌≡◌, refl, sym, ap, ◌∙◌, subst, inl, inr, Bool, true, false, List, [], ◌∷◌, ◌++◌, map, Bytes,
  if◌then◌else◌, All, All-append, All-mono, Any, Any-append_left, Any-append_right, Bool-cases,
}
use caramelo.Env.Rollout.{Replica, ReplicaState, active, draining}
use caramelo.Env.Rollout.Flip.{activate}
use caramelo.Env.Deploy.{DeployPool, Log, clear_deploy, update_deploy, Plant, DeployRun, tell}
use caramelo.Env.Deploy.Ending.{
  drain_each, turn_back, drop_fresh, swap, stop_replicas, stop_fresh, finish, stop_held,
}
use caramelo.Env.Deploy.Logs.{
  Asks, Asks-refl, Asks-trans, tell-Asks, StopsOnly, containers, stop_replicas-Asks,
}

-- The containers of the fresh replicas at the edge.
unfoldable pub fresh_containers : List DeployPool → List Bytes
unfolding containers
fresh_containers [] = []
fresh_containers (p ∷ ps) = (if p.exposed then containers p.fresh else []) ++ fresh_containers ps

unfoldable pub held_containers : List DeployPool → List Bytes
unfolding containers
held_containers [] = []
held_containers (p ∷ ps) = containers p.held ++ held_containers ps

-- The replicas in another state.
abbrev pub in_state : ReplicaState → List Replica → List Replica
in_state state reps = map (λ (rep : Replica). record rep { state = state }) reps

-- A pool at the edge that is turned back: the held replicas are active and the fresh ones draining.
unfoldable pub turned : DeployPool → DeployPool
turned p =
    if p.exposed
    then record p { held = in_state active p.held; fresh = in_state draining p.fresh }
    else p

pub activate-in_state : (reps : List Replica) → activate reps ≡ in_state active reps
unfolding activate
activate-in_state [] = refl
activate-in_state (rep ∷ reps) =
    ap (λ (rs : List Replica). record rep { state = active } ∷ rs) (activate-in_state reps)

drain_each-in_state : (reps : List Replica) → drain_each reps ≡ in_state draining reps
unfolding drain_each
drain_each-in_state [] = refl
drain_each-in_state (rep ∷ reps) =
    ap (λ (rs : List Replica). record rep { state = draining } ∷ rs) (drain_each-in_state reps)

pub turn_back-turned : (p : DeployPool) → turn_back p ≡ turned p
unfolding turn_back turned
turn_back-turned p = cc (activate-in_state p.held, drain_each-in_state p.fresh)

pub all_turned : (ps : List DeployPool) → map turn_back ps ≡ map turned ps
all_turned [] = refl
all_turned (p ∷ ps) = cc (turn_back-turned p, all_turned ps)

-- A pool that is back: those that were held serve, and at the edge they are active.
unfoldable pub restored : DeployPool → DeployPool
restored p = record p { fresh = if p.exposed then in_state active p.held else p.held; held = [] }

-- What was asked between two runs, of which the rest may differ.
pub record Asked (cs : List Bytes) (r r' : DeployRun) : Type 0 where
  pub rest : Log
  pub whole : r'.log ≡ r.log ++ rest
  pub each : All (StopsOnly cs) rest

abbrev pub In : List Bytes → Bytes → Type 0
In cs c = Any (λ d. d ≡ c) cs

pub members : (cs : List Bytes) → All (λ c. In cs c) cs
members [] = tt
members (c ∷ cs) = (inl refl, All-mono (λ d h. inr h) cs (members cs))

module _ (cs : List Bytes) where
  pub from_asks : (r s : DeployRun) → Asks (StopsOnly cs) r s → Asked cs r s
  from_asks r s a = record {
    rest = a.added;
    whole = ap (λ (u : DeployRun). u.log) a.same;
    each = a.each;
  }

  pub Asked-trans : (r s t : DeployRun) → Asked cs r s → Asked cs s t → Asked cs r t
  Asked-trans r s t a b = record {
    rest = a.rest ++ b.rest;
    whole = b.whole ∙ ap (λ (l : Log). l ++ b.rest) a.whole ∙ append_assoc r.log a.rest b.rest;
    each = All-append (StopsOnly cs) a.rest b.rest a.each b.each;
  }

  -- The run has been changed, but not its log.
  pub relabelled : (r s t : DeployRun) → t.log ≡ s.log → Asked cs r s → Asked cs r t
  relabelled r s t same a = record { rest = a.rest; whole = same ∙ a.whole; each = a.each }

  module _ (plant : Plant) where
    pub finish-Asked : (r : DeployRun) → Asked cs r (finish plant r)
    unfolding finish
    finish-Asked r =
        let P = StopsOnly cs in
        let updated = tell plant (update_deploy r.status) r in
        relabelled r (tell plant clear_deploy updated) _ refl (
          from_asks r (tell plant clear_deploy updated) (
            Asks-trans P r updated _ (tell-Asks P plant (update_deploy r.status) r (λ a. tt))
              (tell-Asks P plant clear_deploy updated (λ a. tt))))

    abbrev pub Listed : DeployPool → Type 0
    Listed p = p.exposed ≡ true → All (λ c. In cs c) (containers p.fresh)

    stop_one-Asks :
        (p : DeployPool) (r : DeployRun)
        → Listed p
        → Asks (StopsOnly cs) r (if p.exposed then (stop_replicas plant p.fresh 0 r).1 else r)
    stop_one-Asks p r h = go p.exposed h
      where
        go :
            (b : Bool)
            → (b ≡ true → All (λ c. In cs c) (containers p.fresh))
            → Asks (StopsOnly cs) r (if b then (stop_replicas plant p.fresh 0 r).1 else r)
        go true h = stop_replicas-Asks plant cs p.fresh 0 r (h refl)
        go false h = Asks-refl (StopsOnly cs) r

    pub stop_fresh-Asks :
        (ps : List DeployPool) (r : DeployRun)
        → All Listed ps
        → Asks (StopsOnly cs) r (stop_fresh plant ps r)
    unfolding stop_fresh
    stop_fresh-Asks [] r h = Asks-refl (StopsOnly cs) r
    stop_fresh-Asks (p ∷ ps) r h =
        let s = if p.exposed then (stop_replicas plant p.fresh 0 r).1 else r in
        Asks-trans (StopsOnly cs) r s _ (stop_one-Asks p r h.0) (stop_fresh-Asks ps s h.1)

    pub stop_held-Asks :
        (ps : List DeployPool) (n : ℕ) (r : DeployRun)
        → All (λ (p : DeployPool). All (λ c. In cs c) (containers p.held)) ps
        → Asks (StopsOnly cs) r (stop_held plant ps n r).1
    unfolding stop_held
    stop_held-Asks [] n r h = Asks-refl (StopsOnly cs) r
    stop_held-Asks (p ∷ ps) n r h =
        let x = stop_replicas plant p.held n r in
        Asks-trans (StopsOnly cs) r x.1 _ (stop_replicas-Asks plant cs p.held n r h.0)
          (stop_held-Asks ps x.0 x.1 h.1)

containers-drain_each : (reps : List Replica) → containers (drain_each reps) ≡ containers reps
unfolding containers drain_each
containers-drain_each [] = refl
containers-drain_each (rep ∷ reps) =
    ap (λ (cs : List Bytes). rep.container ∷ cs) (containers-drain_each reps)

pub turned_fresh : (p : DeployPool) → containers (turn_back p).fresh ≡ containers p.fresh
unfolding turn_back
turned_fresh p = go p.exposed
  where
    go :
        (b : Bool)
        → containers
            (if b then record p { held = activate p.held; fresh = drain_each p.fresh } else p).fresh
          ≡ containers p.fresh
    go true = containers-drain_each p.fresh
    go false = refl

pub turned_exposed : (p : DeployPool) → (turn_back p).exposed ≡ p.exposed
unfolding turn_back
turned_exposed p = go p.exposed
  where
    go :
        (b : Bool)
        → (if b then record p { held = activate p.held; fresh = drain_each p.fresh } else p).exposed
          ≡ p.exposed
    go true = refl
    go false = refl

pub exposed_first :
    (b : Bool) (cs ds : List Bytes) → b ≡ true → All (λ c. In ((if b then cs else []) ++ ds) c) cs
exposed_first true cs ds e = All-mono (λ c h. Any-append_left (λ d. d ≡ c) cs ds h) cs (members cs)
exposed_first false cs ds e = cc

-- The fresh containers of the turned pools are those of the pools.
pub turned-Listed :
    (plant : Plant) (ps : List DeployPool)
    → All (Listed (fresh_containers ps) plant) (map turn_back ps)
unfolding fresh_containers
turned-Listed plant [] = tt
turned-Listed plant (p ∷ ps) = (
  (λ e.
      subst (λ cs. All (λ c. In (fresh_containers (p ∷ ps)) c) cs) (sym (turned_fresh p))
        (exposed_first p.exposed (containers p.fresh) (fresh_containers ps)
          (sym (turned_exposed p) ∙ e))),
  All-mono
      (λ q h e.
        All-mono
          (λ c g.
            Any-append_right (λ d. d ≡ c) (if p.exposed then containers p.fresh else [])
              (fresh_containers ps) g)
          (containers q.fresh) (h e))
      (map turn_back ps) (turned-Listed plant ps),
)

back_restored : (p : DeployPool) → swap (drop_fresh (turn_back p)) ≡ restored p
unfolding swap drop_fresh turn_back restored
back_restored p = elim (Bool-cases p.exposed) [
  | inl e ↦ simp (e, activate-in_state p.held)
  | inr e ↦ simp e
]

pub all_back_restored :
    (ps : List DeployPool) → map swap (map drop_fresh (map turn_back ps)) ≡ map restored ps
all_back_restored [] = refl
all_back_restored (p ∷ ps) = cc (back_restored p, all_back_restored ps)
