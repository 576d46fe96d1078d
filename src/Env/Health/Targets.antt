-- ===== src/Env/Health/Targets.antt =====
-- internal/env/health_loop.go, setTargetState: the rows of the routes to a replica.
use caramelo.Common.{
  ℕ, Bool, true, false, not, ◌&&◌, ◌||◌, List, [], ◌∷◌, Option, none, some, ◌==◌, nat_eq, bytes_eq,
  Bytes, if◌then◌else◌,
}
use caramelo.Edge.{TargetState, state_eq}

-- A row of the store's targets and whether the store takes a new state for it, and a route with its
-- rows and whether these can be read.
pub record TargetRow : Type 0 where
  pub replica : ℕ
  pub state : TargetState
  pub writable : Bool

pub record RouteRow : Type 0 where
  pub service : Bytes
  pub readable : Bool
  pub targets : List TargetRow

pub data HealthError : Type 0 where
  inspect_failed targets_unreadable target_unwritable : HealthError

-- Whether a row is to be written.
unfoldable pub to_set : ℕ → TargetState → TargetRow → Bool
to_set replica want t =
    not (not (t.replica == replica) || t.state == want) && not (t.state == TargetState.held)

-- The rows of a route, whether one changed, and the error at which the loop stopped.
pub record SetTargets : Type 0 where
  pub targets : List TargetRow
  pub changed : Bool
  pub error : Option HealthError

unfoldable pub set_rows : ℕ → TargetState → List TargetRow → SetTargets
unfolding to_set
set_rows replica want [] = record { targets = []; changed = false; error = none }
set_rows replica want (t ∷ ts) =
    let rest = set_rows replica want ts in
    if not (to_set replica want t)
    then record rest { targets = t ∷ rest.targets }
    else if not t.writable
    then record { targets = t ∷ ts; changed = false; error = some target_unwritable }
    else record rest { targets = record t { state = want } ∷ rest.targets; changed = true }

-- The rows of all routes, whether one changed, and the error at which the loop stopped.
pub record SetRows : Type 0 where
  pub routes : List RouteRow
  pub changed : Bool
  pub error : Option HealthError

unfoldable pub also_changed : RouteRow → Bool → SetRows → SetRows
also_changed r changed rest = record rest {
  routes = r ∷ rest.routes;
  changed = changed || rest.changed;
}

-- With the route's rows set: the routes after it are gone through if there was no error.
unfoldable pub after_rows : RouteRow → List RouteRow → SetTargets → SetRows → SetRows
unfolding also_changed
after_rows r rs s rest = elim s.error [
  | none ↦ also_changed (record r { targets = s.targets }) s.changed rest
  | some e ↦ record {
    routes = record r { targets = s.targets } ∷ rs;
    changed = s.changed;
    error = some e;
  }
]

unfoldable pub set_target_state : Bytes → ℕ → TargetState → List RouteRow → SetRows
unfolding set_rows also_changed after_rows
set_target_state service replica want [] = record { routes = []; changed = false; error = none }
set_target_state service replica want (r ∷ rs) =
    let rest = set_target_state service replica want rs in
    if not (r.service == service)
    then also_changed r false rest
    else if not r.readable
    then record { routes = r ∷ rs; changed = false; error = some targets_unreadable }
    else after_rows r rs (set_rows replica want r.targets) rest
