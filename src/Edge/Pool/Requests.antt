-- ===== src/Edge/Pool/Requests.antt =====
-- The requests of a pool (internal/edge/pool.go): begin and end, the marks, and the sweep that cuts
-- what is still open at the drain deadline. Go's map order, in which a mark picks a connection and
-- the sweep cancels them, is the order of the list.
use caramelo.Common.{
  ℕ, suc, ◌+◌, ◌-◌, Bool, true, false, not, ◌&&◌, List, [], ◌∷◌, ◌++◌, Option, none, some, ◌==◌,
  nat_eq, Bytes, if◌then◌else◌, length, ltb, insert, erase, lookup, sum_map,
}
use caramelo.Edge.{Target, TargetState, draining, state_eq, valid_state, Event, target_event}
use caramelo.Edge.Pool.State.{
  Conns, Tracked, RoutePool, live, find, set_tracked, drained, failure_window,
}

pub data Error : Type 0 where
  no_replica : Bytes → ℕ → Error
  unknown_state : Bytes → ℕ → TargetState → Error
  unknown_mark : Bytes → Bytes → Error

pub data Result {ℓ} (A : Type ℓ) : Type ℓ where
  ok : A → Result A
  err : Error → Result A

pub data MarkKind : Type 0 where
  start done fail state : MarkKind
  other : Bytes → MarkKind

pub record Mark : Type 0 where
  pub replica : ℕ
  pub kind : MarkKind
  pub state : TargetState
  pub at : ℕ
  pub detail : Bytes

unfoldable pub is_open : ℕ → Conns → Bool
is_open id cs = elim (lookup id cs) [ none ↦ false | some c ↦ true ]

-- `release`: the target after it, and the event.
unfoldable pub finishes_drain : Tracked → Bool
finishes_drain ts = ts.t.state == draining && length ts.conns == 0 && not ts.reported

unfoldable pub closed : ℕ → Tracked → Tracked
closed id ts = record ts { conns = erase id ts.conns }

unfoldable pub release : Bytes → ℕ → ℕ → Tracked → Tracked × List Event
unfolding is_open finishes_drain closed
release host id at ts =
    if is_open id ts.conns
    then (if finishes_drain (closed id ts)
        then (
          record (closed id ts) { reported = true },
          drained host (live (record (closed id ts) { reported = true })) false 0 at ∷ [],
        )
        else (closed id ts, []))
    else (ts, [])

has_cancel : Option ℕ → Bool
has_cancel none = false
has_cancel (some c) = true

unfoldable pub any_conn : Bool → Conns → Option ℕ
unfolding has_cancel
any_conn true [] = none
any_conn true ((id, c) ∷ cs) = if has_cancel c then some id else any_conn true cs
any_conn false [] = none
any_conn false ((id, c) ∷ cs) = if has_cancel c then any_conn false cs else some id

-- What an operation tells the outside.
pub record Outcome : Type 0 where
  pub pool : RoutePool
  pub events : List Event
  pub draining : Option Target

quiet : RoutePool → Outcome
quiet p = record { pool = p; events = []; draining = none }

unfoldable pub write_back : RoutePool → ℕ → Tracked × List Event → Outcome
write_back p replica (ts, events) = record {
  pool = record p { targets = set_tracked replica ts p.targets };
  events = events;
  draining = none;
}

unfoldable pub begin : ℕ → Option ℕ → RoutePool → Result (RoutePool × ℕ)
begin replica cancel p = elim (find replica p.targets) [
  | none ↦ err (no_replica p.host replica)
  | some ts ↦
      let id = suc p.seq in
      let new = record ts { conns = insert id cancel ts.conns } in
      ok (record p { seq = id; targets = set_tracked replica new p.targets }, id)
]

unfoldable pub end : ℕ → ℕ → ℕ → RoutePool → Outcome
unfolding quiet write_back release
end now replica id p = elim (find replica p.targets) [
  | none ↦ quiet p
  | some ts ↦ write_back p replica (release p.host id now ts)
]

-- MarkDone closes a connection that nobody can cancel first.
unfoldable pub mark_done : ℕ → RoutePool → ℕ → Tracked → Outcome
unfolding quiet write_back release
mark_done at p replica ts = elim (any_conn false ts.conns) [
  | some id ↦ write_back p replica (release p.host id at ts)
  | none ↦ elim (any_conn true ts.conns) [
    | some id ↦ write_back p replica (release p.host id at ts)
    | none ↦ quiet p
  ]
]

pub detail_or : Bytes → Bytes → Bytes
detail_or [] old = old
detail_or (c ∷ s) old = c ∷ s

-- MarkState to a state that is valid and new.
unfoldable pub moved : ℕ → Mark → Tracked → Tracked
unfolding detail_or
moved at m ts = record ts {
  t = record (ts.t) { state = m.state; since = at; detail = detail_or m.detail ts.t.detail };
  reported = if m.state == draining then length ts.conns == 0 else ts.reported;
}

unfoldable pub move_events : Bytes → ℕ → Mark → Tracked → List Event
move_events host at m new =
    target_event host (live new) at
    ∷ (if m.state == draining && length new.conns == 0
        then drained host (live new) false 0 at ∷ []
        else [])

unfoldable pub mark_state : ℕ → Mark → RoutePool → Tracked → Result Outcome
unfolding quiet moved move_events
mark_state at m p ts =
    let new = moved at m ts in
    if not (valid_state m.state)
    then err (unknown_state p.host m.replica m.state)
    else if ts.t.state == m.state
    then ok (quiet p)
    else ok (record {
      pool = record p { targets = set_tracked m.replica new p.targets };
      events = move_events p.host at m new;
      draining = if m.state == draining then some (live new) else none;
    })

unfoldable pub mark_start : RoutePool → ℕ → Tracked → Outcome
mark_start p replica ts =
    let new = record ts { conns = insert (suc p.seq) none ts.conns } in
    record {
      pool = record p { seq = suc p.seq; targets = set_tracked replica new p.targets };
      events = [];
      draining = none;
    }

unfoldable pub mark_fail : ℕ → Mark → RoutePool → Tracked → Outcome
unfolding detail_or quiet
mark_fail at m p ts =
    let new = record ts {
      failed_until = at + failure_window;
      t = record (ts.t) { detail = detail_or m.detail ts.t.detail };
    } in
    quiet (record p { targets = set_tracked m.replica new p.targets })

unfoldable pub mark_kind : MarkKind → ℕ → Mark → RoutePool → Tracked → Result Outcome
unfolding mark_start mark_done mark_fail mark_state
mark_kind start at m p ts = ok (mark_start p m.replica ts)
mark_kind done at m p ts = ok (mark_done at p m.replica ts)
mark_kind fail at m p ts = ok (mark_fail at m p ts)
mark_kind state at m p ts = mark_state at m p ts
mark_kind (other k) at m p ts = err (unknown_mark p.host k)

unfoldable pub mark : ℕ → Mark → RoutePool → Result Outcome
unfolding mark_kind
mark now m p = elim (find m.replica p.targets) [
  | none ↦ err (no_replica p.host m.replica)
  | some ts ↦ mark_kind m.kind (if m.at == 0 then now else m.at) m p ts
]

-- The sweep. A time before `since` counts as no time at all.
unfoldable pub overdue : ℕ → ℕ → Tracked → Bool
overdue drain now ts =
    ts.t.state == draining && not ts.reported && not (ltb (now - ts.t.since) drain)

unfoldable pub cut : Tracked → Tracked
cut ts = record ts { conns = []; reported = true }

unfoldable pub cancels_of : Conns → List ℕ
cancels_of [] = []
cancels_of ((id, none) ∷ cs) = cancels_of cs
cancels_of ((id, some c) ∷ cs) = c ∷ cancels_of cs

unfoldable pub sweep_targets : ℕ → ℕ → List Tracked → List Tracked
unfolding overdue cut
sweep_targets drain now [] = []
sweep_targets drain now (ts ∷ tss) =
    (if overdue drain now ts then cut ts else ts) ∷ sweep_targets drain now tss

unfoldable pub sweep_events : Bytes → ℕ → ℕ → List Tracked → List Event
unfolding overdue cut
sweep_events host drain now [] = []
sweep_events host drain now (ts ∷ tss) =
    let rest = sweep_events host drain now tss in
    if overdue drain now ts
    then drained host (live (cut ts)) true (length ts.conns) now ∷ rest
    else rest

unfoldable pub sweep_cancels : ℕ → ℕ → List Tracked → List ℕ
unfolding overdue cancels_of
sweep_cancels drain now [] = []
sweep_cancels drain now (ts ∷ tss) =
    let rest = sweep_cancels drain now tss in
    if overdue drain now ts then cancels_of ts.conns ++ rest else rest

pub record Swept : Type 0 where
  pub pool : RoutePool
  pub events : List Event
  pub cancels : List ℕ

unfoldable pub sweep : ℕ → RoutePool → Swept
unfolding sweep_targets sweep_events sweep_cancels
sweep now p = record {
  pool = record p { targets = sweep_targets p.drain now p.targets };
  events = sweep_events p.host p.drain now p.targets;
  cancels = sweep_cancels p.drain now p.targets;
}

-- `inflight`.
unfoldable pub inflight : RoutePool → ℕ
inflight p = sum_map (λ ts. length ts.conns) p.targets
