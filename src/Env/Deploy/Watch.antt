-- ===== src/Env/Deploy/Watch.antt =====
-- `watch`, `await`, `watchAll`, `poll`, `countFrom` and `unhealthy` of internal/env/deploy_watch.go,
-- and how `runDeploy` ends. A round of the loop is given by what it sees. The counts of a watch, its
-- durations and its rate are not kept in the run: each round makes them anew.
use caramelo.Common.{
  ℕ, ◌+◌, ◌*◌, ◌^◌, Bool, true, false, not, ◌||◌, List, [], ◌∷◌, map, Option, none, some, ◌==◌,
  nat_eq, bytes_eq, Bytes, if◌then◌else◌, ltb, leb,
}
use caramelo.Edge.Pool.State.{no_counts}
use caramelo.Edge.Counts.{HostCounts, host_counts, of_replicas, errors}
use caramelo.Env.Rollout.{Replica}
use caramelo.Env.Deploy.{
  Reason, window_passed, by_hand, too_many_errors, replica_gone, replica_stopped, asked, DeployPool,
  DeployRun, Plant, tell, update_deploy,
}
use caramelo.Env.Deploy.Ending.{promote, rollback}

-- config.MinErrorRequests, and config.DefaultWatch in nanoseconds.
abbrev pub min_error_requests : ℕ
min_error_requests = 20

abbrev pub default_watch : ℕ
default_watch = 60 * 10 ^ 9

-- What a watch reads of `config.Deploy`: whether promotion is manual, whether the rate of errors is
-- limited, and whether so many errors in so many requests are over the rate.
pub record Policy : Type 0 where
  pub watch : ℕ
  pub manual : Bool
  pub limited : Bool
  pub exceeds : ℕ → ℕ → Bool

unfoldable pub watch_window : Policy → ℕ
watch_window p = if p.watch == 0 then default_watch else p.watch

-- What the driver says of a container.
pub data Inspection : Type 0 where
  missing unreadable running not_running : Inspection

-- What ends the wait of a round.
pub data Choice : Type 0 where
  ticked promote_asked context_done : Choice
  rollback_asked : Bytes → Choice

-- What a round sees. Without counts the edge could not be asked.
pub record Round : Type 0 where
  pub counts : Option (ℕ × List HostCounts)
  pub count_now : ℕ
  pub inspect : Bytes → Inspection
  pub now : ℕ
  pub choice : Choice

unfoldable pub count_since : ℕ → ℕ → ℕ → ℕ
count_since now since from =
    let at_most = if ltb now since then now else since in
    if since == 0 || not (ltb from since) then from else if ltb from at_most then at_most else from

unfoldable pub count_from : ℕ → ℕ → DeployRun → DeployRun
unfolding count_since
count_from now since r = record r {
  counted_from =
      count_since now since (if r.counted_from == 0 then r.flipped_at else r.counted_from);
}

unfoldable pub indexes_of : List Replica → List ℕ
indexes_of reps = map (λ (rep : Replica). rep.index) reps

-- The requests and the errors of the fresh replicas, and of what no replica had.
unfoldable pub tally : List DeployPool → List HostCounts → ℕ × ℕ
unfolding host_counts of_replicas indexes_of errors
tally [] hs = (0, 0)
tally (p ∷ ps) hs =
    let rest = tally ps hs in
    if not p.exposed then rest else elim (host_counts p.host hs) [
      | none ↦ rest
      | some h ↦
          let mine = of_replicas h no_counts (indexes_of p.fresh) in
          (mine.requests + h.unrouted.requests + rest.0, errors mine + errors h.unrouted + rest.1)
    ]

unfoldable pub seen_by : Bool → Round → Option (ℕ × List HostCounts)
seen_by has_edge l = if has_edge then l.counts else none

-- The requests and errors that a round counts.
unfoldable pub counted : DeployRun → Round → ℕ × ℕ
unfolding tally seen_by
counted r l = elim (seen_by r.has_edge l) [ none ↦ (0, 0) | some (since, hs) ↦ tally r.pools hs ]

unfoldable pub poll : Round → DeployRun → DeployRun
unfolding count_from seen_by
poll l r = elim (seen_by r.has_edge l) [
  | none ↦ r
  | some (since, hs) ↦ count_from l.count_now since r
]

unfoldable pub breached : Policy → ℕ × ℕ → Bool
breached p c = if ltb c.0 min_error_requests || not p.limited then false else p.exceeds c.1 c.0

unfoldable pub unhealthy_one : Bytes → Inspection → Replica → Option Reason → Option Reason
unhealthy_one service missing rep later = some (replica_gone service rep.index)
unhealthy_one service unreadable rep later = later
unhealthy_one service running rep later = later
unhealthy_one service not_running rep later = some (replica_stopped service rep.index)

unfoldable pub unhealthy_replicas :
    (Bytes → Inspection) → Bytes → List Replica → Option Reason → Option Reason
unfolding unhealthy_one
unhealthy_replicas inspect service [] later = later
unhealthy_replicas inspect service (rep ∷ reps) later =
    let rest = unhealthy_replicas inspect service reps later in
    if rep.container == [] then rest else unhealthy_one service (inspect rep.container) rep rest

-- Why the first of the fresh replicas that is down is so.
unfoldable pub unhealthy_pools : (Bytes → Inspection) → List DeployPool → Option Reason
unfolding unhealthy_replicas
unhealthy_pools inspect [] = none
unhealthy_pools inspect (p ∷ ps) =
    unhealthy_replicas inspect p.service p.fresh (unhealthy_pools inspect ps)

-- Whether so much time has passed since the time, of which 0 is none.
unfoldable pub has_passed : ℕ → ℕ → ℕ → Bool
has_passed d from now = if from == 0 then d == 0 else leb (from + d) now

unfoldable pub is_over : Policy → ℕ → DeployRun → Bool
unfolding watch_window has_passed
is_over p now r =
    let window = watch_window p in
    has_passed window (if r.counted_from == 0 then r.flipped_at else r.counted_from) now
    || has_passed (2 * window) r.flipped_at now

pub data Verdict : Type 0 where
  goes_on hands_off commander_gone abandons : DeployRun → Verdict
  promotes rolls_back : Reason → DeployRun → Verdict

unfoldable pub interrupted : DeployRun → Verdict
interrupted r = if r.detached then abandons r else commander_gone r

unfoldable pub choose : Choice → DeployRun → Verdict
unfolding interrupted
choose ticked r = goes_on r
choose promote_asked r = promotes by_hand r
choose context_done r = interrupted r
choose (rollback_asked why) r = rolls_back (asked why) r

-- What a poll finds wrong, and else what is done next.
unfoldable pub judge : Policy → Round → DeployRun → Verdict → Verdict
unfolding breached counted unhealthy_pools
judge p l r next =
    let c = counted r l in
    if breached p c
    then rolls_back (too_many_errors c.1 c.0) r
    else elim (unhealthy_pools l.inspect r.pools) [ some why ↦ rolls_back why r | none ↦ next ]

unfoldable pub watch_round : Policy → Round → DeployRun → Verdict
unfolding poll judge is_over choose
watch_round p l r =
    let polled = poll l r in
    judge p l polled (
      if is_over p l.now polled
      then (if p.manual then hands_off polled else promotes window_passed polled)
      else choose l.choice polled)

unfoldable pub await_choice : Policy → Choice → Round → DeployRun → Verdict
unfolding poll judge choose
await_choice p ticked l r = let polled = poll l r in judge p l polled (goes_on polled)
await_choice p promote_asked l r = choose promote_asked r
await_choice p context_done l r = choose context_done r
await_choice p (rollback_asked why) l r = choose (rollback_asked why) r

unfoldable pub await_round : Policy → Round → DeployRun → Verdict
unfolding await_choice
await_round p l r = await_choice p l.choice l r

-- What a watch comes to over some rounds.
pub data Decision : Type 0 where
  still_watching gone abandoned : DeployRun → Decision
  promotion rolling_back : Reason → DeployRun → Decision

-- After a round: `watch` goes on, `await` does, or the run ends.
unfoldable pub next_step :
    Bool → (DeployRun → Decision) → (DeployRun → Decision) → Verdict → Decision
next_step awaiting watch await (goes_on r) = if awaiting then await r else watch r
next_step awaiting watch await (hands_off r) = await (record r { detached = true })
next_step awaiting watch await (commander_gone r) =
    if awaiting then gone r else watch (record r { detached = true })
next_step awaiting watch await (abandons r) = abandoned r
next_step awaiting watch await (promotes why r) = promotion why r
next_step awaiting watch await (rolls_back why r) = rolling_back why r

-- `watchAll`, and the end of `runDeploy`, over the rounds that there are.
unfoldable pub watch_all : Policy → Bool → List Round → DeployRun → Decision
unfolding next_step watch_round await_round
watch_all p awaiting [] r = still_watching r
watch_all p awaiting (l ∷ ls) r =
    next_step awaiting (watch_all p false ls) (watch_all p true ls)
      (if awaiting then await_round p l r else watch_round p l r)

unfoldable pub abandon : Plant → DeployRun → DeployRun
unfolding tell
abandon plant r = record (tell plant (update_deploy r.status) r) { registered = false }

unfoldable pub carry_out : Plant → Decision → DeployRun
unfolding promote rollback abandon
carry_out plant (still_watching r) = r
carry_out plant (gone r) = r
carry_out plant (abandoned r) = abandon plant r
carry_out plant (promotion why r) = promote plant why r
carry_out plant (rolling_back why r) = rollback plant why r

unfoldable pub watch_deploy : Plant → Policy → List Round → DeployRun → DeployRun
unfolding watch_all carry_out
watch_deploy plant p ls r = carry_out plant (watch_all p false ls r)
