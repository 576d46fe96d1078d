-- ===== src/Fleet/Choose.antt =====
-- internal/fleet/choose.go: which machine an environment is placed on. The sentences that say why
-- are data (Why, Reason, ChooseError), which carry what the sentences print.
pub mod Rank
pub mod Fit
pub mod Best
pub mod Pin
use caramelo.Common.{
  bytes_ltb, trim_space, ℕ, zero, suc, ◌-◌, ◌≡◌, refl, Bool, true, false, not, ◌&&◌, ◌||◌, List, [],
  ◌∷◌, Option, none, some, ◌==◌, nat_eq, bytes_eq, Bytes, if◌then◌else◌, ltb, map, insert, lookup,
  find?,
}
use caramelo.Fleet.{
  is_hub, Machine, reachable, Candidate, free, Demand, Placement, placement_auto, placement_hub,
  Preference, Reason, no_name, never_heard_from, last_seen_ago, wrong_arch, arch_not_said,
  not_gauged, too_small, no_memory_free, Consideration,
}
use caramelo.Fleet.Token.{is_empty}

unfoldable pub unreachable_reason : Machine → ℕ → Reason
unreachable_reason m now =
    if m.last_seen == 0 then never_heard_from else last_seen_ago (now - m.last_seen)

-- The first guard that holds, with its reason.
unfoldable pub objection : Candidate → Demand → ℕ → Option Reason
unfolding unreachable_reason free is_empty
objection c d now =
    let m = c.machine in
    if is_empty m.name
    then some no_name
    else if not (reachable now m)
    then some (unreachable_reason m now)
    else if not (is_empty d.arch) && not (is_empty m.arch) && not (m.arch == d.arch)
    then some (wrong_arch m.arch d.arch)
    else if not (is_empty d.arch) && is_empty m.arch
    then some (arch_not_said d.arch)
    else if not (free c).1
    then some not_gauged
    else if ltb 0 d.memory_bytes && ltb (free c).0 d.memory_bytes
    then some (too_small (free c).0 d.memory_bytes)
    else if d.memory_bytes == 0 && (free c).0 == 0
    then some no_memory_free
    else none

abbrev pub is_none : Option Reason → Bool
is_none none = true
is_none (some r) = false

unfoldable pub consider : Demand → ℕ → Candidate → Consideration
unfolding objection
consider d now c = record {
  machine = c.machine.name;
  free_bytes = (free c).0;
  envs = c.machine.envs;
  fits = is_none (objection c d now);
  reason = objection c d now;
}

-- The order of `rank`: a goes before b.
unfoldable pub ranks_first : Consideration → Consideration → Bool
ranks_first a b =
    if not a.fits && b.fits || a.fits && not b.fits
    then a.fits
    else if not (a.free_bytes == b.free_bytes)
    then ltb b.free_bytes a.free_bytes
    else if not (a.envs == b.envs)
    then ltb a.envs b.envs
    else bytes_ltb a.machine b.machine

unfoldable pub rank_in : Consideration → List Consideration → List Consideration
rank_in a [] = a ∷ []
rank_in a (b ∷ bs) = if ranks_first b a then b ∷ rank_in a bs else a ∷ b ∷ bs

-- sort.SliceStable by that order.
unfoldable pub rank : List Consideration → List Consideration
unfolding rank_in
rank [] = []
rank (a ∷ cons) = rank_in a (rank cons)

pub data PinnedBy : Type 0 where
  by_file by_flag : Bytes → PinnedBy

pinned_by : Bytes → Preference → PinnedBy
pinned_by pin pref = if pref.pinned_by_file then by_file pin else by_flag pin

pub data Why : Type 0 where
  free_and_envs : ℕ → ℕ → Why
  pinned : PinnedBy → Why → Why

why : Consideration → Why
why con = free_and_envs con.free_bytes con.envs

pub data ChooseError : Type 0 where
  no_hub : Bytes → Bytes → ChooseError
  unknown_machine : PinnedBy → List Consideration → ChooseError
  pin_does_not_fit : PinnedBy → Option Reason → ChooseError
  none_fits : List Consideration → ChooseError

pub data Outcome : Type 0 where
  placed : Bytes → Why → Outcome
  no_machine : ChooseError → Outcome

-- The outcome, and what was considered, in order.
pub record Decision : Type 0 where
  pub outcome : Outcome
  pub considered : List Consideration

unfoldable pub by_name :
    List (Bytes × Consideration) → List Consideration → List (Bytes × Consideration)
by_name seen [] = seen
by_name seen (con ∷ cons) = by_name (insert con.machine con seen) cons

pinned_outcome : Bytes → Preference → List Consideration → Option Consideration → Outcome
unfolding pinned_by why
pinned_outcome pin pref cons none = no_machine (unknown_machine (pinned_by pin pref) cons)
pinned_outcome pin pref cons (some con) =
    if not con.fits
    then no_machine (pin_does_not_fit (pinned_by pin pref) con.reason)
    else placed pin (pinned (pinned_by pin pref) (why con))

unfoldable pub choose_pinned : Bytes → Preference → List Consideration → Decision
unfolding pinned_outcome rank by_name
choose_pinned pin pref cons = record {
  outcome = pinned_outcome pin pref cons (lookup pin (by_name [] cons));
  considered = rank cons;
}

unfoldable pub hub_name : List Candidate → Bytes
hub_name [] = []
hub_name (c ∷ cs) = if is_hub c.machine.role then c.machine.name else hub_name cs

fitting_outcome : List Consideration → Option Consideration → Outcome
unfolding why
fitting_outcome ranked none = no_machine (none_fits ranked)
fitting_outcome ranked (some con) = placed con.machine (why con)

unfoldable pub choose_fitting : List Consideration → Decision
unfolding fitting_outcome rank
choose_fitting cons = record {
  outcome = fitting_outcome (rank cons) (find? (λ (c : Consideration). c.fits) (rank cons));
  considered = rank cons;
}

wants_hub : Placement → Bool
wants_hub placement_auto = false
wants_hub placement_hub = true

unfoldable pub choose_hub : Bytes → Demand → Preference → List Consideration → Decision
unfolding choose_pinned
choose_hub hub d pref cons =
    if is_empty hub
    then record { outcome = no_machine (no_hub d.app d.env); considered = rank cons }
    else choose_pinned hub (record pref { pin = hub; pinned_by_file = true }) cons

unfoldable pub choose : List Candidate → Demand → Preference → ℕ → Decision
unfolding consider choose_pinned choose_fitting choose_hub wants_hub is_empty
choose candidates d pref now =
    let cons = map (consider d now) candidates in
    let pin = trim_space pref.pin in
    if not (is_empty pin)
    then choose_pinned pin pref cons
    else if wants_hub pref.placement
    then choose_hub (hub_name candidates) d pref cons
    else choose_fitting cons
