-- ===== src/Env/Deploy/Logs.antt =====
-- What the parts of a deploy's end ask for (internal/env/deploy_run.go, deploy_watch.go). Each of them
-- changes nothing of the run but its log.
use mathlib.Core.List.{append_assoc, append-nil}
use caramelo.Common.{
  ℕ, suc, ◌≡◌, refl, sym, ap, ◌∙◌, Bool, true, false, not, ◌&&◌, ◌||◌, List, [], ◌∷◌, ◌++◌, map,
  ◌==◌, nat_eq, bytes_eq, Bytes, if◌then◌else◌, All, All-append, All-mono, Any,
}
use caramelo.Env.Rollout.{Replica}
use caramelo.Env.Deploy.{
  DeployPool, Call, Answer, Log, set_targets, push_table, read_previous, save_env, clear_deploy,
  prune, wait_drain, stop_container, remove_container, plan_service, recreate_service,
  await_service, put_service, set_release, update_deploy, Plant, DeployRun, try, tell, and_then,
}
use caramelo.Env.Deploy.Ending.{
  stop_replica, drain_replicas, drain_fresh, stop_replicas, put_back, put_all_back, restore_plan,
  restore_previous,
}

-- The run with these entries added to its log, all of one kind.
pub record Asks (P : Call × Answer → Type 0) (r r' : DeployRun) : Type 0 where
  pub added : Log
  pub same : r' ≡ record r { log = r.log ++ added }
  pub each : All P added

module _ (P : Call × Answer → Type 0) where
  unfoldable pub Asks-refl : (r : DeployRun) → Asks P r r
  Asks-refl r = record {
    added = [];
    same = ap (λ (l : Log). record r { log = l }) (sym (append-nil r.log));
    each = tt;
  }

  unfoldable pub Asks-trans : (r s t : DeployRun) → Asks P r s → Asks P s t → Asks P r t
  Asks-trans r s t a b = record {
    added = a.added ++ b.added;
    same =
        b.same
        ∙ ap (λ (u : DeployRun). record u { log = u.log ++ b.added }) a.same
        ∙ ap (λ (l : Log). record r { log = l }) (append_assoc r.log a.added b.added);
    each = All-append P a.added b.added a.each b.each;
  }

  pub try-Asks :
      (plant : Plant) (c : Call) (r : DeployRun)
      → ((a : Answer) → P (c, a))
      → Asks P r (try plant c r).1
  unfolding try
  try-Asks plant c r h = record {
    added = (c, plant r.log c) ∷ [];
    same = refl;
    each = (h (plant r.log c), tt);
  }

  pub tell-Asks :
      (plant : Plant) (c : Call) (r : DeployRun)
      → ((a : Answer) → P (c, a))
      → Asks P r (tell plant c r)
  unfolding tell
  tell-Asks plant c r h = try-Asks plant c r h

  pub and_then-Asks :
      (r : DeployRun) (x : Bool × DeployRun) (f : DeployRun → Bool × DeployRun)
      → Asks P r x.1
      → ((s : DeployRun) → Asks P s (f s).1)
      → Asks P r (and_then x f).1
  unfolding and_then
  and_then-Asks r (true, s) f a later = Asks-trans r s (f s).1 a (later s)
  and_then-Asks r (false, s) f a later = a

  pub either-Asks :
      (b : Bool) (r s t : DeployRun) → Asks P r s → Asks P r t → Asks P r (if b then s else t)
  either-Asks true r s t a a' = a
  either-Asks false r s t a a' = a'

pub Asks-mono :
    (P Q : Call × Answer → Type 0) (r s : DeployRun)
    → ((e : Call × Answer) → P e → Q e)
    → Asks P r s
    → Asks Q r s
Asks-mono P Q r s h a = record { added = a.added; same = a.same; each = All-mono h a.added a.each }

-- The calls that record and push the pools.
abbrev pub IsPush : Call × Answer → Type 0
IsPush (set_targets id rows, a) = Unit
IsPush (push_table, a) = Unit
IsPush (c, a) = ⊥

-- No container is asked to be stopped or removed but these. A service that is made again
-- (recreate_service) may remove containers of its own, which is not counted here.
abbrev pub StopsOnly : List Bytes → Call × Answer → Type 0
StopsOnly cs (stop_container c, a) = Any (λ d. d ≡ c) cs
StopsOnly cs (remove_container c, a) = Any (λ d. d ≡ c) cs
StopsOnly cs (c, a) = Unit

pub IsPush-StopsOnly : (cs : List Bytes) (e : Call × Answer) → IsPush e → StopsOnly cs e
IsPush-StopsOnly cs (set_targets id rows, a) h = tt
IsPush-StopsOnly cs (push_table, a) h = tt
IsPush-StopsOnly cs (read_previous, a) h = tt
IsPush-StopsOnly cs (save_env, a) h = tt
IsPush-StopsOnly cs (clear_deploy, a) h = tt
IsPush-StopsOnly cs (prune, a) h = tt
IsPush-StopsOnly cs (wait_drain host i, a) h = tt
IsPush-StopsOnly cs (stop_container c, a) h = absurd h
IsPush-StopsOnly cs (remove_container c, a) h = absurd h
IsPush-StopsOnly cs (plan_service s, a) h = tt
IsPush-StopsOnly cs (recreate_service s, a) h = tt
IsPush-StopsOnly cs (await_service s, a) h = absurd h
IsPush-StopsOnly cs (put_service s, a) h = tt
IsPush-StopsOnly cs (set_release i, a) h = tt
IsPush-StopsOnly cs (update_deploy s, a) h = tt

-- The containers of the replicas.
unfoldable pub containers : List Replica → List Bytes
containers reps = map (λ (rep : Replica). rep.container) reps

module _ (plant : Plant) (cs : List Bytes) where
  stop_replica-Asks :
      (c : Bytes) (r : DeployRun)
      → Any (λ d. d ≡ c) cs
      → Asks (StopsOnly cs) r (stop_replica plant c r).1
  unfolding stop_replica
  stop_replica-Asks c r h =
      and_then-Asks (StopsOnly cs) r (try plant (stop_container c) r) _
        (try-Asks (StopsOnly cs) plant (stop_container c) r (λ a. h))
        (λ s. try-Asks (StopsOnly cs) plant (remove_container c) s (λ a. h))

  skipped-Asks :
      (b : Bool) (r : DeployRun) (x : Bool × DeployRun)
      → Asks (StopsOnly cs) r x.1
      → Asks (StopsOnly cs) r (if b then (false, r) else x).1
  skipped-Asks true r x a = Asks-refl (StopsOnly cs) r
  skipped-Asks false r x a = a

  pub stop_replicas-Asks :
      (reps : List Replica) (n : ℕ) (r : DeployRun)
      → All (λ c. Any (λ d. d ≡ c) cs) (containers reps)
      → Asks (StopsOnly cs) r (stop_replicas plant reps n r).1
  unfolding stop_replicas containers
  stop_replicas-Asks [] n r h = Asks-refl (StopsOnly cs) r
  stop_replicas-Asks (rep ∷ reps) n r h =
      let x = if rep.container == [] then (false, r) else stop_replica plant rep.container r in
      Asks-trans (StopsOnly cs) r x.1 _
        (skipped-Asks (rep.container == []) r (stop_replica plant rep.container r)
          (stop_replica-Asks rep.container r h.0))
        (stop_replicas-Asks reps (if x.0 then suc n else n) x.1 h.1)

  pub drain_replicas-Asks :
      (host : Bytes) (reps : List Replica) (r : DeployRun)
      → Asks (StopsOnly cs) r (drain_replicas plant host reps r)
  unfolding drain_replicas
  drain_replicas-Asks host [] r = Asks-refl (StopsOnly cs) r
  drain_replicas-Asks host (rep ∷ reps) r =
      let skip = rep.container == [] || not r.has_edge in
      let s = if skip then r else tell plant (wait_drain host rep.index) r in
      Asks-trans (StopsOnly cs) r s _
        (either-Asks (StopsOnly cs) skip r r _ (Asks-refl (StopsOnly cs) r)
          (tell-Asks (StopsOnly cs) plant (wait_drain host rep.index) r (λ a. tt)))
        (drain_replicas-Asks host reps s)

  pub drain_fresh-Asks :
      (ps : List DeployPool) (r : DeployRun) → Asks (StopsOnly cs) r (drain_fresh plant ps r)
  unfolding drain_fresh
  drain_fresh-Asks [] r = Asks-refl (StopsOnly cs) r
  drain_fresh-Asks (p ∷ ps) r =
      let s = if p.exposed then drain_replicas plant p.host p.fresh r else r in
      Asks-trans (StopsOnly cs) r s _
        (either-Asks (StopsOnly cs) p.exposed r _ r (drain_replicas-Asks p.host p.fresh r)
          (Asks-refl (StopsOnly cs) r))
        (drain_fresh-Asks ps s)

  put_back-Asks : (p : DeployPool) (r : DeployRun) → Asks (StopsOnly cs) r (put_back plant p r)
  unfolding put_back
  put_back-Asks p r =
      let P = StopsOnly cs in
      either-Asks P p.exposed r _ _
        (either-Asks P r.pushed r _ r (tell-Asks P plant (put_service p.service) r (λ a. tt))
          (Asks-refl P r))
        (either-Asks P (not r.replaced) r r _ (Asks-refl P r) (
          and_then-Asks P r (try plant (recreate_service p.service) r) _
            (try-Asks P plant (recreate_service p.service) r (λ a. tt))
            (λ s. try-Asks P plant (put_service p.service) s (λ a. tt))))

  put_all_back-Asks :
      (ps : List DeployPool) (r : DeployRun) → Asks (StopsOnly cs) r (put_all_back plant ps r)
  unfolding put_all_back
  put_all_back-Asks [] r = Asks-refl (StopsOnly cs) r
  put_all_back-Asks (p ∷ ps) r =
      let P = StopsOnly cs in
      let x = try plant (plan_service p.service) r in
      let s = if x.0 then put_back plant p x.1 else x.1 in
      Asks-trans P r x.1 _ (try-Asks P plant (plan_service p.service) r (λ a. tt)) (
        Asks-trans P x.1 s _ (either-Asks P x.0 x.1 _ x.1 (put_back-Asks p x.1) (Asks-refl P x.1))
          (put_all_back-Asks ps s))

  restore_plan-Asks :
      (r : DeployRun) (x : Bool × DeployRun)
      → Asks (StopsOnly cs) r x.1
      → Asks (StopsOnly cs) r (restore_plan plant x)
  unfolding restore_plan
  restore_plan-Asks r (false, s) a = a
  restore_plan-Asks r (true, s) a =
      let P = StopsOnly cs in
      Asks-trans P r s _ a (
        Asks-trans P s (tell plant save_env s) _ (tell-Asks P plant save_env s (λ a. tt))
          (put_all_back-Asks s.pools (tell plant save_env s)))

  pub restore_previous-Asks : (r : DeployRun) → Asks (StopsOnly cs) r (restore_previous plant r)
  unfolding restore_previous
  restore_previous-Asks r =
      either-Asks (StopsOnly cs) (not r.from_release || (not r.replaced && not r.pushed)) r r _
        (Asks-refl (StopsOnly cs) r)
        (restore_plan-Asks r (try plant read_previous r)
          (try-Asks (StopsOnly cs) plant read_previous r (λ a. tt)))
