-- ===== src/Env/Rollout/Phases.antt =====
-- The order of a rollout (internal/env/rollout.go).
use mathlib.Core.List.{append_assoc, append-nil}
use caramelo.Common.{
  ℕ, ◌≡◌, refl, sym, ap, subst, ◌∙◌, inl, inr, ◌⊎◌, List, [], ◌++◌, Option, some, All,
}
use caramelo.Env.Replicas.{LiveReplica, free_indexes}
use caramelo.Env.Replicas.Free.{free_indexes-LowestFree}
use caramelo.Env.Rollout.{Replica, Log, Plant, Rollout, ok, err, Result, Plan}
use caramelo.Env.Rollout.Flip.{activate, flip_pool}
use caramelo.Env.Rollout.Roll.{
  Fresh, all_up, some_down, bring_up_all, after_flip, after_start, replace_all,
}
use caramelo.Env.Rollout.Extends.{Extends, Ending}
use caramelo.Env.Rollout.FlipCalls.{FlipEntry, DrainEntry}
use caramelo.Env.Rollout.Flips.{IsFlipped, flip_rows, flip_pool-IsFlipped}
use caramelo.Env.Rollout.Brought.{AllUp, Brought, bring_up_all-Brought}
use caramelo.Env.Rollout.Drained.{drain_all-Extends, after_drains-Extends}
use caramelo.Env.Rollout.Checks.{StartEntry}

-- What a rollout asks for comes in three parts. The pool is changed only once every fresh replica is
-- up, and the old replicas go only once the fresh ones have been recorded as the ones that serve, the
-- old ones as the ones that leave, and the table has been pushed.
pub record Phases (p : Plan) (old : List LiveReplica) (is : List ℕ) (r r' : Rollout) : Type 0 where
  pub started : Log
  pub flipped : Log
  pub drains : Log
  pub whole : r'.log ≡ r.log ++ (started ++ (flipped ++ drains))
  pub only_starts : All (StartEntry p) started
  pub only_flips : All FlipEntry flipped
  pub only_drains : All DrainEntry drains
  pub up_first :
      ((flipped ≡ []) × (drains ≡ [])) ⊎ ((fresh : List Replica) × AllUp p is fresh started)
  pub flip_first :
      (drains ≡ [])
      ⊎ ((fresh : List Replica) × AllUp p is fresh started
          × IsFlipped p (flip_rows p fresh old) flipped)

regroup : (a b c d : Log) → ((a ++ b) ++ c) ++ d ≡ a ++ (b ++ (c ++ d))
regroup a b c d = simp append_assoc

module _ (p : Plan) (plant : Plant) where
  -- The phases of what has only been started.
  started_only :
      (old : List LiveReplica) (is : List ℕ) (r : Rollout) (s t : Rollout)
      → Extends (StartEntry p) r s
      → t.log ≡ s.log
      → Phases p old is r t
  started_only old is r s t e same = record {
    started = e.added;
    flipped = [];
    drains = [];
    whole = same ∙ e.same_log ∙ ap (λ (l : Log). r.log ++ l) (sym (append-nil e.added));
    only_starts = e.each;
    only_flips = tt;
    only_drains = tt;
    up_first = inl (refl, refl);
    flip_first = inl refl;
  }

  after_flip-Phases :
      (is : List ℕ) (fresh : List Replica) (old : List LiveReplica) (legacy : Option LiveReplica)
      (r s : Rollout) (e : Extends (StartEntry p) r s) (x : Result (Unit {0}) × Rollout)
      → AllUp p is fresh e.added
      → Ending FlipEntry (λ u l. IsFlipped p (flip_rows p fresh old) l) s x
      → Phases p old is r (after_flip plant p fresh old legacy x).rollout
  unfolding after_flip
  after_flip-Phases is fresh old legacy r s e (err f, t) all run = record {
    started = e.added;
    flipped = run.extends.added;
    drains = [];
    whole =
        run.extends.same_log
        ∙ ap (λ (l : Log). l ++ run.extends.added) e.same_log
        ∙ append_assoc r.log e.added run.extends.added
        ∙ ap (λ (l : Log). r.log ++ (e.added ++ l)) (sym (append-nil run.extends.added));
    only_starts = e.each;
    only_flips = run.extends.each;
    only_drains = tt;
    up_first = inr (fresh, all);
    flip_first = inl refl;
  }
  after_flip-Phases is fresh old legacy r s e (ok u, t) all run =
      let drained_log =
        after_drains-Extends plant p (activate fresh) legacy t _
          (drain_all-Extends plant p (activate fresh) old t) in
      record {
        started = e.added;
        flipped = run.extends.added;
        drains = drained_log.added;
        whole =
            drained_log.same_log
            ∙ ap (λ (l : Log). l ++ drained_log.added)
                (run.extends.same_log ∙ ap (λ (l : Log). l ++ run.extends.added) e.same_log)
            ∙ regroup r.log e.added run.extends.added drained_log.added;
        only_starts = e.each;
        only_flips = run.extends.each;
        only_drains = drained_log.each;
        up_first = inr (fresh, all);
        flip_first = inr (fresh, all, run.on_ok);
      }

  after_start-Phases :
      (is : List ℕ) (old : List LiveReplica) (legacy : Option LiveReplica) (r : Rollout)
      (x : Fresh × Rollout)
      → Brought p [] is r x
      → Phases p old is r (after_start plant p old legacy x).rollout
  unfolding after_start
  after_start-Phases is old legacy r (some_down fresh f, s) e =
      started_only old is r s s e.extends refl
  after_start-Phases is old legacy r (all_up fresh, s) e =
      after_flip-Phases is fresh old legacy r s e.extends (flip_pool plant p fresh old s)
        (subst (λ reps. AllUp p is reps e.extends.added) (sym e.on_up.1) e.on_up.2)
        (flip_pool-IsFlipped plant p fresh old s)

pub replace_all-Phases :
    (plant : Plant) (p : Plan) (old : List LiveReplica) (legacy : Option LiveReplica) (r : Rollout)
    → (is : List ℕ) × (free_indexes old p.want ≡ some is)
      × Phases p old is r (replace_all plant p old legacy r).rollout
unfolding replace_all
replace_all-Phases plant p old legacy r =
    let (is, found, len, low) = free_indexes-LowestFree old p.want in
    (
      is,
      found,
      rw (found, replace_all)
          (after_start-Phases p plant is old legacy r (bring_up_all plant p [] is r)
            (bring_up_all-Brought p plant is [] r)),
    )
