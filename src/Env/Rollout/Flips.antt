-- ===== src/Env/Rollout/Flips.antt =====
-- What the flip of the pool and the drains of internal/env/rollout.go ask for.
use caramelo.Common.{
  ◌≢◌, ap, subst, map, arith, All-mono, Any-append_left, ℕ, ◌≡◌, refl, ◌∙◌, inl, inr, ◌⊎◌, Bool,
  true, false, not, ◌||◌, List, [], ◌∷◌, ◌++◌, none, if◌then◌else◌, All, All-append, length, Any,
  Any-append_right, ◌==◌, nat_eq,
}
use caramelo.Env.Replicas.{LiveReplica}
use caramelo.Env.Rollout.{
  active, draining, healthy, Replica, step_flip, step_drain, step_ok, step_failed, step_skipped,
  TargetRow, Call, push_table, set_targets, Answer, is_refused, Log, Plant, Rollout, ok, err,
  Result, M, then_, ◌>>◌, done, Plan, add_step, step, must,
}
use caramelo.Env.Rollout.Flip.{
  target_rows, activate, replicas_of, flip_steps, skipped_drains, flip_failed, flip_done,
  flip_result, set_each, record_targets, push_routes, publish_targets, flip_pool,
}
use caramelo.Env.Rollout.Rows.{
  active_rows, leaving_rows, target_rows-append, target_rows-activate, target_rows-replicas_of,
}
use caramelo.Env.Rollout.FlipCalls.{FlipEntry, DrainEntry}
use caramelo.Env.Rollout.Extends.{
  Ending, Ends, Whatever, bind-Ends, done-Ends, must-Ends, if-Ends, weaken-Ends,
}

abbrev pub IsFine : Call × Answer → Type 0
IsFine e = is_refused e.1 ≡ false

-- These rows were recorded for each route of the service, and the table was pushed, and nothing of it
-- was refused.
pub record IsFlipped (p : Plan) (rows : List TargetRow) (l : Log) : Type 0 where
  pub all_fine : All IsFine l
  pub recorded :
      p.has_edge ≡ true
      → p.route ≢ 0
      → All (λ id. Any (λ e. e.0 ≡ set_targets id rows) l) (p.route ∷ p.more)
  pub pushed : (p.has_edge ≡ false) ⊎ Any (λ e. e.0 ≡ push_table) l

-- What is known once a loop or a test has recorded the rows.
abbrev Recorded : Plan → List TargetRow → Log → Type 0
Recorded p rows l =
    All IsFine l
    × (p.has_edge ≡ true
        → p.route ≢ 0
        → All (λ id. Any (λ e. e.0 ≡ set_targets id rows) l) (p.route ∷ p.more))

-- The rows of a flip: the fresh replicas serve, and the old ones leave.
abbrev pub flip_rows : Plan → List Replica → List LiveReplica → List TargetRow
flip_rows p fresh old =
    active_rows fresh ++ leaving_rows p.ports p.service (map (λ (o : LiveReplica). o.index) old)

-- Steps leave the log alone.
abbrev KeepsLog : M (Unit {0}) → Type 0
KeepsLog m = (r : Rollout) → ((m r).1.log ≡ r.log) × ((m r).0 ≡ ok tt)

flip_steps-KeepsLog : (reps : List Replica) → KeepsLog (flip_steps reps)
unfolding flip_steps step add_step
flip_steps-KeepsLog [] r = (refl, refl)
flip_steps-KeepsLog (rep ∷ reps) r =
    flip_steps-KeepsLog reps (step rep.index step_flip step_ok active r).1

skipped_drains-KeepsLog : (reps : List Replica) → KeepsLog (skipped_drains reps)
unfolding skipped_drains step add_step
skipped_drains-KeepsLog [] r = (refl, refl)
skipped_drains-KeepsLog (rep ∷ reps) r =
    skipped_drains-KeepsLog reps (step rep.index step_drain step_skipped active r).1

flip_failed-KeepsLog : (reps : List Replica) → KeepsLog (flip_failed reps)
unfolding flip_failed step add_step
flip_failed-KeepsLog [] r = (refl, refl)
flip_failed-KeepsLog (rep ∷ reps) r =
    flip_failed-KeepsLog reps (step rep.index step_flip step_failed healthy r).1

then_-KeepsLog :
    (n : M (Unit {0})) (r : Rollout) (x : Result (Unit {0}) × Rollout)
    → KeepsLog n
    → (x.1.log ≡ r.log) × (x.0 ≡ ok tt)
    → ((then_ (λ u. n) x).1.log ≡ r.log) × ((then_ (λ u. n) x).0 ≡ ok tt)
then_-KeepsLog n r (ok u, s) keeps (same, good) = ((keeps s).0 ∙ same, (keeps s).1)
then_-KeepsLog n r (err f, s) keeps (same, good) = cc

if-KeepsLog :
    (b : Bool) (m n : M (Unit {0})) → KeepsLog m → KeepsLog n → KeepsLog (if b then m else n)
if-KeepsLog true m n km kn = km
if-KeepsLog false m n km kn = kn

flip_done-KeepsLog :
    (fresh : List Replica) (old : List LiveReplica) → KeepsLog (flip_done fresh old)
unfolding flip_done
flip_done-KeepsLog fresh old r =
    let rest = if length old == 0 then skipped_drains fresh else done tt in
    then_-KeepsLog rest r (flip_steps fresh r)
      (if-KeepsLog (length old == 0) (skipped_drains fresh) (done tt)
        (skipped_drains-KeepsLog fresh) (λ s. (refl, refl)))
      (flip_steps-KeepsLog fresh r)

module _ (plant : Plant) (p : Plan) where
  set_each-Ends :
      (P : Call × Answer → Type 0) (ids : List ℕ) (rows : List TargetRow)
      → ((id : ℕ) (a : Answer) → P (set_targets id rows, a))
      → Ends P
          (λ u l. All IsFine l × All (λ id. Any (λ e. e.0 ≡ set_targets id rows) l) ids)
          (set_each plant p ids rows)
  unfolding set_each
  set_each-Ends P [] rows each = done-Ends P _ tt (tt, tt)
  set_each-Ends P (id ∷ ids) rows each =
      bind-Ends P (λ u l. All IsFine l × Any (λ e. e.0 ≡ set_targets id rows) l) _
        (must plant (set_targets id rows) none) _
        (must-Ends P plant _ (set_targets id rows) none (each id) (λ a f. ((f, tt), inl refl)))
        (λ u l q.
          weaken-Ends P
            (λ u l'. All IsFine l' × All (λ i. Any (λ e. e.0 ≡ set_targets i rows) l') ids) _ _
            (λ u l' q'. (
              All-append IsFine l l' q.0 q'.0,
              (
                Any-append_left (λ e. e.0 ≡ set_targets id rows) l l' q.1,
                All-mono (λ i h. Any-append_right (λ e. e.0 ≡ set_targets i rows) l l' h) ids q'.1,
              ),
            ))
            (set_each-Ends P ids rows each))

  record_targets-Ends :
      (P : Call × Answer → Type 0) (pool : List Replica)
      → ((id : ℕ) (rows : List TargetRow) (a : Answer) → P (set_targets id rows, a))
      → Ends P (λ u l. Recorded p (target_rows pool) l) (record_targets plant p pool)
  unfolding record_targets
  record_targets-Ends P pool each =
      if-Ends P _ (not p.has_edge || p.route == 0) (done tt) _
        (λ e.
          done-Ends P _ tt (tt, λ edge routed. absurd (ground (arith, nat_eq.same_iff p.route 0))))
        (λ e.
          weaken-Ends P
            (λ u l.
              All IsFine l
              × All (λ i. Any (λ e. e.0 ≡ set_targets i (target_rows pool)) l) (p.route ∷ p.more))
            _ _ (λ u l q. (q.0, λ edge routed. q.1))
            (set_each-Ends P (p.route ∷ p.more) (target_rows pool)
              (λ id. each id (target_rows pool))))

  Pushed : Log → Type 0
  Pushed l = All IsFine l × ((p.has_edge ≡ false) ⊎ Any (λ e. e.0 ≡ push_table) l)

  push_routes-Ends :
      (P : Call × Answer → Type 0)
      → ((a : Answer) → P (push_table, a))
      → Ends P (λ u l. Pushed l) (push_routes plant p)
  unfolding push_routes Pushed
  push_routes-Ends P each =
      if-Ends P (λ u l. Pushed l) p.has_edge _ (done tt)
        (λ e. must-Ends P plant _ push_table none each (λ a f. ((f, tt), inr (inl refl))))
        (λ e. done-Ends P _ tt (tt, inl e))

  pub publish_targets-Ends :
      (pool : List Replica) → Ends DrainEntry Whatever (publish_targets plant p pool)
  unfolding publish_targets
  publish_targets-Ends pool =
      if-Ends DrainEntry Whatever (not p.has_edge || p.route == 0) (done tt) _
        (λ e. done-Ends DrainEntry Whatever tt tt)
        (λ e.
          bind-Ends DrainEntry Whatever Whatever (record_targets plant p pool) _
            (weaken-Ends DrainEntry (λ u l. Recorded p (target_rows pool) l) Whatever _
              (λ u l q. tt) (record_targets-Ends DrainEntry pool (λ id rows a. tt)))
            (λ u l q.
              weaken-Ends DrainEntry (λ u l. Pushed l) Whatever _ (λ u l q. tt)
                (push_routes-Ends DrainEntry (λ a. tt))))

  flip_result-Ending :
      (Q : Log → Type 0) (fresh : List Replica) (old : List LiveReplica) (r : Rollout)
      (x : Result (Unit {0}) × Rollout)
      → Ending FlipEntry (λ u l. Q l) r x
      → Ending FlipEntry (λ u l. Q l) r (flip_result fresh old x)
  unfolding flip_result
  flip_result-Ending Q fresh old r (ok u, s) e =
      let keep = flip_done-KeepsLog fresh old s in
      record {
        extends = record {
          added = e.extends.added;
          same_log = keep.0 ∙ e.extends.same_log;
          each = e.extends.each;
        };
        on_ok = rw keep.1 e.on_ok;
      }
  flip_result-Ending Q fresh old r (err f, s) e = record {
    extends = record {
      added = e.extends.added;
      same_log = (flip_failed-KeepsLog fresh s).0 ∙ e.extends.same_log;
      each = e.extends.each;
    };
    on_ok = tt;
  }

  pool_rows :
      (fresh : List Replica) (old : List LiveReplica)
      → target_rows (activate fresh ++ replicas_of p draining old) ≡ flip_rows p fresh old
  pool_rows fresh old =
      target_rows-append (activate fresh) (replicas_of p draining old)
      ∙ ap (λ rows. rows ++ target_rows (replicas_of p draining old)) (target_rows-activate fresh)
      ∙ ap (λ rows. active_rows fresh ++ rows) (target_rows-replicas_of p old)

  -- A flip asks for nothing but the pool's record and its push, and succeeds only if none was refused.
  pub flip_pool-IsFlipped :
      (fresh : List Replica) (old : List LiveReplica)
      → Ends FlipEntry (λ u l. IsFlipped p (flip_rows p fresh old) l) (flip_pool plant p fresh old)
  unfolding flip_pool Pushed
  flip_pool-IsFlipped fresh old r =
      let pool = activate fresh ++ replicas_of p draining old in
      let rows = flip_rows p fresh old in
      flip_result-Ending (λ l. IsFlipped p rows l) fresh old r
        ((record_targets plant p pool >> push_routes plant p) r)
        (bind-Ends FlipEntry (λ u l. Recorded p (target_rows pool) l) (λ u l. IsFlipped p rows l)
          (record_targets plant p pool) _ (record_targets-Ends FlipEntry pool (λ id rows a. tt))
          (λ u l q.
            weaken-Ends FlipEntry (λ u l'. Pushed l') (λ u l'. IsFlipped p rows (l ++ l')) _
              (λ u l' f. record {
                all_fine = All-append IsFine l l' q.0 f.0;
                recorded = λ edge routed.
                    All-mono (λ i h. Any-append_left (λ e. e.0 ≡ set_targets i rows) l l' h)
                      (p.route ∷ p.more)
                      (subst
                        (λ rs. All (λ i. Any (λ e. e.0 ≡ set_targets i rs) l) (p.route ∷ p.more))
                        (pool_rows fresh old) (q.1 edge routed));
                pushed = elim f.1 [
                  | inl no_edge ↦ inl no_edge
                  | inr pushed ↦ inr (Any-append_right (λ e. e.0 ≡ push_table) l l' pushed)
                ];
              })
              (push_routes-Ends FlipEntry (λ a. tt)))
          r)
