-- ===== src/Env/Deploy/Pushes.antt =====
-- What `pushPools` has asked for when it succeeds (internal/env/deploy_run.go).
use caramelo.Common.{
  ℕ, ◌≡◌, ◌≢◌, refl, ap, subst, inl, Bool, true, false, not, ◌||◌, List, [], ◌∷◌, ◌++◌, arith, ◌==◌,
  nat_eq, if◌then◌else◌, All, All-mono, Any, Any-append_left, Any-append_right,
}
use caramelo.Env.Rollout.{Replica, TargetRow}
use caramelo.Env.Rollout.Flip.{target_rows}
use caramelo.Env.Deploy.{
  DeployPool, Call, Answer, Log, fine, refused, set_targets, push_table, Plant, DeployRun, try,
  and_then, is_fine,
}
use caramelo.Env.Deploy.Ending.{set_each, record_flip, push_routes, push_each, push_pools}
use caramelo.Env.Deploy.Logs.{Asks, Asks-refl, Asks-trans, IsPush}

abbrev pub Has : Call → Log → Type 0
Has c l = Any (λ (e : Call × Answer). e ≡ (c, fine)) l

abbrev pub Recorded : List TargetRow → List ℕ → Log → Type 0
Recorded rows ids l = All (λ id. Has (set_targets id rows) l) ids

-- Each pool at the edge has its fresh and its held replicas in the rows of its routes.
abbrev pub AllRecorded : List DeployPool → Log → Type 0
AllRecorded ps l =
    All
      (λ (p : DeployPool).
        p.exposed ≡ true
        → p.route ≢ 0
        → Recorded (target_rows (p.fresh ++ p.held)) (p.route ∷ p.more) l)
      ps

abbrev pub Pushed : List DeployPool → Log → Type 0
Pushed ps l = AllRecorded ps l × Has push_table l

pub record Push (Q : Log → Type 0) (r : DeployRun) (x : Bool × DeployRun) : Type 0 where
  pub asks : Asks IsPush r x.1
  pub on_ok : x.0 ≡ true → Q asks.added

try_fine :
    (plant : Plant) (c : Call) (r : DeployRun)
    → ((a : Answer) → IsPush (c, a))
    → Push (Has c) r (try plant c r)
unfolding try is_fine
try_fine plant c r h = record {
  asks = record { added = (c, plant r.log c) ∷ []; same = refl; each = (h (plant r.log c), tt) };
  on_ok = λ e. inl (ap (λ (a : Answer). (c, a)) (fine_of (plant r.log c) e));
}
  where
    fine_of : (a : Answer) → is_fine a ≡ true → a ≡ fine
    fine_of fine e = refl
    fine_of refused e = cc

and_then-Push :
    (Q Q' Q'' : Log → Type 0) (r : DeployRun) (x : Bool × DeployRun)
    (f : DeployRun → Bool × DeployRun)
    → Push Q r x
    → ((s : DeployRun) → s.has_edge ≡ r.has_edge → Push Q' s (f s))
    → ((l l' : Log) → Q l → Q' l' → Q'' (l ++ l'))
    → Push Q'' r (and_then x f)
unfolding and_then Asks-trans
and_then-Push Q Q' Q'' r (true, s) f a later join =
    let b = later s (ap (λ (u : DeployRun). u.has_edge) a.asks.same) in
    record {
      asks = Asks-trans IsPush r s (f s).1 a.asks b.asks;
      on_ok = λ e. join a.asks.added b.asks.added (a.on_ok refl) (b.on_ok e);
    }
and_then-Push Q Q' Q'' r (false, s) f a later join = record { asks = a.asks; on_ok = λ e. cc }

module _ (plant : Plant) where
  pub set_each-Push :
      (ids : List ℕ) (rows : List TargetRow) (r : DeployRun)
      → Push (Recorded rows ids) r (set_each plant ids rows r)
  unfolding set_each
  set_each-Push [] rows r = record { asks = Asks-refl IsPush r; on_ok = λ e. tt }
  set_each-Push (id ∷ ids) rows r =
      and_then-Push (Has (set_targets id rows)) (Recorded rows ids) (Recorded rows (id ∷ ids)) r
        (try plant (set_targets id rows) r) (set_each plant ids rows)
        (try_fine plant (set_targets id rows) r (λ a. tt)) (λ s same. set_each-Push ids rows s)
        (λ l l' one more. (
          Any-append_left (λ e. e ≡ (set_targets id rows, fine)) l l' one,
          All-mono (λ i h. Any-append_right (λ e. e ≡ (set_targets i rows, fine)) l l' h) ids more,
        ))

  abbrev OnPool : Bool → DeployPool → Log → Type 0
  OnPool has_edge p l =
      has_edge ≡ true
      → p.exposed ≡ true
      → p.route ≢ 0
      → Recorded (target_rows (p.fresh ++ p.held)) (p.route ∷ p.more) l

  record_one : DeployPool → DeployRun → Bool × DeployRun
  record_one p r = if p.exposed then record_flip plant p (p.fresh ++ p.held) r else (true, r)

  pub record_flip-Push :
      (p : DeployPool) (reps : List Replica) (r : DeployRun)
      → Push
          (λ l. r.has_edge ≡ true → p.route ≢ 0 → Recorded (target_rows reps) (p.route ∷ p.more) l)
          r
          (record_flip plant p reps r)
  unfolding record_flip
  record_flip-Push p reps r = go (not r.has_edge || p.route == 0) refl
    where
      go :
          (c : Bool)
          → (not r.has_edge || p.route == 0) ≡ c
          → Push
              (λ l.
                r.has_edge ≡ true → p.route ≢ 0 → Recorded (target_rows reps) (p.route ∷ p.more) l)
              r
              (if c then (true, r) else set_each plant (p.route ∷ p.more) (target_rows reps) r)
      go true e = record {
        asks = Asks-refl IsPush r;
        on_ok = λ ok_ edge routed. absurd (ground (arith, nat_eq.same_iff p.route 0));
      }
      go false e =
          let set = set_each-Push (p.route ∷ p.more) (target_rows reps) r in
          record { asks = set.asks; on_ok = λ ok_ edge routed. set.on_ok ok_ }

  record_one-Push : (p : DeployPool) (r : DeployRun) → Push (OnPool r.has_edge p) r (record_one p r)
  unfolding record_one
  record_one-Push p r = go p.exposed
    where
      go :
          (b : Bool)
          → Push
              (λ l.
                r.has_edge ≡ true
                → b ≡ true
                → p.route ≢ 0
                → Recorded (target_rows (p.fresh ++ p.held)) (p.route ∷ p.more) l)
              r
              (if b then record_flip plant p (p.fresh ++ p.held) r else (true, r))
      go false = record { asks = Asks-refl IsPush r; on_ok = λ ok_ edge exposed. cc }
      go true =
          let recorded = record_flip-Push p (p.fresh ++ p.held) r in
          record {
            asks = recorded.asks;
            on_ok = λ ok_ edge exposed routed. recorded.on_ok ok_ edge routed;
          }

  pub push_routes-Push :
      (r : DeployRun) → Push (λ l. r.has_edge ≡ true → Has push_table l) r (push_routes plant r)
  unfolding push_routes
  push_routes-Push r = go r.has_edge
    where
      go :
          (b : Bool)
          → Push
              (λ l. b ≡ true → Has push_table l)
              r
              (if b then try plant push_table r else (true, r))
      go true =
          let one = try_fine plant push_table r (λ a. tt) in
          record { asks = one.asks; on_ok = λ ok_ e. one.on_ok ok_ }
      go false = record { asks = Asks-refl IsPush r; on_ok = λ ok_ e. cc }

  push_each-Push :
      (ps : List DeployPool) (r : DeployRun)
      → Push (λ l. r.has_edge ≡ true → Pushed ps l) r (push_each plant ps r)
  unfolding push_each record_one
  push_each-Push [] r =
      let last = push_routes-Push r in
      record { asks = last.asks; on_ok = λ ok_ edge. (tt, last.on_ok ok_ edge) }
  push_each-Push (p ∷ ps) r =
      and_then-Push (OnPool r.has_edge p) (λ l. r.has_edge ≡ true → Pushed ps l)
        (λ l. r.has_edge ≡ true → Pushed (p ∷ ps) l) r (record_one p r) (push_each plant ps)
        (record_one-Push p r)
        (λ s same.
          subst (λ b. Push (λ l. b ≡ true → Pushed ps l) s (push_each plant ps s)) same
            (push_each-Push ps s))
        (λ l l' one more edge.
          let rest = more edge in
          (
            (
              (λ exposed routed.
                  All-mono
                    (λ i h.
                      Any-append_left
                        (λ e. e ≡ (set_targets i (target_rows (p.fresh ++ p.held)), fine)) l l' h)
                    (p.route ∷ p.more) (one edge exposed routed)),
              All-mono
                  (λ q h exposed routed.
                    All-mono
                      (λ i g.
                        Any-append_right
                          (λ e. e ≡ (set_targets i (target_rows (q.fresh ++ q.held)), fine)) l l' g)
                      (q.route ∷ q.more) (h exposed routed))
                  ps rest.0,
            ),
            Any-append_right (λ e. e ≡ (push_table, fine)) l l' rest.1,
          ))

  pub push_pools-Push :
      (r : DeployRun) → Push (λ l. r.has_edge ≡ true → Pushed r.pools l) r (push_pools plant r)
  unfolding push_pools
  push_pools-Push r = push_each-Push r.pools r
