-- ===== src/Edge/Pool/Invariant.antt =====
-- The invariant of a pool, and that the begin and the end of a request keep it
-- (internal/edge/pool.go); the other operations are in the modules below.
pub mod Install
pub mod Marks
pub mod Sweeps
pub mod Steps
use native.Mathlib.Nat.{mod-lt}
use native.Mathlib.Decide.{dec_lt}
use caramelo.Common.{
  ℕ, zero, suc, ◌+◌, ◌-◌, ◌%◌, ◌≤◌, ◌<◌, ◌≡◌, refl, sym, ap, subst, ◌∙◌, ◌⊎◌, inl, inr, Bool, true,
  false, not, List, [], ◌∷◌, ◌++◌, Option, none, some, arith, length, length-append, All, All-mono,
  All-append, Bool-cases, Option-cases, ◌==◌, nat_eq, insert, erase, lookup, if◌then◌else◌, loop,
  loop_inv, ltb, drop, find?, Bytes,
}
use caramelo.Edge.{Target, Route, TargetState, draining, state_eq, valid_state, Event}
use caramelo.Edge.Host.{normalize_host}
use caramelo.Edge.Pool.State.{
  Conns, Tracked, RoutePool, CountMark, find, set_tracked, max_count_marks, default_drain, snapshot,
  trim_marks, live,
}
use caramelo.Edge.Pool.Install.{
  Pass, by_replica, fresh, kept, add_fresh, add_kept, reusable, install_target, insert_sorted,
  sort_tracked, is_idle, report_idle, report_all, settle_drain, install_pass, install, new_pool,
}
use caramelo.Edge.Pool.Requests.{
  ok, err, Mark, MarkKind, start, done, fail, state, other, begin, end, mark, mark_kind, mark_start,
  mark_done, mark_fail, mark_state, moved, release, closed, is_open, write_back, finishes_drain,
  any_conn, sweep, sweep_targets, overdue, cut, Outcome, Result,
}
use caramelo.Edge.Pool.Pick.{pick, picked, pick_loop}

-- Of a target: a drain that has nothing left to wait for is reported, and each connection's number
-- was given out.
pub record IsSettled (seq : ℕ) (ts : Tracked) : Type 0 where
  pub settled : ts.t.state ≡ draining → length ts.conns ≡ 0 → ts.reported ≡ true
  pub numbered : All (λ c. c.0 ≤ seq) ts.conns

pub record PoolInv (p : RoutePool) : Type 0 where
  pub each : All (IsSettled p.seq) p.targets
  pub drain_pos : 0 < p.drain
  pub pointer : (p.next < length p.targets) ⊎ (p.next ≡ 0)
  pub few_marks : length p.marks ≤ max_count_marks

module _ {ℓ} (P : Tracked → Type ℓ) where
  pub All-set_tracked :
      (replica : ℕ) (new : Tracked) (tss : List Tracked)
      → P new
      → All P tss
      → All P (set_tracked replica new tss)
  unfolding set_tracked
  All-set_tracked replica new [] h a = tt
  All-set_tracked replica new (ts ∷ tss) h a = elim (Bool-cases (ts.t.replica == replica)) [
    | inl hit ↦ rw hit (h, a.1)
    | inr miss ↦ rw miss (a.0, All-set_tracked replica new tss h a.1)
  ]

  pub All-find :
      (replica : ℕ) (tss : List Tracked) (ts : Tracked)
      → All P tss
      → find replica tss ≡ some ts
      → P ts
  unfolding find
  All-find replica [] ts a e = cc
  All-find replica (x ∷ tss) ts a e = elim (Bool-cases (x.t.replica == replica)) [
    | inl hit ↦ subst P (ground arith) a.0
    | inr miss ↦ All-find replica tss ts a.1 (ground arith)
  ]

length-set_tracked :
    (replica : ℕ) (new : Tracked) (tss : List Tracked)
    → length (set_tracked replica new tss) ≡ length tss
unfolding set_tracked
length-set_tracked replica new [] = refl
length-set_tracked replica new (ts ∷ tss) = ground (arith, length-set_tracked replica new tss)

length-insert : (id : ℕ) (c : Option ℕ) (cs : Conns) → 0 < length (insert id c cs)
unfolding insert
length-insert id c [] = omega arith
length-insert id c ((j, d) ∷ cs) = ground arith

All-insert {ℓ} :
    (P : ℕ × Option ℕ → Type ℓ) (id : ℕ) (c : Option ℕ) (cs : Conns)
    → P (id, c)
    → All P cs
    → All P (insert id c cs)
unfolding insert
All-insert P id c [] h a = (h, tt)
All-insert P id c ((j, d) ∷ cs) h a = elim (Bool-cases (j == id)) [
  | inl hit ↦ rw hit (h, a.1)
  | inr miss ↦ rw miss (a.0, All-insert P id c cs h a.1)
]

All-erase {ℓ} : (P : ℕ × Option ℕ → Type ℓ) (id : ℕ) (cs : Conns) → All P cs → All P (erase id cs)
unfolding erase
All-erase P id [] a = tt
All-erase P id ((j, d) ∷ cs) a = elim (Bool-cases (j == id)) [
  | inl hit ↦ rw hit (All-erase P id cs a.1)
  | inr miss ↦ rw miss (a.0, All-erase P id cs a.1)
]

IsSettled-suc : (seq : ℕ) (ts : Tracked) → IsSettled seq ts → IsSettled (suc seq) ts
IsSettled-suc seq ts h = record {
  settled = h.settled;
  numbered = All-mono (λ c b. omega arith) ts.conns h.numbered;
}

pub release-IsSettled :
    (host : Bytes) (id at seq : ℕ) (ts : Tracked)
    → IsSettled seq ts
    → IsSettled seq (release host id at ts).0
unfolding release finishes_drain closed
release-IsSettled host id at seq ts h = elim (Bool-cases (is_open id ts.conns)) [
  | inl o ↦ elim (Bool-cases (finishes_drain (closed id ts))) [
    | inl f ↦
        rw (o, f) (record { settled = λ _ _. refl; numbered = All-erase _ id ts.conns h.numbered })
    | inr f ↦
        rw (o, f)
          (record { settled = λ e z. ground arith; numbered = All-erase _ id ts.conns h.numbered })
  ]
  | inr o ↦ rw o h
]

pub write_back-PoolInv :
    (p : RoutePool) (replica : ℕ) (r : Tracked × List Event)
    → PoolInv p
    → IsSettled p.seq r.0
    → PoolInv (write_back p replica r).pool
unfolding write_back
write_back-PoolInv p replica (ts, es) v h = record {
  each = All-set_tracked (IsSettled p.seq) replica ts p.targets h v.each;
  drain_pos = v.drain_pos;
  pointer = ground (arith, length-set_tracked replica ts p.targets);
  few_marks = v.few_marks;
}

-- A new target is written back, with its pool's connection counter.
pub put-PoolInv :
    (p : RoutePool) (replica seq : ℕ) (new : Tracked)
    → PoolInv p
    → p.seq ≤ seq
    → IsSettled seq new
    → All (IsSettled seq) p.targets
    → PoolInv (record p { seq = seq; targets = set_tracked replica new p.targets })
put-PoolInv p replica seq new v le h a = record {
  each = All-set_tracked (IsSettled seq) replica new p.targets h a;
  drain_pos = v.drain_pos;
  pointer = ground (arith, length-set_tracked replica new p.targets);
  few_marks = v.few_marks;
}

pub opened-IsSettled :
    (seq : ℕ) (c : Option ℕ) (ts : Tracked)
    → IsSettled seq ts
    → IsSettled (suc seq) (record ts { conns = insert (suc seq) c ts.conns })
opened-IsSettled seq c ts h = record {
  settled = λ e z. absurd (omega (arith, length-insert (suc seq) c ts.conns));
  numbered =
      All-insert (λ d. d.0 ≤ suc seq) (suc seq) c ts.conns (omega arith)
        (IsSettled-suc seq ts h).numbered;
}

pub each-suc : (p : RoutePool) → PoolInv p → All (IsSettled (suc p.seq)) p.targets
each-suc p v = All-mono (IsSettled-suc p.seq) p.targets v.each

abbrev pub after_begin : RoutePool → Result (RoutePool × ℕ) → RoutePool
after_begin p (ok r) = r.0
after_begin p (err e) = p

abbrev pub after_mark : RoutePool → Result Outcome → RoutePool
after_mark p (ok o) = o.pool
after_mark p (err e) = p

pub begin-PoolInv :
    (replica : ℕ) (cancel : Option ℕ) (p : RoutePool)
    → PoolInv p
    → PoolInv (after_begin p (begin replica cancel p))
unfolding begin
begin-PoolInv replica cancel p v = elim (Option-cases (find replica p.targets)) [
  | inl e ↦ rw (e, begin) v
  | inr (ts, e) ↦
      rw (e, begin)
        (put-PoolInv p replica (suc p.seq) _ v (omega arith)
          (opened-IsSettled p.seq cancel ts
            (All-find (IsSettled p.seq) replica p.targets ts v.each e))
          (each-suc p v))
]

pub end-PoolInv :
    (now replica id : ℕ) (p : RoutePool) → PoolInv p → PoolInv (end now replica id p).pool
unfolding end
end-PoolInv now replica id p v = elim (Option-cases (find replica p.targets)) [
  | inl e ↦ rw (e, end) v
  | inr (ts, e) ↦
      rw (e, end)
        (write_back-PoolInv p replica (release p.host id now ts) v (
          release-IsSettled p.host id now p.seq ts
            (All-find (IsSettled p.seq) replica p.targets ts v.each e)))
]
