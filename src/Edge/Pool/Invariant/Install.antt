-- ===== src/Edge/Pool/Invariant/Install.antt =====
-- `install` of internal/edge/pool.go makes and keeps the pool's invariant.
use caramelo.Common.{
  ℕ, suc, ◌+◌, ◌≤◌, ◌<◌, ◌≡◌, refl, sym, ap, subst, ◌⊎◌, inl, inr, List, [], ◌∷◌, ◌++◌, Option,
  none, some, arith, length, length-append, All, All-append, Bool-cases, Option-cases, ◌==◌, nat_eq,
  insert, erase, lookup, if◌then◌else◌, loop, leb, Bytes,
}
use caramelo.Edge.{Target, Route, state_eq}
use caramelo.Edge.Host.{normalize_host}
use caramelo.Edge.Pool.State.{Tracked, RoutePool, CountMark, max_count_marks, snapshot, trim_marks}
use caramelo.Edge.Pool.Install.{
  Pass, by_replica, fresh, kept, add_fresh, add_kept, reusable, install_target, insert_sorted,
  sort_tracked, is_idle, report_idle, report_all, settle_drain, install_pass, install,
}
use caramelo.Edge.Pool.Invariant.{IsSettled, PoolInv}

abbrev pub Numbered : ℕ → Tracked → Type 0
Numbered seq ts = All (λ c. c.0 ≤ seq) ts.conns

record PassInv (seq : ℕ) (pass : Pass) : Type 0 where
  next_numbered : All (Numbered seq) pass.next
  old_numbered : All (λ e. Numbered seq e.1) pass.old

module _ {ℓ} (P : Tracked → Type ℓ) where
  insert-All :
      (k : ℕ) (ts : Tracked) (m : List (ℕ × Tracked))
      → P ts
      → All (λ e. P e.1) m
      → All (λ e. P e.1) (insert k ts m)
  unfolding insert
  insert-All k ts [] h a = (h, tt)
  insert-All k ts ((j, x) ∷ m) h a = elim (Bool-cases (j == k)) [
    | inl hit ↦ rw hit (h, a.1)
    | inr miss ↦ rw miss (a.0, insert-All k ts m h a.1)
  ]

  erase-All : (k : ℕ) (m : List (ℕ × Tracked)) → All (λ e. P e.1) m → All (λ e. P e.1) (erase k m)
  unfolding erase
  erase-All k [] a = tt
  erase-All k ((j, x) ∷ m) a = elim (Bool-cases (j == k)) [
    | inl hit ↦ rw hit (erase-All k m a.1)
    | inr miss ↦ rw miss (a.0, erase-All k m a.1)
  ]

  lookup-All :
      (k : ℕ) (m : List (ℕ × Tracked)) (ts : Tracked)
      → All (λ e. P e.1) m
      → lookup k m ≡ some ts
      → P ts
  unfolding lookup
  lookup-All k [] ts a e = cc
  lookup-All k ((j, x) ∷ m) ts a e = elim (Bool-cases (j == k)) [
    | inl hit ↦ subst P (ground arith) a.0
    | inr miss ↦ lookup-All k m ts a.1 (ground arith)
  ]

  by_replica-All :
      (old : List (ℕ × Tracked)) (tss : List Tracked)
      → All (λ e. P e.1) old
      → All P tss
      → All (λ e. P e.1) (by_replica old tss)
  unfolding by_replica
  by_replica-All old [] h a = h
  by_replica-All old (ts ∷ tss) h a =
      by_replica-All (insert ts.t.replica ts old) tss (insert-All ts.t.replica ts old a.0 h) a.1

  insert_sorted-All :
      (ts : Tracked) (xs : List Tracked) → P ts → All P xs → All P (insert_sorted ts xs)
  unfolding insert_sorted
  insert_sorted-All ts [] h a = (h, tt)
  insert_sorted-All ts (x ∷ xs) h a = elim (Bool-cases (leb ts.t.replica x.t.replica)) [
    | inl below ↦ rw below (h, a)
    | inr above ↦ rw above (a.0, insert_sorted-All ts xs h a.1)
  ]

  pub sort_tracked-All : (xs : List Tracked) → All P xs → All P (sort_tracked xs)
  unfolding sort_tracked
  sort_tracked-All [] a = tt
  sort_tracked-All (x ∷ xs) a = insert_sorted-All x (sort_tracked xs) a.0 (sort_tracked-All xs a.1)

kept_conns : (now : ℕ) (want : Target) (ts : Tracked) → (kept now want ts).conns ≡ ts.conns
unfolding kept
kept_conns now want ts = ground arith

pub reusable-eq-some :
    (want : Target) (o : Option Tracked) (ts : Tracked)
    → reusable want o ≡ some ts
    → (o ≡ some ts) × (ts.t.port ≡ want.port)
unfolding reusable
reusable-eq-some want none ts e = cc
reusable-eq-some want (some x) ts e = ground arith

install_target-PassInv :
    (seq : ℕ) (host : Bytes) (now : ℕ) (pass : Pass) (want : Target)
    → PassInv seq pass
    → PassInv seq (install_target host now pass want)
unfolding install_target add_fresh add_kept fresh
install_target-PassInv seq host now pass want v =
    elim (Option-cases (reusable want (lookup want.replica pass.old))) [
      | inl e ↦
          rw (e, install_target)
            (record {
              next_numbered = All-append (Numbered seq) pass.next _ v.next_numbered (tt, tt);
              old_numbered = v.old_numbered;
            })
      | inr (ts, e) ↦
          let numbered : Numbered seq ts =
            lookup-All (Numbered seq) want.replica pass.old ts v.old_numbered
              (reusable-eq-some want _ ts e).0 in
          rw (e, install_target)
            (record {
              next_numbered =
                  All-append (Numbered seq) pass.next _ v.next_numbered
                    (subst (All (λ c. c.0 ≤ seq)) (sym (kept_conns now want ts)) numbered, tt);
              old_numbered = erase-All (Numbered seq) want.replica pass.old v.old_numbered;
            })
    ]

loop-PassInv :
    (seq : ℕ) (host : Bytes) (now : ℕ) (pass : Pass) (wants : List Target)
    → PassInv seq pass
    → PassInv seq (loop (install_target host now) pass wants)
loop-PassInv seq host now pass [] v = v
loop-PassInv seq host now pass (w ∷ ws) v =
    loop-PassInv seq host now (install_target host now pass w) ws
      (install_target-PassInv seq host now pass w v)

report_all-IsSettled :
    (seq : ℕ) (tss : List Tracked) → All (Numbered seq) tss → All (IsSettled seq) (report_all tss)
unfolding report_all report_idle is_idle
report_all-IsSettled seq [] a = tt
report_all-IsSettled seq (ts ∷ tss) a = (
  elim (Bool-cases (is_idle ts)) [
    | inl idle ↦ rw idle (record { settled = λ _ _. refl; numbered = a.0 })
    | inr busy ↦ rw busy (record { settled = λ e z. ground arith; numbered = a.0 })
  ],
  report_all-IsSettled seq tss a.1,
)

length-report_all : (tss : List Tracked) → length (report_all tss) ≡ length tss
unfolding report_all
length-report_all [] = refl
length-report_all (ts ∷ tss) = ap suc (length-report_all tss)

settle_drain_pos : (wanted option : ℕ) → 0 < settle_drain wanted option
unfolding settle_drain
settle_drain_pos wanted option = ground arith

length-trim_marks :
    (ms : List CountMark)
    → length ms ≤ max_count_marks + 1
    → length (trim_marks ms) ≤ max_count_marks
unfolding trim_marks
length-trim_marks [] h = omega arith
length-trim_marks (m ∷ ms) h = ground arith

trim_marks-le :
    (ms : List CountMark) (m : CountMark)
    → length ms ≤ max_count_marks
    → length (trim_marks (ms ++ m ∷ [])) ≤ max_count_marks
trim_marks-le ms m h = length-trim_marks (ms ++ m ∷ []) (omega (arith, length-append ms (m ∷ [])))

reset_pointer :
    (n next len : ℕ)
    → n ≡ len
    → ((if leb n next then 0 else next) < len) ⊎ ((if leb n next then 0 else next) ≡ 0)
reset_pointer n next len e = ground arith

-- Whatever the pool was with its connections numbered and few marks, an install settles it.
pub install-PoolInv :
    (now incarnations : ℕ) (r : Route) (p : RoutePool)
    → All (Numbered p.seq) p.targets
    → length p.marks ≤ max_count_marks
    → PoolInv (install now incarnations r p).pool
unfolding install snapshot install_pass
install-PoolInv now incarnations r p numbered few =
    let pass = install_pass now incarnations r p in
    let v : PassInv p.seq pass =
      loop-PassInv p.seq (normalize_host r.host) now _ r.targets (record {
        next_numbered = tt;
        old_numbered = by_replica-All (Numbered p.seq) [] p.targets tt numbered;
      }) in
    record {
      each =
          report_all-IsSettled p.seq _
            (sort_tracked-All (Numbered p.seq) pass.next v.next_numbered);
      drain_pos = settle_drain_pos r.drain p.drain_option;
      pointer = reset_pointer _ p.next _ (sym (length-report_all (sort_tracked pass.next)));
      few_marks = trim_marks-le p.marks _ few;
    }
