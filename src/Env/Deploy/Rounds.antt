-- ===== src/Env/Deploy/Rounds.antt =====
-- What one round of a watch can come to (internal/env/deploy_watch.go).
use caramelo.Common.{
  ℕ, ◌+◌, ◌*◌, ◌≤◌, ◌≡◌, ◌≢◌, refl, sym, ap, ◌∙◌, inl, inr, Bool, true, false, ◌||◌, List, Option,
  none, some, ◌==◌, nat_eq, arith, if◌then◌else◌, Bool-cases,
}
use caramelo.Edge.Counts.{HostCounts}
use caramelo.Env.Deploy.{Reason, too_many_errors, DeployRun}
use caramelo.Env.Deploy.Watch.{
  Policy, watch_window, Round, count_since, count_from, seen_by, counted, poll, breached,
  unhealthy_pools, has_passed, is_over, Verdict, rolls_back, judge,
}

-- From when a run counts.
abbrev pub begin : DeployRun → ℕ
begin r = if r.counted_from == 0 then r.flipped_at else r.counted_from

-- It never counts from before the switch.
abbrev pub Bounded : DeployRun → Type 0
Bounded r = r.flipped_at ≤ begin r

-- A later state of the same watch.
pub record Later (r r' : DeployRun) : Type 0 where
  pub from : ℕ
  pub detached : Bool
  pub same : r' ≡ record r { counted_from = from; detached = detached }
  pub bounded : Bounded r'

pub Later-refl : (r : DeployRun) → Bounded r → Later r r
Later-refl r b = record { from = r.counted_from; detached = r.detached; same = refl; bounded = b }

pub Later-trans : (r s t : DeployRun) → Later r s → Later s t → Later r t
Later-trans r s t a b = record {
  from = b.from;
  detached = b.detached;
  same =
      b.same
      ∙ ap (λ (u : DeployRun). record u { counted_from = b.from; detached = b.detached }) a.same;
  bounded = b.bounded;
}

pub detach-Later : (r : DeployRun) → Bounded r → Later r (record r { detached = true })
detach-Later r b = record { from = r.counted_from; detached = true; same = refl; bounded = b }

count_since-le : (now since from : ℕ) → from ≤ count_since now since from
unfolding count_since
count_since-le now since from = ground arith

begin-le : (f b x : ℕ) → f ≤ b → b ≤ x → f ≤ (if x == 0 then f else x)
begin-le f b x h k = ground arith

count_from-Later : (now since : ℕ) (r : DeployRun) → Bounded r → Later r (count_from now since r)
unfolding count_from
count_from-Later now since r b = record {
  from = count_since now since (begin r);
  detached = r.detached;
  same = refl;
  bounded =
      begin-le r.flipped_at (begin r) (count_since now since (begin r)) b
        (count_since-le now since (begin r));
}

pub poll-Later : (l : Round) (r : DeployRun) → Bounded r → Later r (poll l r)
unfolding poll
poll-Later l r b = go (seen_by r.has_edge l)
  where
    go :
        (o : Option (ℕ × List HostCounts))
        → Later r (elim o [ none ↦ r | some (since, hs) ↦ count_from l.count_now since r ])
    go none = Later-refl r b
    go (some (since, hs)) = count_from-Later l.count_now since r b

-- A round that finds nothing wrong.
abbrev pub Well : Policy → DeployRun → Round → Type 0
Well p r l = (breached p (counted r l) ≡ false) × (unhealthy_pools l.inspect r.pools ≡ none)

pub counted-Later : (r s : DeployRun) (l : Round) → Later r s → counted s l ≡ counted r l
unfolding counted
counted-Later r s l a = ap (λ u. counted u l) a.same

pub pools-Later : (r s : DeployRun) → Later r s → s.pools ≡ r.pools
pools-Later r s a = ap (λ (u : DeployRun). u.pools) a.same

pub Well-Later : (p : Policy) (r s : DeployRun) (l : Round) → Later r s → Well p s l → Well p r l
Well-Later p r s l a w = (
  ap (breached p) (sym (counted-Later r s l a)) ∙ w.0,
  ap (unhealthy_pools l.inspect) (sym (pools-Later r s a)) ∙ w.1,
)

-- A judgement finds too many errors, a replica that is down, or nothing wrong.
pub judge-elim :
    (P : Verdict → Type 0) (p : Policy) (l : Round) (r : DeployRun) (next : Verdict)
    → (breached p (counted r l) ≡ true
        → P (rolls_back (too_many_errors (counted r l).1 (counted r l).0) r))
    → ((why : Reason) → unhealthy_pools l.inspect r.pools ≡ some why → P (rolls_back why r))
    → (Well p r l → P next)
    → P (judge p l r next)
unfolding judge
judge-elim P p l r next errors down well =
    go (breached p (counted r l)) (unhealthy_pools l.inspect r.pools) refl refl
  where
    go :
        (b : Bool) (o : Option Reason)
        → breached p (counted r l) ≡ b
        → unhealthy_pools l.inspect r.pools ≡ o
        → P (
            if b
            then rolls_back (too_many_errors (counted r l).1 (counted r l).0) r
            else elim o [ some why ↦ rolls_back why r | none ↦ next ])
    go true o e f = errors e
    go false none e f = well (e, f)
    go false (some why) e f = down why f

has_passed-le : (d from now : ℕ) → from ≢ 0 → has_passed d from now ≡ true → from + d ≤ now
unfolding has_passed
has_passed-le d from now h e = ground arith

starts_late : (f c : ℕ) → f ≢ 0 → f ≤ c → c ≢ 0
starts_late f c h k e = h (omega arith)

from_le : (f c w d now : ℕ) → f ≤ c → w ≤ d → c + d ≤ now → f + w ≤ now
from_le f c w d now h k l = omega arith

or_second : (a : Bool) {b : Bool} → a ≡ false → a || b ≡ true → b ≡ true
or_second a h e = ground arith

either_late :
    (w f c now : ℕ)
    → f ≢ 0
    → f ≤ c
    → has_passed w c now || has_passed (2 * w) f now ≡ true
    → f + w ≤ now
either_late w f c now h k e = elim (Bool-cases (has_passed w c now)) [
  | inl passed ↦
      from_le f c w w now k (omega arith) (has_passed-le w c now (starts_late f c h k) passed)
  | inr not_yet ↦
      from_le f f w (2 * w) now (omega arith) (omega arith)
        (has_passed-le (2 * w) f now h (or_second (has_passed w c now) not_yet e))
]

-- Once a watch is over, the window has passed since the switch.
pub is_over-le :
    (p : Policy) (now : ℕ) (r : DeployRun)
    → r.flipped_at ≢ 0
    → Bounded r
    → is_over p now r ≡ true
    → r.flipped_at + watch_window p ≤ now
unfolding is_over
is_over-le p now r h b e = either_late (watch_window p) r.flipped_at (begin r) now h b e

has_passed_late : (d from now : ℕ) → from ≢ 0 → from + d ≤ now → has_passed d from now ≡ true
unfolding has_passed
has_passed_late d from now h e = ground arith

or_late : (a : Bool) {b : Bool} → b ≡ true → a || b ≡ true
or_late true e = refl
or_late false e = e

pub is_over-late :
    (p : Policy) (now : ℕ) (r : DeployRun)
    → r.flipped_at ≢ 0
    → r.flipped_at + 2 * watch_window p ≤ now
    → is_over p now r ≡ true
unfolding is_over
is_over-late p now r h late =
    or_late (has_passed (watch_window p) (begin r) now)
      (has_passed_late (2 * watch_window p) r.flipped_at now h late)
