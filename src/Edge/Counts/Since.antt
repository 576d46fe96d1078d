-- ===== src/Edge/Counts/Since.antt =====
-- What a pool reports to have counted since a mark (internal/edge/counts.go).
use caramelo.Common.{
  ℕ, ◌+◌, ◌≤◌, ◌≡◌, ◌≢◌, refl, sym, ap, ◌∙◌, subst, Bool, true, false, List, [], ◌∷◌, ◌++◌, map,
  Option, none, some, ◌==◌, nat_eq, arith, if◌then◌else◌, lookup, lookup-insert, All, All-mono,
}
use caramelo.Edge.{Target}
use caramelo.Edge.Routes.Valid.{DistinctReplicas}
use caramelo.Edge.Pool.State.{
  Counter, Tracked, MarkEntry, CountMark, RoutePool, mark_of, per_replica, snapshot, find,
  set_tracked,
}
use caramelo.Edge.Counts.{
  mark_at, count_request, count_unrouted, add_request, plus, target_since, own_since, HostCounts,
  add_targets, counts,
}
use caramelo.Edge.Counts.Parts.{
  Part, Request, answered, turned_away, serve, serve_all, worth_all, requests_part, errors_part,
  failures_part,
}
use caramelo.Edge.Counts.Marks.{mark_at-newest}
use caramelo.Edge.Counts.Grown.{Marked, Grown, amounts, amount, since-Marked, serve_all-Grown}

abbrev pub targets_of : RoutePool → List Target
targets_of p = map (λ (ts : Tracked). ts.t) p.targets

abbrev entry_of : Tracked → MarkEntry
entry_of ts = record { incarnation = ts.incarnation; counted = ts.counted }

-- The entry of a replica that no later target has stays.
lookup-per_replica :
    (i : ℕ) (tss : List Tracked) (m : List (ℕ × MarkEntry))
    → All (λ (t : Target). i ≢ t.replica) (map (λ (ts : Tracked). ts.t) tss)
    → lookup i (per_replica tss m) ≡ lookup i m
unfolding per_replica
lookup-per_replica i [] m h = refl
lookup-per_replica i (ts ∷ tss) m h =
    lookup-per_replica i tss _ h.1
    ∙ lookup-insert ts.t.replica i (entry_of ts) m
    ∙ ap (λ (b : Bool). if b then some (entry_of ts) else lookup i m) (other ts.t.replica i h.0)
  where
    other : (a b : ℕ) → b ≢ a → a == b ≡ false
    other a b h = ground arith

own : (a : ℕ) → a == a ≡ true
own a = ground arith

-- Every target has its entry.
per_replica-entries :
    (tss : List Tracked) (m : List (ℕ × MarkEntry))
    → DistinctReplicas (map (λ (ts : Tracked). ts.t) tss)
    → All (λ (ts : Tracked). lookup ts.t.replica (per_replica tss m) ≡ some (entry_of ts)) tss
unfolding per_replica
per_replica-entries [] m h = tt
per_replica-entries (ts ∷ tss) m h = (
  lookup-per_replica ts.t.replica tss _ h.0
      ∙ lookup-insert ts.t.replica ts.t.replica (entry_of ts) m
      ∙ ap (λ (b : Bool). if b then some (entry_of ts) else lookup ts.t.replica m)
          (own ts.t.replica),
  per_replica-entries tss _ h.1,
)

module _ (f : Part) (m : CountMark) where
  entered-Marked : (ts : Tracked) → lookup ts.t.replica m.per ≡ some (entry_of ts) → Marked f m ts
  entered-Marked ts e = record {
    entry = entry_of ts;
    found = e;
    same = own ts.incarnation;
    below = omega arith;
  }

  amounts-entered :
      (tss : List Tracked)
      → All (λ (ts : Tracked). lookup ts.t.replica m.per ≡ some (entry_of ts)) tss
      → amounts f m tss ≡ 0
  unfolding amounts entered-Marked
  amounts-entered [] h = refl
  amounts-entered (ts ∷ tss) h =
      let first = since-Marked f m ts (entered-Marked ts h.0) in
      let rest = amounts-entered tss h.1 in omega arith

module _ (f : Part) (p : RoutePool) (now : ℕ) (h : DistinctReplicas (targets_of p)) where
  -- At the mark nothing has been counted since.
  snapshot-Grown : Grown f (mark_of now p) (snapshot now p)
  unfolding mark_of snapshot
  snapshot-Grown = record {
    each =
        All-mono (λ ts e. entered-Marked f (mark_of now p) ts e) p.targets
          (per_replica-entries p.targets [] h);
    own = omega arith;
  }

  snapshot-amount : amount f (mark_of now p) (snapshot now p) ≡ 0
  unfolding mark_of snapshot amount own_since
  snapshot-amount =
      let own = f.of_sub p.unrouted p.unrouted in
      let rest = amounts-entered f (mark_of now p) p.targets (per_replica-entries p.targets [] h) in
      omega arith

add_targets-total :
    (f : Part) (m : CountMark) (c : HostCounts) (tss : List Tracked)
    → f.of (add_targets (some m) c tss).total ≡ f.of c.total + amounts f m tss
unfolding add_targets amounts
add_targets-total f m c [] = omega arith
add_targets-total f m c (ts ∷ tss) =
    let rest =
      add_targets-total f m
        (record c {
          targets =
              c.targets
              ++ record { replica = ts.t.replica; counted = target_since (some m) ts } ∷ [];
          total = plus c.total (target_since (some m) ts);
        })
        tss in
    let sum = f.of_plus c.total (target_since (some m) ts) in omega arith

same_counter :
    {a b : Counter}
    → a.requests ≡ b.requests
    → a.status5xx ≡ b.status5xx
    → a.connect_failures ≡ b.connect_failures
    → a ≡ b
same_counter e f g = cc

serve_marks : (q : Request) (p : RoutePool) → (serve q p).marks ≡ p.marks
unfolding count_request count_unrouted
serve_marks (answered replica status failed) p = go (find replica p.targets)
  where
    go :
        (o : Option Tracked)
        → (elim o as (λ x. RoutePool) [
          | none ↦ record p { unrouted = add_request status failed p.unrouted }
          | some ts ↦ record p {
            targets =
                set_tracked replica
                  (record ts { counted = add_request status failed ts.counted })
                  p.targets;
          }
        ]).marks
          ≡ p.marks
    go none = refl
    go (some ts) = refl
serve_marks turned_away p = refl

serve_all_marks : (qs : List Request) (p : RoutePool) → (serve_all qs p).marks ≡ p.marks
serve_all_marks [] p = refl
serve_all_marks (q ∷ qs) p = serve_all_marks qs (serve q p) ∙ serve_marks q p

module _ (p : RoutePool) (now since : ℕ) (qs : List Request)
    (distinct : DistinctReplicas (targets_of p))
    (ordered : All (λ (m : CountMark). m.at ≤ since) p.marks) (late : now ≤ since) where
  served : RoutePool
  served = serve_all qs (snapshot now p)

  total_of : (f : Part) → f.of (counts since served).total ≡ f.of (worth_all qs)
  unfolding counts served amount mark_of snapshot
  total_of f = go (mark_at since served.marks) found
    where
      from_none : {a b : ℕ} → a ≡ 0 → a + b ≡ b
      from_none e = omega arith

      m : CountMark
      m = mark_of now p

      found : mark_at since served.marks ≡ some m
      found =
          ap (mark_at since) (serve_all_marks qs (snapshot now p))
          ∙ mark_at-newest since m p.marks ordered late

      go :
          (o : Option CountMark)
          → o ≡ some m
          → f.of
              (add_targets o
                (record {
                  host = served.host;
                  total = own_since o served.unrouted;
                  targets = [];
                  unrouted = own_since o served.unrouted;
                })
                served.targets).total
            ≡ f.of (worth_all qs)
      go o e =
          let start = snapshot-amount f p now distinct in
          let grown = serve_all-Grown f m qs (snapshot now p) (snapshot-Grown f p now distinct) in
          subst
            (λ o.
              f.of
                (add_targets o
                  (record {
                    host = served.host;
                    total = own_since o served.unrouted;
                    targets = [];
                    unrouted = own_since o served.unrouted;
                  })
                  served.targets).total
              ≡ f.of (worth_all qs))
            (sym e) (add_targets-total f m _ served.targets ∙ grown ∙ from_none start)

  -- A pool whose replicas are distinct, with no mark later than the time asked for, is marked and then
  -- counts some requests, each for a replica or for none. The total that it reports since a time at or
  -- after the mark is exactly what these requests are worth: one request each, an error for a status
  -- from 500 on, a failure for a connection that failed, and an error for one that was turned away.
  pub counts-serve_all : (counts since (serve_all qs (snapshot now p))).total ≡ worth_all qs
  unfolding served requests_part errors_part failures_part
  counts-serve_all =
      same_counter (total_of requests_part) (total_of errors_part) (total_of failures_part)
