-- ===== src/Edge/Counts/Grown.antt =====
-- How the counts since a mark grow with each request (internal/edge/counts.go).
use caramelo.Common.{
  ℕ, ◌+◌, ◌-◌, ◌≤◌, ◌≡◌, refl, sym, ap, ◌∙◌, subst, Bool, true, false, List, [], ◌∷◌, Option, none,
  some, ◌==◌, nat_eq, arith, if◌then◌else◌, lookup, All, find?,
}
use caramelo.Edge.Pool.State.{
  Counter, Tracked, MarkEntry, CountMark, RoutePool, no_counts, find, set_tracked,
}
use caramelo.Edge.Counts.{
  count_request, count_unrouted, add_request, sub, since_entry, target_since, own_since,
}
use caramelo.Edge.Counts.Parts.{
  Part, Request, answered, turned_away, serve, serve_all, worth, worth_all, worth_all-plus,
  worth-add_request,
}

module _ (f : Part) (m : CountMark) where
  -- The mark has the target, with no more than it has counted.
  pub record Marked (ts : Tracked) : Type 0 where
    pub entry : MarkEntry
    pub found : lookup ts.t.replica m.per ≡ some entry
    pub same : entry.incarnation == ts.incarnation ≡ true
    pub below : f.of entry.counted ≤ f.of ts.counted

  pub record Grown (p : RoutePool) : Type 0 where
    pub each : All Marked p.targets
    pub own : f.of m.unrouted ≤ f.of p.unrouted

  unfoldable pub amounts : List Tracked → ℕ
  amounts [] = 0
  amounts (ts ∷ tss) = f.of (target_since (some m) ts) + amounts tss

  unfoldable pub amount : RoutePool → ℕ
  unfolding amounts
  amount p = f.of (own_since (some m) p.unrouted) + amounts p.targets

  pub since-Marked :
      (ts : Tracked) (k : Marked ts)
      → f.of (target_since (some m) ts) ≡ f.of ts.counted - f.of k.entry.counted
  unfolding target_since since_entry
  since-Marked ts k =
      ap (λ (o : Option MarkEntry). f.of (since_entry ts.incarnation o ts.counted)) k.found
      ∙ ap (λ (b : Bool). f.of (if b then sub ts.counted k.entry.counted else ts.counted)) k.same
      ∙ f.of_sub ts.counted k.entry.counted

  grow : (b a e c : ℕ) → e ≤ b → a ≡ b + c → a - e ≡ (b - e) + c
  grow b a e c h k = omega arith

  own_paid :
      (c : ℕ) (before after : Counter)
      → f.of m.unrouted ≤ f.of before
      → f.of after ≡ f.of before + c
      → (f.of m.unrouted ≤ f.of after)
        × (f.of (own_since (some m) after) ≡ f.of (own_since (some m) before) + c)
  unfolding own_since
  own_paid c before after h e = (
    omega arith,
    f.of_sub after m.unrouted
        ∙ grow (f.of before) _ (f.of m.unrouted) c h e
        ∙ ap (λ n. n + c) (sym (f.of_sub before m.unrouted)),
  )

  -- The target once it has counted one more request.
  abbrev bump : ℕ → Bool → Tracked → Tracked
  bump status failed ts = record ts { counted = add_request status failed ts.counted }

  module _ (status : ℕ) (failed : Bool) where
    abbrev cost : ℕ
    cost = f.of (add_request status failed no_counts)

    bump-Marked : (ts : Tracked) → Marked ts → Marked (bump status failed ts)
    bump-Marked ts k =
        let added = f.of_add status failed ts.counted in
        let below = k.below in
        record { entry = k.entry; found = k.found; same = k.same; below = omega arith }

    bump-since :
        (ts : Tracked)
        → Marked ts
        → f.of (target_since (some m) (bump status failed ts))
          ≡ f.of (target_since (some m) ts) + cost
    unfolding bump-Marked
    bump-since ts k =
        since-Marked (bump status failed ts) (bump-Marked ts k)
        ∙ grow (f.of ts.counted) _ (f.of k.entry.counted) cost k.below
            (f.of_add status failed ts.counted)
        ∙ ap (λ n. n + cost) (sym (since-Marked ts k))

    -- One request has been counted on the way from some targets to others.
    abbrev Paid : List Tracked → List Tracked → Type 0
    Paid tss tss' = All Marked tss' × (amounts tss' ≡ amounts tss + cost)

    set-Paid :
        (replica : ℕ) (tss : List Tracked) (ts : Tracked)
        → All Marked tss
        → find replica tss ≡ some ts
        → Paid tss (set_tracked replica (bump status failed ts) tss)
    unfolding find set_tracked amounts
    set-Paid replica [] ts h e = cc
    set-Paid replica (u ∷ tss) ts h e =
        go (u.t.replica == replica) e (λ g. set-Paid replica tss ts h.1 g)
      where
        go :
            (b : Bool)
            → (if b then some u else find? (λ (x : Tracked). x.t.replica == replica) tss) ≡ some ts
            → (find replica tss ≡ some ts
                → Paid tss (set_tracked replica (bump status failed ts) tss))
            → Paid (u ∷ tss) (
                if b
                then bump status failed ts ∷ tss
                else u ∷ set_tracked replica (bump status failed ts) tss)
        go true g rest =
            let same : u ≡ ts = cc in
            let more = bump-since u h.0 in
            subst (λ t. Paid (u ∷ tss) (bump status failed t ∷ tss)) same
              ((bump-Marked u h.0, h.1), omega arith)
        go false g rest = let later = rest g in let more = later.1 in ((h.0, later.0), omega arith)

    count_request-Grown :
        (replica : ℕ) (p : RoutePool)
        → Grown p
        → Grown (count_request replica status failed p)
          × (amount (count_request replica status failed p) ≡ amount p + cost)
    unfolding count_request amount
    count_request-Grown replica p g = go (find replica p.targets) refl
      where
        go :
            (o : Option Tracked)
            → find replica p.targets ≡ o
            → Grown (elim o [
              | none ↦ record p { unrouted = add_request status failed p.unrouted }
              | some ts ↦ record p {
                targets = set_tracked replica (bump status failed ts) p.targets;
              }
            ])
              × (amount (elim o [
                | none ↦ record p { unrouted = add_request status failed p.unrouted }
                | some ts ↦ record p {
                  targets = set_tracked replica (bump status failed ts) p.targets;
                }
              ])
                  ≡ amount p + cost)
        go none e =
            let paid = own_paid cost p.unrouted _ g.own (f.of_add status failed p.unrouted) in
            let more = paid.1 in (record { each = g.each; own = paid.0 }, omega arith)
        go (some ts) e =
            let paid = set-Paid replica p.targets ts g.each e in
            let more = paid.1 in (record { each = paid.0; own = g.own }, omega arith)

  serve-Grown :
      (q : Request) (p : RoutePool)
      → Grown p
      → Grown (serve q p) × (amount (serve q p) ≡ amount p + f.of (worth q))
  unfolding count_unrouted amount
  serve-Grown (answered replica status failed) p g =
      let grown = count_request-Grown status failed replica p g in
      (grown.0, grown.1 ∙ ap (λ c. amount p + f.of c) (worth-add_request replica status failed))
  serve-Grown turned_away p g =
      let paid = own_paid (f.of (worth turned_away)) p.unrouted _ g.own (f.of_away p.unrouted) in
      let more = paid.1 in (record { each = g.each; own = paid.0 }, omega arith)

  pub serve_all-Grown :
      (qs : List Request) (p : RoutePool)
      → Grown p
      → amount (serve_all qs p) ≡ amount p + f.of (worth_all qs)
  serve_all-Grown [] p g = let zero_worth = f.of_none in omega arith
  serve_all-Grown (q ∷ qs) p g =
      let one = serve-Grown q p g in
      let more = one.1 in
      let rest = serve_all-Grown qs (serve q p) one.0 in
      let sum = ap f.of (worth_all-plus q qs) ∙ f.of_plus (worth q) (worth_all qs) in omega arith
