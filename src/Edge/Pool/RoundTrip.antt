-- ===== src/Edge/Pool/RoundTrip.antt =====
-- A request that begins and ends (internal/edge/pool.go) leaves its pool as it was.
use caramelo.Common.{
  ℕ, suc, ◌≤◌, ◌≡◌, refl, sym, ap, ◌∙◌, inl, inr, true, false, List, [], ◌∷◌, Option, none, some,
  arith, All, Bool-cases, Option-cases, ◌==◌, nat_eq, erase, insert, lookup, Bytes,
}
use caramelo.Edge.{draining, state_eq}
use caramelo.Edge.Pool.State.{Conns, Tracked, RoutePool, find, set_tracked}
use caramelo.Edge.Pool.Requests.{
  ok, begin, end, release, closed, is_open, finishes_drain, write_back,
}
use caramelo.Edge.Pool.Invariant.{IsSettled, PoolInv, All-find}

module _ (seq : ℕ) (c : Option ℕ) where
  erase-insert :
      (cs : Conns) → All (λ d. d.0 ≤ seq) cs → erase (suc seq) (insert (suc seq) c cs) ≡ cs
  unfolding erase insert
  erase-insert [] a = ground arith
  erase-insert ((j, d) ∷ cs) a = ground (arith, erase-insert cs a.1)

  is_open-insert : (cs : Conns) → is_open (suc seq) (insert (suc seq) c cs) ≡ true
  unfolding is_open insert lookup
  is_open-insert [] = ground arith
  is_open-insert ((j, d) ∷ cs) = ground (arith, is_open-insert cs)

find-set_tracked :
    (replica : ℕ) (new ts : Tracked) (tss : List Tracked)
    → new.t.replica ≡ ts.t.replica
    → find replica tss ≡ some ts
    → find replica (set_tracked replica new tss) ≡ some new
unfolding find set_tracked
find-set_tracked replica new ts [] same e = cc
find-set_tracked replica new ts (x ∷ tss) same e = elim (Bool-cases (x.t.replica == replica)) [
  | inl hit ↦ rw hit (
      let here : x ≡ ts = ground arith in
      let same' : new.t.replica ≡ x.t.replica =
        same ∙ ap (λ (y : Tracked). y.t.replica) (sym here) in
      rw (same', hit))
  | inr miss ↦ rw miss (rw miss (find-set_tracked replica new ts tss same (ground arith)))
]

set_tracked-set_tracked :
    (replica : ℕ) (new ts : Tracked) (tss : List Tracked)
    → new.t.replica ≡ ts.t.replica
    → find replica tss ≡ some ts
    → set_tracked replica ts (set_tracked replica new tss) ≡ tss
unfolding find set_tracked
set_tracked-set_tracked replica new ts [] same e = cc
set_tracked-set_tracked replica new ts (x ∷ tss) same e =
    elim (Bool-cases (x.t.replica == replica)) [
      | inl hit ↦ rw hit (
          let here : x ≡ ts = ground arith in
          let same' : new.t.replica ≡ x.t.replica =
            same ∙ ap (λ (y : Tracked). y.t.replica) (sym here) in
          rw (same', hit) (ap (λ y. y ∷ tss) (sym here)))
      | inr miss ↦
          rw miss
            (rw miss (ap (◌∷◌ x) (set_tracked-set_tracked replica new ts tss same (ground arith))))
    ]

abbrev opened : ℕ → Option ℕ → Tracked → Tracked
opened seq c ts = record ts { conns = insert (suc seq) c ts.conns }

settled-finishes_drain : (seq : ℕ) (ts : Tracked) → IsSettled seq ts → finishes_drain ts ≡ false
unfolding finishes_drain
settled-finishes_drain seq ts h = ground (arith, h.settled, state_eq.same_iff ts.t.state draining)

-- A draining target that is settled is not reported a second time.
release-opened :
    (host : Bytes) (now seq : ℕ) (c : Option ℕ) (ts : Tracked)
    → IsSettled seq ts
    → release host (suc seq) now (opened seq c ts) ≡ (ts, [])
unfolding release closed
release-opened host now seq c ts h =
    rw (is_open-insert seq c ts.conns, erase-insert seq c ts.conns h.numbered)
      (rw (settled-finishes_drain seq ts h))

begin-eq-ok :
    (replica : ℕ) (c : Option ℕ) (p q : RoutePool) (id : ℕ)
    → begin replica c p ≡ ok (q, id)
    → (ts : Tracked) × (find replica p.targets ≡ some ts)
      × (id ≡ suc p.seq)
      × (q ≡ record p {
        seq = suc p.seq;
        targets = set_tracked replica (opened p.seq c ts) p.targets;
      })
unfolding begin
begin-eq-ok replica c p q id e = elim (Option-cases (find replica p.targets)) [
  | inl missing ↦ absurd (ground arith)
  | inr (ts, found) ↦ (ts, found, ground arith, ground arith)
]

-- A request that begins and ends leaves its pool as it was but for the number it used, and says
-- nothing, where the pool satisfies its invariant.
pub end-begin :
    (now replica : ℕ) (c : Option ℕ) (p q : RoutePool) (id : ℕ)
    → PoolInv p
    → begin replica c p ≡ ok (q, id)
    → end now replica id q
      ≡ record { pool = record p { seq = suc p.seq }; events = []; draining = none }
unfolding end write_back
end-begin now replica c p q id v e =
    let (ts, found, number, after) = begin-eq-ok replica c p q id e in
    let opened_found = find-set_tracked replica (opened p.seq c ts) ts p.targets refl found in
    let closed_again =
      release-opened p.host now p.seq c ts
        (All-find (IsSettled p.seq) replica p.targets ts v.each found) in
    rw (number, after)
      (rw (opened_found, end)
        (rw closed_again
          (rw (set_tracked-set_tracked replica (opened p.seq c ts) ts p.targets refl found))))
