-- ===== src/Env/Layout/Apart.antt =====
-- No two uses of an environment's block share a port (internal/env/views.go).
use caramelo.Common.{
  ℕ, ◌+◌, ◌-◌, ◌*◌, ◌≤◌, ◌<◌, ◌≡◌, ◌≢◌, subst, sym, ap, ◌∙◌, inl, inr, List, none, some, arith,
  nat_eq, bytes_eq, Bytes, if◌then◌else◌, leb, length, lookup, Option-cases,
}
use caramelo.Env.Layout.{
  ServicePorts, PortLayout, laid_out, primary, layout, at, or_zero, spare_port, replica_port,
  dep_port,
}
use caramelo.Env.Layout.Inv.{LaidOut, FineLayout, layout-FineLayout}

-- Two numerals with one digit each below the base p.
digits_apart : (a b c d p : ℕ) → a < b → c < p → a * p + c < b * p + d
digits_apart a b c d p lt hc =
    let more : (a + 1) * p ≤ b * p = grind arith in
    let split : (a + 1) * p ≡ a * p + p = grind arith in omega arith

digits_unique : (a b c d p : ℕ) → c < p → d < p → a * p + c ≡ b * p + d → (a ≡ b) × (c ≡ d)
digits_unique a b c d p hc hd e = ground (arith, digits_apart a b c d p, digits_apart b a d c p)

-- A replica's port in terms of its service's rank.
rank_port : ℕ → PortLayout → ℕ → ℕ → ℕ
rank_port ndeps l k replica =
    if leb replica 1
    then primary l.base (l.base + 1 + ndeps) k
    else l.spare + (replica - 2) * l.published + k

record Ranked (ndeps : ℕ) (l : PortLayout) (s : Bytes) (replica p : ℕ) : Type 0 where
  rank : ℕ
  has_rank : lookup s l.order ≡ some rank
  is_port : p ≡ rank_port ndeps l rank replica
  in_block : p < l.base + l.count
  below_published : rank < l.published

unpublished :
    (l : PortLayout) (s : Bytes) (replica p : ℕ)
    → lookup s l.services ≡ none
    → replica_port l s replica ≢ at p
unfolding replica_port
unpublished l s replica p none_there e = ground (arith, none_there, e)

replica_port-Ranked :
    (ndeps : ℕ) (l : PortLayout) (s : Bytes) (replica p : ℕ)
    → LaidOut ndeps l
    → replica_port l s replica ≡ at p
    → Ranked ndeps l s replica p
unfolding replica_port rank_port spare_port or_zero
replica_port-Ranked ndeps l s replica p fine e = elim (Option-cases (lookup s l.order)) [
  | inl missing ↦ absurd (unpublished l s replica p (fine.inv.ranked s missing) e)
  | inr (k, known) ↦ record {
    rank = k;
    has_rank = known;
    is_port = ground (arith, known, fine.inv.first_port s k, e);
    in_block = ground (arith, known, fine.inv.first_port s k, e);
    below_published = fine.inv.below_next s k known;
  }
]

rank_port_unique :
    (ndeps : ℕ) (l : PortLayout) (j k r q : ℕ)
    → l.spare ≡ l.base + 1 + ndeps + (l.published - 1)
    → j < l.published
    → k < l.published
    → 1 ≤ r
    → 1 ≤ q
    → rank_port ndeps l j r ≡ rank_port ndeps l k q
    → (j ≡ k) × (r ≡ q)
unfolding rank_port primary
rank_port_unique ndeps l j k r q spare hj hk hr hq e =
    ground (arith, digits_unique (r - 2) (q - 2) j k l.published)

-- In a layout that fits its block, no two replicas have one port: a replica is numbered from 1, and
-- replicas of one service or of two that have the same port are the same replica of the same service.
pub replica_port-apart :
    (base count : ℕ) (deps : List Bytes) (services : List ServicePorts) (s t : Bytes) (r q p : ℕ)
    (l : PortLayout)
    → layout base count deps services ≡ laid_out l
    → 1 ≤ r
    → 1 ≤ q
    → replica_port l s r ≡ at p
    → replica_port l t q ≡ at p
    → (s ≡ t) × (r ≡ q)
replica_port-apart base count deps services s t r q p l fits hr hq e f =
    let n = length deps in
    let fine = subst (FineLayout n) fits (layout-FineLayout base count deps services) in
    let a = replica_port-Ranked n l s r p fine e in
    let b = replica_port-Ranked n l t q p fine f in
    let (same_rank, same_replica) =
      rank_port_unique n l a.rank b.rank r q fine.same_spare a.below_published b.below_published hr
        hq (sym a.is_port ∙ b.is_port) in
    (fine.inv.own_rank s t a.rank a.has_rank (b.has_rank ∙ ap some (sym same_rank)), same_replica)

pub replica_port-Within :
    (ndeps : ℕ) (l : PortLayout) (s : Bytes) (r p : ℕ)
    → LaidOut ndeps l
    → replica_port l s r ≡ at p
    → (l.base ≤ p) × (p < l.base + l.count)
unfolding rank_port primary
replica_port-Within ndeps l s r p fine e =
    let a = replica_port-Ranked ndeps l s r p fine e in
    let port = a.is_port in let spare = fine.same_spare in (ground (arith, port, spare), a.in_block)

-- In a layout that fits its block, every replica's port lies in the block, the ports of the
-- dependencies end within it, and a replica's port is no dependency's.
pub replica_port-InBlock :
    (base count : ℕ) (deps : List Bytes) (services : List ServicePorts) (s : Bytes) (r p : ℕ)
    (l : PortLayout)
    → layout base count deps services ≡ laid_out l
    → replica_port l s r ≡ at p
    → (l.base ≤ p)
      × (p < l.base + l.count)
      × (dep_port l.base (length deps) ≤ l.base + l.count)
      × ¬ ((i : ℕ) × (i < length deps) × (p ≡ dep_port l.base i))
unfolding dep_port rank_port primary
replica_port-InBlock base count deps services s r p l fits e =
    let n = length deps in
    let fine = subst (FineLayout n) fits (layout-FineLayout base count deps services) in
    let within = replica_port-Within n l s r p fine e in
    let port = (replica_port-Ranked n l s r p fine e).is_port in
    let spare = fine.same_spare in
    let room = fine.deps_fit in
    (
      within.0,
      within.1,
      omega (arith, room),
      λ (i, below, same). ground (arith, port, spare, same, below),
    )
