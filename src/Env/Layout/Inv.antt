-- ===== src/Env/Layout/Inv.antt =====
-- What the loop of `layout` keeps (internal/env/views.go).
use caramelo.Common.{
  ℕ, ◌+◌, ◌-◌, ◌≤◌, ◌<◌, ◌≡◌, refl, inl, inr, List, [], ◌∷◌, none, some, arith, nat_eq, bytes_eq,
  Bytes, ltb, leb, length, lookup, lookup-insert, Bool-cases,
}
use caramelo.Env.Layout.{
  ServicePorts, PortLayout, LayoutResult, laid_out, no_room, Walk, Walked, walked, stopped, walk,
  place, primary, layout_of, no_services, layout,
}

-- The services that have been placed have each a rank of its own below `next`, and the port of that
-- rank, which lies in the block.
pub record WalkInv (base count after : ℕ) (w : Walk) : Type 0 where
  pub below_next : (s : Bytes) (k : ℕ) → lookup s w.order ≡ some k → k < w.next
  pub first_port :
      (s : Bytes) (k : ℕ)
      → lookup s w.order ≡ some k
      → (lookup s w.services ≡ some (primary base after k)) × (primary base after k < base + count)
  pub ranked : (s : Bytes) → lookup s w.order ≡ none → lookup s w.services ≡ none
  pub own_rank :
      (s t : Bytes) (k : ℕ) → lookup s w.order ≡ some k → lookup t w.order ≡ some k → s ≡ t

place-WalkInv :
    {base count after : ℕ} (s : ServicePorts) (w : Walk)
    → WalkInv base count after w
    → primary base after w.next < base + count
    → WalkInv base count after (place (primary base after w.next) s w)
unfolding place
place-WalkInv {base} {count} {after} s w inv room = record {
  below_next = λ t k e. ground (arith, lookup-insert s.name t w.next w.order, inv.below_next t k);
  first_port = λ t k e. ground (
    arith,
    lookup-insert s.name t w.next w.order,
    lookup-insert s.name t (primary base after w.next) w.services,
    inv.first_port t k,
  );
  ranked = λ t e. ground (
    arith,
    lookup-insert s.name t w.next w.order,
    lookup-insert s.name t (primary base after w.next) w.services,
    inv.ranked t,
  );
  own_rank = λ t u k e f. ground (
    arith,
    lookup-insert s.name t w.next w.order,
    lookup-insert s.name u w.next w.order,
    bytes_eq.same_iff s.name t,
    bytes_eq.same_iff s.name u,
    inv.below_next t k,
    inv.below_next u k,
    inv.own_rank t u k,
  );
}

abbrev WalkedInv : ℕ → ℕ → ℕ → Walked → Type 0
WalkedInv base count after (walked w) = WalkInv base count after w
WalkedInv base count after (stopped e) = Unit

walk-WalkInv :
    (base count after ndeps : ℕ) (ss : List ServicePorts) (w : Walk)
    → WalkInv base count after w
    → WalkedInv base count after (walk base count ndeps after ss w)
unfolding walk
walk-WalkInv base count after ndeps [] w inv = inv
walk-WalkInv base count after ndeps (s ∷ ss) w inv =
    let port = primary base after w.next in
    elim (Bool-cases s.portless) [
      | inl portless ↦ rw portless (walk-WalkInv base count after ndeps ss w inv)
      | inr has_port ↦ elim (Bool-cases (leb (base + count) port)) [
        | inl full ↦ rw (has_port, full) tt
        | inr room ↦
            rw (has_port, room)
              (walk-WalkInv base count after ndeps ss (place port s w)
                (place-WalkInv s w inv (ground arith)))
      ]
    ]

-- What a layout gives: the walk's invariant, and room for the dependencies.
abbrev pub walk_of : PortLayout → Walk
walk_of l = record {
  next = l.published;
  services = l.services;
  container_ports = l.container_ports;
  order = l.order;
}

pub record LaidOut (ndeps : ℕ) (l : PortLayout) : Type 0 where
  pub inv : WalkInv l.base l.count (l.base + 1 + ndeps) (walk_of l)
  pub same_spare : l.spare ≡ l.base + 1 + ndeps + (l.published - 1)
  pub deps_fit : ndeps + 1 ≤ l.count

no_services-WalkInv : (base count after : ℕ) → WalkInv base count after no_services
unfolding lookup
no_services-WalkInv base count after = record {
  below_next = λ s k e. cc;
  first_port = λ s k e. ground (arith, e);
  ranked = λ s e. refl;
  own_rank = λ s t k e f. ground (arith, e);
}

abbrev pub FineLayout : ℕ → LayoutResult → Type 0
FineLayout ndeps (laid_out l) = LaidOut ndeps l
FineLayout ndeps (no_room e) = Unit

layout_of-FineLayout :
    (base count : ℕ) (deps : List Bytes) (w : Walked)
    → WalkedInv base count (base + 1 + length deps) w
    → FineLayout (length deps) (layout_of base count deps (base + 1 + length deps) w)
unfolding layout_of
layout_of-FineLayout base count deps (stopped e) inv = tt
layout_of-FineLayout base count deps (walked w) inv =
    elim (Bool-cases (ltb count (length deps + 1))) [
      | inl full ↦ rw full tt
      | inr room ↦ rw room (record { inv = inv; same_spare = refl; deps_fit = ground arith })
    ]

pub layout-FineLayout :
    (base count : ℕ) (deps : List Bytes) (services : List ServicePorts)
    → FineLayout (length deps) (layout base count deps services)
unfolding layout
layout-FineLayout base count deps services =
    let after = base + 1 + length deps in
    layout_of-FineLayout base count deps (walk base count (length deps) after services no_services)
      (walk-WalkInv base count after (length deps) services no_services
        (no_services-WalkInv base count after))
