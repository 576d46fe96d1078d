-- ===== src/Env/Layout/Blocks.antt =====
-- The ports that two environments use (internal/env/views.go, on the blocks of
-- internal/ports/ports.go).
use caramelo.Common.{
  ℕ, Bool, ◌+◌, ◌<◌, ◌≡◌, ◌≢◌, refl, subst, inl, inr, List, [], ◌∷◌, arith, nat_eq, bytes_eq, Bytes,
  ltb, length, All, Any, Bool-cases,
}
use caramelo.Ports.{EnvRow, rows, allocate, block_size, size, end, candidate}
use caramelo.Ports.Disjoint.{Covers, allocate-apart}
use caramelo.Env.Layout.{
  ServicePorts, PortLayout, LayoutResult, laid_out, no_room, Walked, walked, stopped, layout_of,
  layout, at, replica_port, dep_port,
}
use caramelo.Env.Layout.Inv.{FineLayout, layout-FineLayout}
use caramelo.Env.Layout.Apart.{replica_port-Within}

-- A port that an environment with so many dependencies has for one of them, or for a replica.
pub data Uses (ndeps : ℕ) (l : PortLayout) (p : ℕ) : Type 0 where
  dependency : (i : ℕ) → i < ndeps → p ≡ dep_port l.base i → Uses ndeps l p
  replica : (s : Bytes) (r : ℕ) → replica_port l s r ≡ at p → Uses ndeps l p

-- A layout stands on the block it was asked for.
abbrev OnBlock : ℕ → ℕ → LayoutResult → Type 0
OnBlock base count (laid_out l) = (l.base ≡ base) × (l.count ≡ count)
OnBlock base count (no_room e) = Unit

layout_of-OnBlock :
    (base count : ℕ) (deps : List Bytes) (after : ℕ) (w : Walked)
    → OnBlock base count (layout_of base count deps after w)
unfolding layout_of
layout_of-OnBlock base count deps after (stopped e) = tt
layout_of-OnBlock base count deps after (walked w) =
    elim (Bool-cases (ltb count (length deps + 1))) [
      | inl full ↦ rw full tt
      | inr room ↦ rw room (refl, refl)
    ]

layout-OnBlock :
    (base count : ℕ) (deps : List Bytes) (services : List ServicePorts)
    → OnBlock base count (layout base count deps services)
unfolding layout
layout-OnBlock base count deps services = layout_of-OnBlock base count deps _ _

module _ (base count : ℕ) (deps : List Bytes) (services : List ServicePorts) (l : PortLayout)
    (fits : layout base count deps services ≡ laid_out l) where
  Uses-Covers : (p : ℕ) → Uses (length deps) l p → Covers (record { base = base; count = count }) p
  unfolding dep_port end size
  Uses-Covers p (dependency i below e) =
      let on = subst (OnBlock base count) fits (layout-OnBlock base count deps services) in
      let room =
        (subst (FineLayout (length deps)) fits
          (layout-FineLayout base count deps services)).deps_fit in
      (omega (arith, on.0, on.1, room), ground (arith, on.0, on.1, room))
  Uses-Covers p (replica s r e) =
      let on = subst (OnBlock base count) fits (layout-OnBlock base count deps services) in
      let fine =
        subst (FineLayout (length deps)) fits (layout-FineLayout base count deps services) in
      let within = replica_port-Within (length deps) l s r p fine e in
      (omega (arith, on.0, on.1, within.0), ground (arith, on.0, on.1, within.0, within.1))

All-Any {κ} :
    {A : Type 0} (P : A → Type κ) (a : A) (xs : List A) → All P xs → Any (λ x. x ≡ a) xs → P a
All-Any P a [] all any = absurd any
All-Any P a (x ∷ xs) all (inl e) = subst P e all.0
All-Any P a (x ∷ xs) all (inr later) = All-Any P a xs all.1 later

-- An environment is laid out on the block that the allocator hands out for it, and another
-- environment of the store on its own block. Then no port of a replica or a dependency of the one
-- is a port of a replica or a dependency of the other.
pub allocate-Uses :
    (can_bind : ℕ → Bool) (env_id b p : ℕ) (es : List EnvRow) (other : EnvRow)
    (deps their_deps : List Bytes) (services their_services : List ServicePorts)
    (l theirs : PortLayout)
    → (allocate can_bind env_id (rows es)).0 ≡ caramelo.Ports.at b
    → Any (λ e. e ≡ other) es
    → other.id ≢ env_id
    → other.port_base ≢ 0
    → layout b block_size deps services ≡ laid_out l
    → layout other.port_base other.port_count their_deps their_services ≡ laid_out theirs
    → Uses (length deps) l p
    → ¬ Uses (length their_deps) theirs p
allocate-Uses can_bind env_id b p es other deps their_deps services their_services l theirs given
      stored foreign has_block fits they_fit ours their_use =
    All-Any _ other es
      (allocate-apart can_bind env_id b p es given
        (Uses-Covers b block_size deps services l fits p ours))
      stored foreign has_block
      (Uses-Covers other.port_base other.port_count their_deps their_services theirs they_fit p
        their_use)
