-- ===== src/Env/Layout.antt =====
-- internal/env/views.go: which port of an environment's block goes to what.
pub mod Inv
pub mod Apart
pub mod Blocks
use caramelo.Common.{
  ℕ, zero, suc, ◌+◌, ◌-◌, ◌*◌, Bool, true, false, not, List, [], ◌∷◌, Option, none, some, ◌==◌,
  nat_eq, bytes_eq, Bytes, if◌then◌else◌, ltb, leb, length, insert, lookup,
}

-- What a layout reads of a svcPlan; a port of 0 is none.
pub record ServicePorts : Type 0 where
  pub name : Bytes
  pub portless : Bool
  pub port : ℕ

abbrev pub Ports : Type 0
Ports = List (Bytes × ℕ)

pub record PortLayout : Type 0 where
  pub base : ℕ
  pub count : ℕ
  pub deps : Ports
  pub services : Ports
  pub container_ports : Ports
  pub order : Ports
  pub spare : ℕ
  pub published : ℕ

pub data LayoutError : Type 0 where
  services_do_not_fit : ℕ → ℕ → ℕ → LayoutError
  deps_do_not_fit : ℕ → ℕ → LayoutError

pub data LayoutResult : Type 0 where
  laid_out : PortLayout → LayoutResult
  no_room : LayoutError → LayoutResult

-- depPort of internal/env/names.go.
unfoldable pub dep_port : ℕ → ℕ → ℕ
dep_port base i = base + 1 + i

unfoldable pub dep_ports : ℕ → ℕ → List Bytes → Ports → Ports
unfolding dep_port
dep_ports base i [] seen = seen
dep_ports base i (d ∷ deps) seen = dep_ports base (i + 1) deps (insert d (dep_port base i) seen)

-- The variables of the loop over the services.
pub record Walk : Type 0 where
  pub next : ℕ
  pub services : Ports
  pub container_ports : Ports
  pub order : Ports

-- The first port of the service that is published as the `next`th.
unfoldable pub primary : ℕ → ℕ → ℕ → ℕ
primary base after next = if ltb 0 next then after + next - 1 else base

unfoldable pub place : ℕ → ServicePorts → Walk → Walk
place port s w = record w {
  next = suc w.next;
  services = insert s.name port w.services;
  container_ports = insert s.name (if ltb 0 s.port then s.port else port) w.container_ports;
  order = insert s.name w.next w.order;
}

pub data Walked : Type 0 where
  walked : Walk → Walked
  stopped : LayoutError → Walked

unfoldable pub walk : ℕ → ℕ → ℕ → ℕ → List ServicePorts → Walk → Walked
unfolding place primary
walk base count ndeps after [] w = walked w
walk base count ndeps after (s ∷ ss) w =
    let skip = walk base count ndeps after ss w in
    let port = primary base after w.next in
    let on = walk base count ndeps after ss (place port s w) in
    if s.portless
    then skip
    else if leb (base + count) port
    then stopped (services_do_not_fit ndeps (suc w.next) count)
    else on

-- The test is the source's `len(deps) > count-1`, with the 1 on the other side.
unfoldable pub layout_of : ℕ → ℕ → List Bytes → ℕ → Walked → LayoutResult
unfolding dep_ports
layout_of base count deps after (stopped e) = no_room e
layout_of base count deps after (walked w) =
    if ltb count (length deps + 1)
    then no_room (deps_do_not_fit (length deps) count)
    else laid_out (record {
      base = base;
      count = count;
      deps = dep_ports base 0 deps [];
      services = w.services;
      container_ports = w.container_ports;
      order = w.order;
      spare = after + (w.next - 1);
      published = w.next;
    })

abbrev pub no_services : Walk
no_services = record { next = 0; services = []; container_ports = []; order = [] }

unfoldable pub layout : ℕ → ℕ → List Bytes → List ServicePorts → LayoutResult
unfolding layout_of walk
layout base count deps services =
    let after = base + 1 + length deps in
    layout_of base count deps after (walk base count (length deps) after services no_services)

pub data PortError : Type 0 where
  publishes_no_port : Bytes → PortError
  past_the_block : ℕ → Bytes → ℕ → PortError

pub data ReplicaPort : Type 0 where
  at : ℕ → ReplicaPort
  no_port : PortError → ReplicaPort

-- A missing key reads as 0.
unfoldable pub or_zero : Option ℕ → ℕ
or_zero none = 0
or_zero (some n) = n

unfoldable pub spare_port : PortLayout → Bytes → ℕ → ℕ
unfolding or_zero
spare_port l service replica =
    l.spare + (replica - 2) * l.published + or_zero (lookup service l.order)

unfoldable pub replica_port : PortLayout → Bytes → ℕ → ReplicaPort
unfolding spare_port
replica_port l service replica = elim (lookup service l.services) [
  | none ↦ no_port (publishes_no_port service)
  | some first ↦
      if leb replica 1
      then at first
      else if leb (l.base + l.count) (spare_port l service replica)
      then no_port (past_the_block replica service (spare_port l service replica))
      else at (spare_port l service replica)
]

unfoldable pub fits : PortLayout → Bytes → ℕ → Option PortError
unfolding replica_port
fits l service want = elim (replica_port l service want) [ at p ↦ none | no_port e ↦ some e ]
