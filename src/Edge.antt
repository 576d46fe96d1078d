-- ===== src/Edge.antt =====
-- internal/edge/edge.go: the data of the reverse proxy, its routes and their targets, and the
-- events of internal/edge. Numbers that Go keeps in an `int` are natural numbers here, and a time
-- is the number of nanoseconds since Go's zero time, which is 0.
pub mod Broker
pub mod Counts
pub mod Host
pub mod Pool
pub mod Routes
use caramelo.Common.{
  ℕ, ◌≡◌, ◌↔◌, ◌+◌, refl, Bool, true, false, ◌||◌, List, [], ◌∷◌, Option, none, some, arith, Eq,
  ◌==◌, nat_eq, bytes_eq, Bytes, bytes_beq_iff, if◌then◌else◌, find?, any, sum_map,
}

-- `other` is any string that is none of the named states.
pub data TargetState : Type 0 where
  starting active draining stopped unhealthy held : TargetState
  other : Bytes → TargetState

abbrev pub state_tag : TargetState → ℕ
state_tag starting = 0
state_tag active = 1
state_tag draining = 2
state_tag stopped = 3
state_tag unhealthy = 4
state_tag held = 5
state_tag (other s) = 6

abbrev pub state_beq : TargetState → TargetState → Bool
state_beq (other s) (other t) = s == t
state_beq a b = state_tag a == state_tag b

pub state_beq_iff : (a b : TargetState) → (state_beq a b ≡ true) ↔ (a ≡ b)
state_beq_iff (other s) (other t) =
    (λ e. ground (arith, bytes_beq_iff s t), λ e. ground (arith, bytes_beq_iff s t))
state_beq_iff starting b = ground arith
state_beq_iff a b = ground arith

instance abbrev pub state_eq : Eq TargetState
state_eq = record { same = state_beq; same_iff = state_beq_iff }

abbrev pub target_states : List TargetState
target_states = starting ∷ active ∷ draining ∷ stopped ∷ unhealthy ∷ held ∷ []

-- `Routable` and `Valid`.
unfoldable pub routable : TargetState → Bool
routable s = s == active

unfoldable pub valid_state : TargetState → Bool
valid_state s = any (λ k. k == s) target_states

pub record Target : Type 0 where
  pub replica : ℕ
  pub port : ℕ
  pub state : TargetState
  pub inflight : ℕ
  pub since : ℕ
  pub detail : Bytes

pub data Kind : Type 0 where
  https tls tls_passthrough tcp udp via : Kind
  other : Bytes → Kind

abbrev pub kind_tag : Kind → ℕ
kind_tag https = 0
kind_tag tls = 1
kind_tag tls_passthrough = 2
kind_tag tcp = 3
kind_tag udp = 4
kind_tag via = 5
kind_tag (other s) = 6

abbrev pub kind_beq : Kind → Kind → Bool
kind_beq (other s) (other t) = s == t
kind_beq a b = kind_tag a == kind_tag b

pub kind_beq_iff : (a b : Kind) → (kind_beq a b ≡ true) ↔ (a ≡ b)
kind_beq_iff (other s) (other t) =
    (λ e. ground (arith, bytes_beq_iff s t), λ e. ground (arith, bytes_beq_iff s t))
kind_beq_iff https b = ground arith
kind_beq_iff a b = ground arith

instance abbrev pub kind_eq : Eq Kind
kind_eq = record { same = kind_beq; same_iff = kind_beq_iff }

abbrev pub kinds : List Kind
kinds = https ∷ tls ∷ tls_passthrough ∷ tcp ∷ udp ∷ via ∷ []

unfoldable pub known : Kind → Bool
known k = any (λ kk. kk == k) kinds

unfoldable pub supported : Kind → Bool
supported k = k == https || k == via

pub record Route : Type 0 where
  pub host : Bytes
  pub kind : Kind
  pub app : Bytes
  pub env : Bytes
  pub service : Bytes
  pub targets : List Target
  pub via : Bytes
  pub drain : ℕ
  pub created_at : ℕ

-- The methods `Target`, `Active` and `Inflight` of a route.
unfoldable pub route_target : Route → ℕ → Option Target
route_target r replica = find? (λ t. t.replica == replica) r.targets

filter_routable : List Target → List Target
filter_routable [] = []
filter_routable (t ∷ ts) = if routable t.state then t ∷ filter_routable ts else filter_routable ts

unfoldable pub route_active : Route → List Target
unfolding filter_routable
route_active r = filter_routable r.targets

unfoldable pub route_inflight : Route → ℕ
route_inflight r = sum_map (λ t. t.inflight) r.targets

pub record Ingress : Type 0 where
  pub enabled : Bool
  pub port : ℕ
  pub trusted : List Bytes

pub record Table : Type 0 where
  pub routes : List Route
  pub ingress : Option Ingress
  pub updated_at : ℕ

-- What the edge reports: a target that changed, and a target that has drained.
pub data Event : Type 0 where
  target_event : Bytes → Target → ℕ → Event
  drained_event : Bytes → Target → Bool → ℕ → Event
  table_event : ℕ → ℕ → ℕ → Event
