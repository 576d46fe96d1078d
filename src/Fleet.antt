-- ===== src/Fleet.antt =====
-- Machines, what is asked of them, and what a choice comes to: internal/fleet/machine.go and
-- placement.go. Memory is a number of bytes that is 0 or above.
pub mod Subnet
pub mod Token
pub mod Choose
use caramelo.Common.{
  ℕ, zero, suc, ◌-◌, ◌*◌, ◌≡◌, refl, Bool, true, false, not, List, [], ◌∷◌, Option, none, some,
  ◌==◌, nat_eq, Bytes, if◌then◌else◌, leb,
}

-- A Role is a string; `other_role` is one that Roles does not list.
pub data Role : Type 0 where
  unset_role role_hub role_member : Role
  other_role : Bytes → Role

unfoldable pub is_hub : Role → Bool
is_hub unset_role = true
is_hub role_hub = true
is_hub role_member = false
is_hub (other_role s) = false

-- The two figures of a gauge that placement reads: Memory.AvailableBytes and Reserved.MemoryBytes.
pub record Gauge : Type 0 where
  pub available_bytes : ℕ
  pub reserved_bytes : ℕ

pub record Machine : Type 0 where
  pub name : Bytes
  pub role : Role
  pub arch : Bytes
  pub last_seen : ℕ
  pub envs : ℕ

-- 100 seconds, in nanoseconds.
abbrev pub unreachable_after : ℕ
unreachable_after = 100 * 1_000_000_000

unfoldable pub reachable : ℕ → Machine → Bool
unfolding is_hub
reachable now m =
    if is_hub m.role
    then true
    else if m.last_seen == 0
    then false
    else leb (now - m.last_seen) unreachable_after

pub record Candidate : Type 0 where
  pub machine : Machine
  pub gauge : Option Gauge
  pub committed : ℕ

-- Subtraction stops at 0, as the source's test of `free < 0` has it.
unfoldable pub free : Candidate → ℕ × Bool
free c = elim c.gauge [
  | none ↦ (0, false)
  | some g ↦ (g.available_bytes - g.reserved_bytes - c.committed, true)
]

pub record Demand : Type 0 where
  pub app : Bytes
  pub env : Bytes
  pub memory_bytes : ℕ
  pub arch : Bytes

pub data Placement : Type 0 where
  placement_auto placement_hub : Placement

pub record Preference : Type 0 where
  pub pin : Bytes
  pub pinned_by_file : Bool
  pub placement : Placement

-- Why a machine is passed over, with what the message prints.
pub data Reason : Type 0 where
  no_name : Reason
  never_heard_from : Reason
  last_seen_ago : ℕ → Reason
  wrong_arch : Bytes → Bytes → Reason
  arch_not_said : Bytes → Reason
  not_gauged : Reason
  too_small : ℕ → ℕ → Reason
  no_memory_free : Reason

pub record Consideration : Type 0 where
  pub machine : Bytes
  pub free_bytes : ℕ
  pub envs : ℕ
  pub fits : Bool
  pub reason : Option Reason
