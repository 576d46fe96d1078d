-- ===== src/Fleet/Subnet.antt =====
-- internal/fleet/subnet.go: the /16 subnets of the fleet's range. An IPv4 address is the 32-bit
-- number of its bytes; a Go map of prefixes is a list of them.
pub mod Range
pub mod Parse
use caramelo.Common.{
  ℕ, zero, suc, ◌+◌, ◌-◌, ◌*◌, ◌/◌, ◌%◌, ◌^◌, Bool, true, false, not, ◌&&◌, List, [], ◌∷◌, Option,
  none, some, ◌==◌, nat_eq, bytes_eq, Bytes, if◌then◌else◌, any, find?,
}
use caramelo.Vpn.{IpAddr, v4, v6, Prefix, masked}

abbrev pub subnet_bits : ℕ
subnet_bits = 16

-- 10.80.0.0/12.
abbrev pub fleet_range : ℕ
fleet_range = (10 * 2 ^ 8 + 80) * 2 ^ 16

abbrev pub range_bits : ℕ
range_bits = 12

abbrev pub subnet_count : ℕ
subnet_count = 2 ^ (subnet_bits - range_bits)

-- The loop of `Subnets`; the second byte of the range's address has the index added to it.
unfoldable pub subnets_from : ℕ → ℕ → List ℕ
subnets_from zero i = []
subnets_from (suc n) i = (10 * 2 ^ 8 + (80 + i) % 2 ^ 8) * 2 ^ 16 ∷ subnets_from n (suc i)

-- Each by its first address.
unfoldable pub subnets : List ℕ
unfolding subnets_from
subnets = subnets_from subnet_count 0

-- `Contains` of a valid prefix; one within the range overlaps it.
unfoldable pub contains : Prefix → Bool
unfolding masked
contains p = elim p.addr [
  | v6 text ↦ false
  | v4 a ↦
      p.bits == subnet_bits
      && masked a p.bits / 2 ^ (32 - range_bits) == fleet_range / 2 ^ (32 - range_bits)
]

pub data ParsedSubnet : Type 0 where
  parsed : ℕ → ParsedSubnet
  no_prefix outside : ParsedSubnet

-- `ParseSubnet` of what netip reads.
unfoldable pub parse_subnet : Option Prefix → ParsedSubnet
unfolding contains masked
parse_subnet none = no_prefix
parse_subnet (some p) = elim p.addr [
  | v6 text ↦ outside
  | v4 a ↦
      let m = masked a p.bits in
      if contains (record { addr = v4 m; bits = p.bits }) then parsed m else outside
]

-- Whether the prefix, masked, is the subnet.
unfoldable pub is_subnet : ℕ → Prefix → Bool
unfolding masked
is_subnet s p = elim p.addr [
  | v6 text ↦ false
  | v4 a ↦ p.bits == subnet_bits && masked a p.bits == s
]

-- `AllocateSubnet` with the valid ones of the prefixes; `none` is ErrNoSubnet.
unfoldable pub allocate_subnet : List Prefix → Option ℕ
unfolding subnets is_subnet
allocate_subnet taken = find? (λ s. not (any (is_subnet s) taken)) subnets
