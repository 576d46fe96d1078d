-- ===== src/Tests/Vpn.antt =====
-- internal/vpn/addr.go on the subnet 10.86.0.0/16, and internal/fleet/subnet.go.
use caramelo.Common.{
  ℕ, ◌+◌, ◌-◌, ◌*◌, ◌^◌, ◌≤◌, ◌<◌, ◌≡◌, ◌↔◌, refl, List, [], ◌∷◌, Option, none, some, codes, Bytes,
  bytes_beq, ◌==◌, bytes_eq, if◌then◌else◌, arith,
}
use caramelo.Vpn.{
  IpAddr, v4, v6, Prefix, subnet, subnet_ok, subnet_failed, too_small, listed, given, refused,
  not_an_address, is_v4, allocate_peer, allocate_env,
}
use caramelo.Vpn.Scan.{Deals}
use caramelo.Vpn.Free.{InUse, Unreadable, allocate-Deals}
use caramelo.Fleet.Subnet.{parse_subnet, parsed, allocate_subnet}
use caramelo.Fleet.Subnet.Range.{subnet_at, IsFor, DealtOut, allocate_subnet-DealtOut}
use caramelo.Fleet.Subnet.Parse.{parse_subnet_iff}

abbrev ten : ℕ
ten = (10 * 2 ^ 8 + 86) * 2 ^ 16

abbrev hub : Prefix
hub = record { addr = v4 (ten + 7); bits = 16 }

-- It reads two addresses.
parse_two : Bytes → Option IpAddr
parse_two s =
    if s == codes "10.86.0.2"
    then some (v4 (ten + 2))
    else if s == codes "::1"
    then some (v6 s)
    else none

abbrev rows : List Bytes
rows = codes "10.86.0.2" ∷ [] ∷ codes "::1" ∷ []

hub-subnet : subnet (some hub) ≡ subnet_ok ten 16
unfolding subnet
hub-subnet = refl

next_peer : allocate_peer parse_two ten (listed rows) ≡ given (ten + 3)
unfolding allocate_peer parse_two bytes_beq is_v4
next_peer = refl

first_env : allocate_env parse_two ten 16 (listed rows) ≡ given (ten + 257)
unfolding allocate_env parse_two bytes_beq is_v4
first_env = refl

bad_ledger :
    allocate_env parse_two ten 16 (listed (codes "ten" ∷ []))
    ≡ refused (not_an_address (codes "ten"))
unfolding allocate_env parse_two bytes_beq
bad_ledger = refl

too_few : subnet (some (record hub { bits = 24 })) ≡ subnet_failed too_small
unfolding subnet
too_few = refl

allocate-Deals_example :
    (ten + 2 ^ (32 - 16) ≤ 2 ^ 32)
    × Deals
        (InUse parse_two ten rows)
        (Unreadable parse_two rows)
        (ten + 2)
        (ten + 254)
        (allocate_peer parse_two ten (listed rows))
    × Deals
        (InUse parse_two ten rows)
        (Unreadable parse_two rows)
        (ten + 257)
        (ten + (2 ^ (32 - 16) - 2))
        (allocate_env parse_two ten 16 (listed rows))
allocate-Deals_example = allocate-Deals parse_two hub ten 16 rows (omega arith) hub-subnet

abbrev two_taken : List Prefix
two_taken = record { addr = v4 (subnet_at 0 + 9); bits = 16 } ∷ hub ∷ []

second : allocate_subnet two_taken ≡ some (subnet_at 1)
unfolding allocate_subnet
second = refl

allocate_subnet-DealtOut_example : DealtOut two_taken (allocate_subnet two_taken)
allocate_subnet-DealtOut_example = allocate_subnet-DealtOut two_taken

parse_subnet_iff_example :
    (parse_subnet (some hub) ≡ parsed (subnet_at 6))
    ↔ ((i : ℕ) × (i < 16) × (subnet_at 6 ≡ subnet_at i) × IsFor (subnet_at i) hub)
parse_subnet_iff_example = parse_subnet_iff hub (subnet_at 6)
