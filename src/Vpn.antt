-- ===== src/Vpn.antt =====
-- internal/vpn/addr.go: the addresses of the machine, its peers and its environments. An IPv4 address
-- is the 32-bit number of its bytes, on which Go's uint32 wraps around; of an IPv6 address only its
-- text is kept. The ledger's rows are given, and so is netip's parser of an address.
pub mod Scan
pub mod Free
pub mod Ranges
use caramelo.Common.{
  ℕ, zero, suc, ◌+◌, ◌-◌, ◌*◌, ◌/◌, ◌%◌, ◌^◌, Bool, true, false, List, [], ◌∷◌, Option, none, some,
  ◌==◌, nat_eq, bytes_eq, Bytes, if◌then◌else◌, ltb, any,
}

pub data IpAddr : Type 0 where
  v4 : ℕ → IpAddr
  v6 : Bytes → IpAddr

-- netip's Prefix.
pub record Prefix : Type 0 where
  pub addr : IpAddr
  pub bits : ℕ

pub data SubnetError : Type 0 where
  no_prefix not_v4 too_small : SubnetError

pub data SubnetResult : Type 0 where
  subnet_ok : ℕ → ℕ → SubnetResult
  subnet_failed : SubnetError → SubnetResult

-- `Masked` of an IPv4 prefix.
unfoldable pub masked : ℕ → ℕ → ℕ
masked a bits = a / 2 ^ (32 - bits) * 2 ^ (32 - bits)

-- `Subnet` of what netip reads; a good subnet is its first address and its bits.
unfoldable pub subnet : Option Prefix → SubnetResult
unfolding masked
subnet none = subnet_failed no_prefix
subnet (some p) = elim p.addr [
  | v6 text ↦ subnet_failed not_v4
  | v4 a ↦ if ltb 23 p.bits then subnet_failed too_small else subnet_ok (masked a p.bits) p.bits
]

abbrev pub machine_offset : ℕ
machine_offset = 1

abbrev pub peer_first_off : ℕ
peer_first_off = 2

abbrev pub peer_last_off : ℕ
peer_last_off = 254

abbrev pub env_first_offset : ℕ
env_first_offset = 257

unfoldable pub offset : ℕ → ℕ → ℕ
offset base n = (base + n) % 2 ^ 32

-- The shift gives 0 for a subnet of 0 bits.
unfoldable pub size : ℕ → ℕ
size bits = 2 ^ (32 - bits) % 2 ^ 32

unfoldable pub machine_ip : ℕ → ℕ
unfolding offset
machine_ip base = offset base machine_offset

unfoldable pub peer_range : ℕ → ℕ × ℕ
unfolding offset
peer_range base = (offset base peer_first_off, offset base peer_last_off)

-- The subtraction of 2 wraps around too.
unfoldable pub env_range : ℕ → ℕ → ℕ × ℕ
unfolding offset size
env_range base bits =
    (offset base env_first_offset, offset base ((size bits + (2 ^ 32 - 2)) % 2 ^ 32))

pub data Ledger : Type 0 where
  no_ledger unreadable : Ledger
  listed : List Bytes → Ledger

pub data AllocError : Type 0 where
  without_ledger ledger_error : AllocError
  not_an_address : Bytes → AllocError
  exhausted : ℕ → ℕ → AllocError

pub data Allocated : Type 0 where
  given : ℕ → Allocated
  refused : AllocError → Allocated

pub data Taken : Type 0 where
  known : List IpAddr → Taken
  unknown : AllocError → Taken

unfoldable pub is_v4 : ℕ → IpAddr → Bool
is_v4 ip (v4 a) = a == ip
is_v4 ip (v6 text) = false

-- Whether the map has the address.
unfoldable pub has_ip : ℕ → List IpAddr → Bool
unfolding is_v4
has_ip ip used = any (is_v4 ip) used

-- Go's loop; there are as many rounds as addresses in the range.
unfoldable pub first_free : ℕ → ℕ → List IpAddr → Option ℕ
unfolding has_ip
first_free zero ip used = none
first_free (suc n) ip used = elim (has_ip ip used) [
  | true ↦ first_free n (ip + 1) used
  | false ↦ some ip
]

unfoldable pub free_in : ℕ × ℕ → Taken → Allocated
unfolding first_free
free_in (first, last) (unknown e) = refused e
free_in (first, last) (known used) = elim (first_free (suc last - first) first used) [
  | some ip ↦ given ip
  | none ↦ refused (exhausted first last)
]

module _ (parse_addr : Bytes → Option IpAddr) where
  unfoldable pub add_listed : List Bytes → List IpAddr → Taken
  add_listed [] used = known used
  add_listed (s ∷ ss) used = if s == [] then add_listed ss used else elim (parse_addr s) [
    | none ↦ unknown (not_an_address s)
    | some ip ↦ add_listed ss (ip ∷ used)
  ]

  unfoldable pub taken : ℕ → Ledger → Taken
  unfolding add_listed machine_ip
  taken base no_ledger = unknown without_ledger
  taken base unreadable = unknown ledger_error
  taken base (listed ss) = add_listed ss (v4 (machine_ip base) ∷ [])

  unfoldable pub allocate_peer : ℕ → Ledger → Allocated
  unfolding free_in taken peer_range
  allocate_peer base ledger = free_in (peer_range base) (taken base ledger)

  unfoldable pub allocate_env : ℕ → ℕ → Ledger → Allocated
  unfolding free_in taken env_range
  allocate_env base bits ledger = free_in (env_range base bits) (taken base ledger)
