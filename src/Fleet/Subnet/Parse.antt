-- ===== src/Fleet/Subnet/Parse.antt =====
-- Which subnets ParseSubnet takes (internal/fleet/subnet.go).
use caramelo.Common.{
  ℕ, ◌+◌, ◌-◌, ◌/◌, ◌^◌, ◌≤◌, ◌<◌, ◌≡◌, ◌↔◌, refl, sym, ap, ◌∙◌, subst, Bool, true, false, ◌&&◌,
  some, ◌==◌, nat_eq, nat_beq_iff, eq→≡, arith, if◌then◌else◌,
}
use caramelo.Vpn.{IpAddr, v4, v6, Prefix, masked}
use caramelo.Fleet.Subnet.{
  subnet_bits, range_bits, subnet_count, fleet_range, contains, ParsedSubnet, parsed, outside,
  parse_subnet,
}
use caramelo.Fleet.Subnet.Range.{subnet_at, IsFor, both, both_back}

in_range : ℕ → ℕ → Bool
in_range a bits =
    bits == subnet_bits
    && masked (masked a bits) bits / 2 ^ (32 - range_bits) == fleet_range / 2 ^ (32 - range_bits)

-- The subnet that an address of the range lies in.
located :
    (a : ℕ)
    → masked (masked a 16) 16 / 2 ^ (32 - range_bits) ≡ fleet_range / 2 ^ (32 - range_bits)
    → (i : ℕ) × (i < 16) × (masked a 16 ≡ subnet_at i)
unfolding masked
located a e = (a / 65536 - 2640, omega arith, omega arith)

placed :
    (i a : ℕ)
    → i < 16
    → subnet_at i ≤ a
    → a < subnet_at i + 2 ^ 16
    → (masked a 16 ≡ subnet_at i)
      × (masked (masked a 16) 16 / 2 ^ (32 - range_bits) ≡ fleet_range / 2 ^ (32 - range_bits))
unfolding masked
placed i a h le lt = (omega arith, omega arith)

-- What is asked of an address and a number of bits.
Fits : ℕ → ℕ → ℕ → Type 0
Fits a bits s =
    (i : ℕ) × (i < 16)
    × (s ≡ subnet_at i)
    × (bits ≡ 16)
    × (subnet_at i ≤ a)
    × (a < subnet_at i + 2 ^ 16)

accepted : ℕ → ℕ → ParsedSubnet
accepted a bits = if in_range a bits then parsed (masked a bits) else outside

from_parsed : {a b : ℕ} → parsed a ≡ parsed b → a ≡ b
from_parsed e = cc

inside : (i a : ℕ) → masked a 16 ≡ subnet_at i → (subnet_at i ≤ a) × (a < subnet_at i + 2 ^ 16)
unfolding masked
inside i a e = (omega arith, omega arith)

accepted-Fits : (a bits s : ℕ) → accepted a bits ≡ parsed s → Fits a bits s
unfolding accepted Fits in_range
accepted-Fits a bits s e = go (in_range a bits) refl e
  where
    go :
        (b : Bool)
        → in_range a bits ≡ b
        → (if b then parsed (masked a bits) else outside) ≡ parsed s
        → Fits a bits s
    go true f e =
        let (sixteen, high) = both f in
        let bits_same = eq→≡ bits 16 sixteen in
        let (i, small, at_i) = located a (
          subst
            (λ n.
              masked (masked a n) n / 2 ^ (32 - range_bits) ≡ fleet_range / 2 ^ (32 - range_bits))
            bits_same (eq→≡ _ _ high)) in
        let (le, lt) = inside i a at_i in
        (i, small, sym (from_parsed e) ∙ ap (masked a) bits_same ∙ at_i, bits_same, le, lt)
    go false f e = cc

Fits-accepted : (a bits s : ℕ) → Fits a bits s → accepted a bits ≡ parsed s
unfolding accepted Fits in_range
Fits-accepted a bits s (i, small, at_i, bits_same, le, lt) =
    let (start, high) = placed i a small le lt in
    let ok : in_range a 16 ≡ true = both_back refl ((nat_beq_iff _ _).1 high) in
    ap (accepted a) bits_same
    ∙ ap (λ (b : Bool). if b then parsed (masked a 16) else outside) ok
    ∙ ap parsed (start ∙ sym at_i)

-- ParseSubnet gives a subnet exactly for the prefixes of 16 bits whose address lies in it, and the
-- subnet is one of the sixteen that AllocateSubnet chooses from.
pub parse_subnet_iff :
    (p : Prefix) (s : ℕ)
    → (parse_subnet (some p) ≡ parsed s)
      ↔ ((i : ℕ) × (i < subnet_count) × (s ≡ subnet_at i) × IsFor (subnet_at i) p)
unfolding parse_subnet contains accepted in_range Fits
parse_subnet_iff p s = go p.addr
  where
    go :
        (x : IpAddr)
        → (◌≡◌ {A = ParsedSubnet}
            (elim x as (λ x. ParsedSubnet) [ v6 text ↦ outside | v4 a ↦ accepted a p.bits ])
            (parsed s))
          ↔ ((i : ℕ) × (i < subnet_count)
              × (s ≡ subnet_at i)
              × ((p.bits ≡ 16)
                  × (a : ℕ) × (x ≡ v4 a)
                  × (subnet_at i ≤ a)
                  × (a < subnet_at i + 2 ^ 16)))
    go (v6 text) = (λ e. cc, λ (i, small, at_i, (b, a, f, le, lt)). cc)
    go (v4 c) = (
      λ e.
          let (i, small, at_i, b, le, lt) = accepted-Fits c p.bits s e in
          (i, small, at_i, (b, c, refl, le, lt)),
      λ (i, small, at_i, (b, a, f, le, lt)).
          let same : c ≡ a = cc in
          Fits-accepted c p.bits s (i, small, at_i, b, omega arith, omega arith),
    )
