-- ===== src/Vpn/Ranges.antt =====
-- Where the ranges of a subnet lie (internal/vpn/addr.go).
use native.Mathlib.Nat.{
  mul-le-mul_right, div-lt_iff_lt-mul, pow-le-pow_right, pow-suc, mul_assoc, mul-one, suc-mul,
}
use caramelo.Common.{
  ℕ, zero, suc, ◌+◌, ◌-◌, ◌*◌, ◌/◌, ◌%◌, ◌^◌, ◌≤◌, ◌<◌, ◌≡◌, refl, sym, ap, ◌∙◌, subst, Bool, true,
  false, some, arith, ltb, if◌then◌else◌,
}
use caramelo.Vpn.{
  Prefix, IpAddr, v4, v6, subnet, subnet_ok, subnet_failed, SubnetResult, not_v4, too_small, masked,
  offset, size, machine_ip, peer_range, env_range,
}

-- What a subnet that is accepted is: an address below which nothing of it lies, and room.
pub record IsSubnet (base bits : ℕ) : Type 0 where
  pub few_bits : bits ≤ 23
  pub within : base + 2 ^ (32 - bits) ≤ 2 ^ 32

suc_added : (a b : ℕ) → a + suc b ≡ suc (a + b)
suc_added a b = omega arith

pow-add : (a b : ℕ) → 2 ^ (a + b) ≡ 2 ^ a * 2 ^ b
pow-add a zero = ap (λ n. 2 ^ n) (none_added a) ∙ sym (mul-one (2 ^ a))
  where
    none_added : (a : ℕ) → a + 0 ≡ a
    none_added a = omega arith
pow-add a (suc b) =
    ap (λ n. 2 ^ n) (suc_added a b)
    ∙ pow-suc 2 (a + b)
    ∙ ap (λ n. n * 2) (pow-add a b)
    ∙ mul_assoc (2 ^ a) (2 ^ b) 2
    ∙ ap (λ n. 2 ^ a * n) (sym (pow-suc 2 b))

power : (bits : ℕ) → bits ≤ 23 → 2 ^ 32 ≡ 2 ^ bits * 2 ^ (32 - bits)
power bits h = ap (λ n. 2 ^ n) (split bits h) ∙ pow-add bits (32 - bits)
  where
    split : (bits : ℕ) → bits ≤ 23 → 32 ≡ bits + (32 - bits)
    split bits h = omega arith

roomy : (bits : ℕ) → bits ≤ 23 → 512 ≤ 2 ^ (32 - bits)
roomy bits h = pow-le-pow_right (omega arith) (nine bits h)
  where
    nine : (bits : ℕ) → bits ≤ 23 → 9 ≤ 32 - bits
    nine bits h = omega arith

-- A multiple of the room below 2 ^ 32 leaves room for one more.
room_left : (p q a : ℕ) → 0 < p → a < q * p → a / p * p + p ≤ q * p
room_left p q a pos h =
    subst (λ n. n ≤ q * p) (suc-mul (a / p) p)
      (mul-le-mul_right p (quotient (div-lt_iff_lt-mul pos).1 h))
  where
    quotient : {c d : ℕ} → (a < q * p → c < d) → a < q * p → suc c ≤ d
    quotient f h = let k = f h in omega arith

masked-within : (a bits : ℕ) → bits ≤ 23 → a < 2 ^ 32 → masked a bits + 2 ^ (32 - bits) ≤ 2 ^ 32
unfolding masked
masked-within a bits h k =
    let whole = power bits h in
    let room = roomy bits h in
    subst (λ n. masked a bits + 2 ^ (32 - bits) ≤ n) (sym whole)
      (room_left (2 ^ (32 - bits)) (2 ^ bits) a (omega arith) (subst (λ n. a < n) whole k))

-- The last offset of an environment, wrap-around included.
last_offset : (bits : ℕ) → bits ≤ 23 → (size bits + (2 ^ 32 - 2)) % 2 ^ 32 ≡ 2 ^ (32 - bits) - 2
unfolding size
last_offset bits h =
    wraps (2 ^ (32 - bits)) (roomy bits h) (pow-le-pow_right (omega arith) (less bits))
  where
    less : (bits : ℕ) → 32 - bits ≤ 32
    less bits = omega arith

    wraps : (p : ℕ) → 512 ≤ p → p ≤ 2 ^ 32 → (p % 2 ^ 32 + (2 ^ 32 - 2)) % 2 ^ 32 ≡ p - 2
    wraps p h k = omega arith

-- An IPv4 address has 32 bits.
abbrev pub IsIp : IpAddr → Type 0
IsIp (v4 a) = a < 2 ^ 32
IsIp (v6 text) = Unit {0}

accepted :
    (a bits base n : ℕ)
    → a < 2 ^ 32
    → (if ltb 23 bits then subnet_failed too_small else subnet_ok (masked a bits) bits)
      ≡ subnet_ok base n
    → IsSubnet base n
accepted a bits base n h e = go (ltb 23 bits) refl e
  where
    go :
        (b : Bool)
        → ltb 23 bits ≡ b
        → (if b then subnet_failed too_small else subnet_ok (masked a bits) bits) ≡ subnet_ok base n
        → IsSubnet base n
    go true f e = cc
    go false f e =
        let few : bits ≤ 23 = ground arith in
        let good : IsSubnet (masked a bits) bits = record {
          few_bits = few;
          within = masked-within a bits few h;
        } in
        let same : bits ≡ n = cc in
        let start : masked a bits ≡ base = cc in
        subst (λ b. IsSubnet b n) start (subst (λ k. IsSubnet (masked a bits) k) same good)

-- `Subnet` accepts only subnets that have room for the machine, its peers and an environment.
pub subnet-IsSubnet :
    (p : Prefix) (base bits : ℕ)
    → IsIp p.addr
    → subnet (some p) ≡ subnet_ok base bits
    → IsSubnet base bits
unfolding subnet
subnet-IsSubnet p base bits h e = go p.addr h e
  where
    go :
        (x : IpAddr)
        → IsIp x
        → (elim x as (λ x. SubnetResult) [
          | v6 text ↦ subnet_failed not_v4
          | v4 a ↦
              if ltb 23 p.bits then subnet_failed too_small else subnet_ok (masked a p.bits) p.bits
        ])
          ≡ subnet_ok base bits
        → IsSubnet base bits
    go (v6 text) h e = cc
    go (v4 a) h e = accepted a p.bits base bits h e

pair_eq : {a b c d : ℕ} → a ≡ c → b ≡ d → ◌≡◌ {A = ℕ × ℕ} (a, b) (c, d)
pair_eq e f = cc

unwrapped : (n : ℕ) → n < 2 ^ 32 → n % 2 ^ 32 ≡ n
unwrapped n h = omega arith

module _ (base bits : ℕ) (s : IsSubnet base bits) where
  offset_lem : (n : ℕ) → n < 2 ^ (32 - bits) → offset base n ≡ base + n
  unfolding offset
  offset_lem n h = let within = s.within in omega arith

  near : (n : ℕ) → n < 512 → offset base n ≡ base + n
  near n h = let room = roomy bits s.few_bits in offset_lem n (omega arith)

  pub machine_ip_lem : machine_ip base ≡ base + 1
  unfolding machine_ip
  machine_ip_lem = near 1 (omega arith)

  pub peer_range_lem : peer_range base ≡ (base + 2, base + 254)
  unfolding peer_range
  peer_range_lem = pair_eq (near 2 (omega arith)) (near 254 (omega arith))

  pub env_range_lem : env_range base bits ≡ (base + 257, base + (2 ^ (32 - bits) - 2))
  unfolding env_range
  env_range_lem =
      let room = roomy bits s.few_bits in
      pair_eq (near 257 (omega arith)) (
        ap (offset base) (last_offset bits s.few_bits)
        ∙ offset_lem (2 ^ (32 - bits) - 2) (omega arith))
