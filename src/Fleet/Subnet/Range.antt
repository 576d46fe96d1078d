-- ===== src/Fleet/Subnet/Range.antt =====
-- Which subnets the fleet's range has (internal/fleet/subnet.go).
use caramelo.Common.{
  ℕ, zero, suc, ◌+◌, ◌*◌, ◌%◌, ◌^◌, ◌≤◌, ◌<◌, ◌≡◌, ◌↔◌, refl, sym, ap, ◌∙◌, subst, inl, inr, ◌⊎◌,
  Bool, true, false, not, ◌||◌, ◌&&◌, List, [], ◌∷◌, Option, none, some, ◌==◌, nat_eq, nat_beq_iff,
  eq→≡, arith, if◌then◌else◌, Any, any, find?, Bool-cases,
}
use caramelo.Vpn.{IpAddr, v4, v6, Prefix, masked}
use caramelo.Fleet.Subnet.{
  subnet_bits, subnet_count, fleet_range, subnets_from, subnets, is_subnet, allocate_subnet,
}

-- The subnets by their index.
abbrev pub subnet_at : ℕ → ℕ
subnet_at i = fleet_range + i * 2 ^ 16

abbrev pub in_bits : ℕ → Prefix
in_bits s = record { addr = v4 s; bits = 16 }

-- The prefix is the subnet, but for the bits after its mask.
abbrev pub IsFor : ℕ → Prefix → Type 0
IsFor s p = (p.bits ≡ 16) × (a : ℕ) × (p.addr ≡ v4 a) × (s ≤ a) × (a < s + 2 ^ 16)

-- The first subnet that no prefix takes was dealt out, or every one is taken.
pub data DealtOut (taken : List Prefix) : Option ℕ → Type 0 where
  dealt :
      (i : ℕ)
      → i < subnet_count
      → ¬ Any (IsFor (subnet_at i)) taken
      → ((j : ℕ) → j < i → Any (IsFor (subnet_at j)) taken)
      → DealtOut taken (some (subnet_at i))
  none_left : ((j : ℕ) → j < subnet_count → Any (IsFor (subnet_at j)) taken) → DealtOut taken none

within_block :
    (i a : ℕ) → (masked a 16 ≡ subnet_at i) ↔ ((subnet_at i ≤ a) × (a < subnet_at i + 2 ^ 16))
unfolding masked
within_block i a =
    (λ e. (omega arith, omega arith), λ h. (let le = h.0 in let lt = h.1 in omega arith))

pub both : {a b : Bool} → a && b ≡ true → (a ≡ true) × (b ≡ true)
both {a} {b} e = (ground arith, ground arith)

pub both_back : {a b : Bool} → a ≡ true → b ≡ true → a && b ≡ true
both_back e f = ground arith

is_subnet_iff : (i : ℕ) (p : Prefix) → (is_subnet (subnet_at i) p ≡ true) ↔ IsFor (subnet_at i) p
unfolding is_subnet
is_subnet_iff i p = go p.addr
  where
    go :
        (x : IpAddr)
        → ((elim x as (λ x. Bool) [
          | v6 text ↦ false
          | v4 a ↦ p.bits == subnet_bits && masked a p.bits == subnet_at i
        ])
            ≡ true)
          ↔ ((p.bits ≡ 16) × (a : ℕ) × (x ≡ v4 a) × (subnet_at i ≤ a) × (a < subnet_at i + 2 ^ 16))
    go (v6 text) = (λ e. cc, λ (b, a, f, le, lt). cc)
    go (v4 c) = (
      λ e.
          let (b, m) = both e in
          let bits = eq→≡ p.bits 16 b in
          let (le, lt) =
            (within_block i c).0 (
              subst (λ n. masked c n ≡ subnet_at i) bits
                (eq→≡ (masked c p.bits) (subnet_at i) m)) in
          (bits, c, refl, le, lt),
      λ (b, a, f, le, lt).
          let same : c ≡ a = cc in
          both_back ((nat_beq_iff p.bits 16).1 b) (
            (nat_beq_iff (masked c p.bits) (subnet_at i)).1
              (ap (masked c) b ∙ (within_block i c).1 (omega arith, omega arith))),
    )

not_true : false ≡ true → ⊥
not_true e = cc

byte_added : (i : ℕ) → i < 16 → (10 * 2 ^ 8 + (80 + i) % 2 ^ 8) * 2 ^ 16 ≡ subnet_at i
byte_added i h = omega arith

first_or :
    (b : Bool) {c : Bool} {P Q : Type 0}
    → (b ≡ true) ↔ P
    → (c ≡ true) ↔ Q
    → (b || c ≡ true) ↔ (P ⊎ Q)
first_or true f g = (λ e. inl (f.0 refl), λ h. refl)
first_or false f g =
    (λ e. inr (g.0 e), λ h. elim h [ inl x ↦ absurd (not_true (f.1 x)) | inr y ↦ g.1 y ])

any-is_subnet :
    (i : ℕ) (ps : List Prefix)
    → (any (is_subnet (subnet_at i)) ps ≡ true) ↔ Any (IsFor (subnet_at i)) ps
any-is_subnet i [] = (λ e. cc, λ h. absurd h)
any-is_subnet i (p ∷ ps) =
    first_or (is_subnet (subnet_at i) p) (is_subnet_iff i p) (any-is_subnet i ps)

-- A search over the subnets from an index on.
Searched : List Prefix → ℕ → ℕ → Option ℕ → Type 0
Searched taken n i none = (j : ℕ) → i ≤ j → j < i + n → Any (IsFor (subnet_at j)) taken
Searched taken n i (some s) =
    (k : ℕ) × (s ≡ subnet_at k)
    × (i ≤ k)
    × (k < i + n)
    × (¬ Any (IsFor (subnet_at k)) taken)
    × ((j : ℕ) → i ≤ j → j < k → Any (IsFor (subnet_at j)) taken)

module _ (taken : List Prefix) where
  has_room : ℕ → Bool
  has_room s = not (any (is_subnet s) taken)

  from_index : (P : ℕ → Type 0) (i j : ℕ) → P i → (i + 1 ≤ j → P j) → i ≤ j → P j
  from_index P i j here later le = elim (Bool-cases (i == j)) [
    | inl same ↦ subst P (eq→≡ i j same) here
    | inr other ↦ later (ground arith)
  ]

  search-Searched : (n i : ℕ) → i + n ≤ 16 → Searched taken n i (find? has_room (subnets_from n i))
  unfolding subnets_from Searched has_room
  search-Searched zero i h = λ j le lt. absurd (omega arith)
  search-Searched (suc n) i h =
      subst
        (λ s.
          Searched taken (suc n) i
            (if has_room s then some s else find? has_room (subnets_from n (suc i))))
        (sym (byte_added i (omega arith)))
        (step (any (is_subnet (subnet_at i)) taken) (any-is_subnet i taken)
          (find? has_room (subnets_from n (suc i))) (search-Searched n (suc i) (omega arith)))
    where
      step :
          (b : Bool)
          → (b ≡ true) ↔ Any (IsFor (subnet_at i)) taken
          → (o : Option ℕ) → Searched taken n (suc i) o
          → Searched taken (suc n) i (if not b then some (subnet_at i) else o)
      step false f o r = (
        i,
        refl,
        omega arith,
        omega arith,
        λ x. not_true (f.1 x),
        λ j le lt. absurd (omega arith),
      )
      step true f none r = λ j le lt.
          from_index (λ j. Any (IsFor (subnet_at j)) taken) i j (f.0 refl)
            (λ g. r j (omega arith) (omega arith)) le
      step true f (some s) (k, same, le, lt, open_, below) = (
        k,
        same,
        omega arith,
        omega arith,
        open_,
        λ j g l.
            from_index (λ j. Any (IsFor (subnet_at j)) taken) i j (f.0 refl)
              (λ x. below j (omega arith) l) g,
      )

-- AllocateSubnet gives the first of the sixteen subnets of the fleet's range that no valid prefix of
-- 16 bits among those given lies in, and none only if each has such a prefix.
pub allocate_subnet-DealtOut : (taken : List Prefix) → DealtOut taken (allocate_subnet taken)
unfolding allocate_subnet subnets has_room Searched
allocate_subnet-DealtOut taken = go _ (search-Searched taken 16 0 (omega arith))
  where
    go : (o : Option ℕ) → Searched taken 16 0 o → DealtOut taken o
    go none h = none_left (λ j lt. h j (omega arith) (omega arith))
    go (some s) (k, same, le, lt, open_, below) =
        subst (λ x. DealtOut taken (some x)) (sym same)
          (dealt k (omega arith) open_ (λ j l. below j (omega arith) l))
