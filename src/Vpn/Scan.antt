-- ===== src/Vpn/Scan.antt =====
-- What the allocator of internal/vpn/addr.go finds in a range.
use caramelo.Common.{
  ℕ, zero, suc, ◌+◌, ◌-◌, ◌≤◌, ◌<◌, ◌≡◌, ◌↔◌, refl, subst, inl, inr, Bool, true, false, List,
  Option, none, some, ◌==◌, nat_eq, bytes_eq, eq→≡, Bytes, arith, Bool-cases,
}
use caramelo.Vpn.{
  IpAddr, exhausted, not_an_address, Allocated, given, refused, Taken, known, unknown, has_ip,
  first_free, free_in,
}

-- The lowest free address of a range was dealt out, or none of it is free, or a row is no address.
pub data Deals (In : ℕ → Type 0) (IsBad : Bytes → Type 0) (first last : ℕ)
    : Allocated → Type 0 where
  deals :
      (ip : ℕ)
      → first ≤ ip
      → ip ≤ last
      → ¬ In ip
      → ((k : ℕ) → first ≤ k → k < ip → In k)
      → Deals In IsBad first last (given ip)
  all_gone :
      ((k : ℕ) → first ≤ k → k ≤ last → In k)
      → Deals In IsBad first last (refused (exhausted first last))
  bad_row : (row : Bytes) → IsBad row → Deals In IsBad first last (refused (not_an_address row))

module _ (used : List IpAddr) where
  -- What the loop finds over so many addresses.
  FoundIn : ℕ → ℕ → Option ℕ → Type 0
  FoundIn n ip none = (k : ℕ) → ip ≤ k → k < ip + n → has_ip k used ≡ true
  FoundIn n ip (some x) =
      (ip ≤ x)
      × (x < ip + n)
      × (has_ip x used ≡ false)
      × ((k : ℕ) → ip ≤ k → k < x → has_ip k used ≡ true)

  first_free-FoundIn : (n ip : ℕ) → FoundIn n ip (first_free n ip used)
  unfolding first_free FoundIn
  first_free-FoundIn zero ip = λ k h g. absurd (omega arith)
  first_free-FoundIn (suc n) ip =
      go (has_ip ip used) refl (first_free n (ip + 1) used) (first_free-FoundIn n (ip + 1))
    where
      earlier :
          has_ip ip used ≡ true
          → (m : ℕ) → ((k : ℕ) → ip + 1 ≤ k → k < m → has_ip k used ≡ true)
          → (k : ℕ) → ip ≤ k
          → k < m
          → has_ip k used ≡ true
      earlier e m h k le lt = elim (Bool-cases (ip == k)) [
        | inl same ↦ subst (λ x. has_ip x used ≡ true) (eq→≡ ip k same) e
        | inr other ↦ h k (ground arith) lt
      ]

      go :
          (b : Bool)
          → has_ip ip used ≡ b
          → (o : Option ℕ) → FoundIn n (ip + 1) o
          → FoundIn (suc n) ip (elim b as (λ x. Option ℕ) [ true ↦ o | false ↦ some ip ])
      go true e none h = λ k le lt. earlier e (ip + 1 + n) h k le (omega arith)
      go true e (some x) (le, lt, open_, below) =
          (omega arith, omega arith, open_, earlier e x below)
      go false e o h = (omega arith, omega arith, e, λ k le lt. absurd (omega arith))

-- What the map of the taken addresses holds.
pub data Recorded (In : ℕ → Type 0) (IsBad : Bytes → Type 0) : Taken → Type 0 where
  recorded :
      (used : List IpAddr)
      → ((k : ℕ) → (has_ip k used ≡ true) ↔ In k)
      → Recorded In IsBad (known used)
  unrecorded : (row : Bytes) → IsBad row → Recorded In IsBad (unknown (not_an_address row))

pub taken_open : {b : Bool} → b ≡ true → b ≡ false → ⊥
taken_open e f = cc

pub Recorded-mono :
    (In In' : ℕ → Type 0) (IsBad IsBad' : Bytes → Type 0) (t : Taken)
    → ((k : ℕ) → In k ↔ In' k)
    → ((row : Bytes) → IsBad row → IsBad' row)
    → Recorded In IsBad t
    → Recorded In' IsBad' t
Recorded-mono In In' IsBad IsBad' _ h b (recorded used same) =
    recorded used (λ k. (λ e. (h k).0 ((same k).0 e), λ i. (same k).1 ((h k).1 i)))
Recorded-mono In In' IsBad IsBad' _ h b (unrecorded row bad) = unrecorded row (b row bad)

pub free_in-Deals :
    (In : ℕ → Type 0) (IsBad : Bytes → Type 0) (first last : ℕ) (t : Taken)
    → Recorded In IsBad t
    → Deals In IsBad first last (free_in (first, last) t)
unfolding free_in FoundIn
free_in-Deals In IsBad first last _ (unrecorded row bad) = bad_row row bad
free_in-Deals In IsBad first last _ (recorded used same) =
    go (first_free (suc last - first) first used) (first_free-FoundIn used (suc last - first) first)
  where
    go :
        (o : Option ℕ)
        → FoundIn used (suc last - first) first o
        → Deals In IsBad first last (elim o as (λ x. Allocated) [
          | some ip ↦ given ip
          | none ↦ refused (exhausted first last)
        ])
    go none h = all_gone (λ k le lt. (same k).0 (h k le (omega arith)))
    go (some ip) (le, lt, open_, below) =
        deals ip le (omega arith) (λ i. taken_open ((same ip).1 i) open_)
          (λ k from to. (same k).0 (below k from to))
