-- ===== src/Vpn/Free.antt =====
-- Which address the allocator of internal/vpn/addr.go deals out.
use caramelo.Common.{
  ℕ, ◌+◌, ◌-◌, ◌^◌, ◌≤◌, ◌≡◌, ◌≢◌, ◌↔◌, refl, sym, ap, ◌∙◌, subst, inl, inr, ◌⊎◌, Bool, true, false,
  ◌||◌, List, [], ◌∷◌, Option, none, some, ◌==◌, nat_eq, bytes_eq, bytes_beq_iff, eq→≡, Bytes,
  arith, if◌then◌else◌, Any,
}
use caramelo.Vpn.{
  Prefix, subnet, subnet_ok, IpAddr, v4, v6, machine_ip, listed, not_an_address, Taken, unknown,
  is_v4, has_ip, free_in, add_listed, taken, allocate_peer, allocate_env,
}
use caramelo.Vpn.Ranges.{
  IsSubnet, IsIp, subnet-IsSubnet, machine_ip_lem, peer_range_lem, env_range_lem,
}
use caramelo.Vpn.Scan.{
  Deals, Recorded, recorded, unrecorded, taken_open, Recorded-mono, free_in-Deals,
}

is_v4_iff : (k : ℕ) (ip : IpAddr) → (is_v4 k ip ≡ true) ↔ (ip ≡ v4 k)
unfolding is_v4
is_v4_iff k (v4 a) = (λ e. ap v4 (eq→≡ a k e), λ e. (let same : a ≡ k = cc in ground arith))
is_v4_iff k (v6 text) = (λ e. cc, λ e. cc)

with_ip :
    (In : ℕ → Type 0) (ip : IpAddr) (used : List IpAddr) (k : ℕ)
    → (has_ip k used ≡ true) ↔ In k
    → (has_ip k (ip ∷ used) ≡ true) ↔ (In k ⊎ (ip ≡ v4 k))
unfolding has_ip
with_ip In ip used k h = go (is_v4 k ip) refl
  where
    go : (b : Bool) → is_v4 k ip ≡ b → (b || has_ip k used ≡ true) ↔ (In k ⊎ (ip ≡ v4 k))
    go true e = (λ f. inr ((is_v4_iff k ip).0 e), λ x. refl)
    go false e = (
      λ f. inl (h.0 f),
      λ x. elim x [ inl i ↦ h.1 i | inr same ↦ absurd (taken_open ((is_v4_iff k ip).1 same) e) ],
    )

filled_row : (s : Bytes) → (s == []) ≡ false → s ≢ []
filled_row s e same = taken_open ((bytes_beq_iff s []).1 same) e

same_ip : {a b : IpAddr} → some a ≡ some b → a ≡ b
same_ip e = cc

none_has : (k : ℕ) → has_ip k [] ≡ true → ⊥
unfolding has_ip
none_has k e = taken_open e refl

own_ip : {a b k : ℕ} → v4 a ≡ v4 k → a ≡ b → k ≡ b
own_ip e f = cc

module _ (parse_addr : Bytes → Option IpAddr) where
  -- The rows of the ledger have the address, or a row that is none.
  abbrev pub Listed : List Bytes → ℕ → Type 0
  Listed ss ip = Any (λ s. (s ≢ []) × (parse_addr s ≡ some (v4 ip))) ss

  abbrev pub Unreadable : List Bytes → Bytes → Type 0
  Unreadable ss row = Any (λ s. (s ≢ []) × (s ≡ row) × (parse_addr s ≡ none)) ss

  add_listed-Recorded :
      (ss : List Bytes) (used : List IpAddr) (In : ℕ → Type 0)
      → ((k : ℕ) → (has_ip k used ≡ true) ↔ In k)
      → Recorded (λ k. In k ⊎ Listed ss k) (Unreadable ss) (add_listed parse_addr ss used)
  unfolding add_listed
  add_listed-Recorded [] used In h =
      recorded used
        (λ k. (λ e. inl ((h k).0 e), λ x. elim x [ inl i ↦ (h k).1 i | inr n ↦ absurd n ]))
  add_listed-Recorded (s ∷ ss) used In h =
      row (s == []) refl (parse_addr s) refl (add_listed-Recorded ss used In h) (λ ip.
        add_listed-Recorded ss (ip ∷ used) (λ k. In k ⊎ (ip ≡ v4 k))
          (λ k. with_ip In ip used k (h k)))
    where
      Wanted : Taken → Type 0
      Wanted = Recorded (λ k. In k ⊎ Listed (s ∷ ss) k) (Unreadable (s ∷ ss))

      row :
          (b : Bool)
          → (s == []) ≡ b
          → (o : Option IpAddr) → parse_addr s ≡ o
          → Recorded (λ k. In k ⊎ Listed ss k) (Unreadable ss) (add_listed parse_addr ss used)
          → ((ip : IpAddr)
              → Recorded
                  (λ k. (In k ⊎ (ip ≡ v4 k)) ⊎ Listed ss k)
                  (Unreadable ss)
                  (add_listed parse_addr ss (ip ∷ used)))
          → Wanted (
              if b then add_listed parse_addr ss used else elim o as (λ x. Taken) [
                | none ↦ unknown (not_an_address s)
                | some ip ↦ add_listed parse_addr ss (ip ∷ used)
              ])
      row true e o f rest more =
          Recorded-mono _ _ _ _ _
            (λ k. (
              λ x. elim x [ inl i ↦ inl i | inr n ↦ inr (inr n) ],
              λ x. elim x [
                | inl i ↦ inl i
                | inr y ↦ elim y [
                  | inl (filled, read) ↦ absurd (filled (eq→≡ s [] e))
                  | inr n ↦ inr n
                ]
              ],
            ))
            (λ r bad. inr bad) rest
      row false e none f rest more = unrecorded s (inl (filled_row s e, refl, f))
      row false e (some ip) f rest more =
          Recorded-mono _ _ _ _ _
            (λ k. (
              λ x. elim x [
                | inl (inl i) ↦ inl i
                | inl (inr same) ↦ inr (inl (filled_row s e, f ∙ ap some same))
                | inr n ↦ inr (inr n)
              ],
              λ x. elim x [
                | inl i ↦ inl (inl i)
                | inr (inl (filled, read)) ↦ inl (inr (same_ip (sym f ∙ read)))
                | inr (inr n) ↦ inr n
              ],
            ))
            (λ r bad. inr bad) (more ip)

  -- An address that may not be dealt out.
  abbrev pub InUse : ℕ → List Bytes → ℕ → Type 0
  InUse base ss k = (k ≡ base + 1) ⊎ Listed ss k

  module _ (base bits : ℕ) (s : IsSubnet base bits) (ss : List Bytes) where
    taken-Recorded : Recorded (InUse base ss) (Unreadable ss) (taken parse_addr base (listed ss))
    unfolding taken
    taken-Recorded =
        add_listed-Recorded ss (v4 (machine_ip base) ∷ []) (λ k. k ≡ base + 1)
          (λ k.
            let one = with_ip (λ x. ⊥) (v4 (machine_ip base)) [] k (none_has k, λ i. absurd i) in
            (
              λ e. elim (one.0 e) [
                | inl none_in ↦ absurd none_in
                | inr same ↦ own_ip same (machine_ip_lem base bits s)
              ],
              λ same. one.1 (inr (ap v4 (machine_ip_lem base bits s ∙ sym same))),
            ))

    peer-Deals :
        Deals
          (InUse base ss)
          (Unreadable ss)
          (base + 2)
          (base + 254)
          (allocate_peer parse_addr base (listed ss))
    unfolding allocate_peer
    peer-Deals =
        subst
          (λ (r : ℕ × ℕ).
            Deals (InUse base ss) (Unreadable ss) (base + 2) (base + 254)
              (free_in r (taken parse_addr base (listed ss))))
          (sym (peer_range_lem base bits s))
          (free_in-Deals (InUse base ss) (Unreadable ss) (base + 2) (base + 254) _ taken-Recorded)

    env-Deals :
        Deals
          (InUse base ss)
          (Unreadable ss)
          (base + 257)
          (base + (2 ^ (32 - bits) - 2))
          (allocate_env parse_addr base bits (listed ss))
    unfolding allocate_env
    env-Deals =
        subst
          (λ (r : ℕ × ℕ).
            Deals (InUse base ss) (Unreadable ss) (base + 257) (base + (2 ^ (32 - bits) - 2))
              (free_in r (taken parse_addr base (listed ss))))
          (sym (env_range_lem base bits s))
          (free_in-Deals (InUse base ss) (Unreadable ss) (base + 257) (base + (2 ^ (32 - bits) - 2))
            _ taken-Recorded)

  -- A subnet that `Subnet` accepts ends within the 32 bits. On it, with a ledger that can be read,
  -- AllocatePeer gives the lowest of the addresses from the second to the 254th, and AllocateEnv the
  -- lowest of those from the 257th to the last but one, that is neither the machine's, the first,
  -- nor in a row of the ledger. Each says that its range is exhausted only if all of it is in use.
  -- Otherwise a row is no address, and the error names it.
  pub allocate-Deals :
      (p : Prefix) (base bits : ℕ) (ss : List Bytes)
      → IsIp p.addr
      → subnet (some p) ≡ subnet_ok base bits
      → (base + 2 ^ (32 - bits) ≤ 2 ^ 32)
        × Deals
            (InUse base ss)
            (Unreadable ss)
            (base + 2)
            (base + 254)
            (allocate_peer parse_addr base (listed ss))
        × Deals
            (InUse base ss)
            (Unreadable ss)
            (base + 257)
            (base + (2 ^ (32 - bits) - 2))
            (allocate_env parse_addr base bits (listed ss))
  allocate-Deals p base bits ss h e =
      let s = subnet-IsSubnet p base bits h e in
      (s.within, peer-Deals base bits s ss, env-Deals base bits s ss)
