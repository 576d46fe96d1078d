-- ===== src/Fleet/Choose/Fit.antt =====
-- Where internal/fleet/choose.go places an environment.
use caramelo.Common.{
  ℕ, ◌+◌, ◌≤◌, ◌≡◌, ◌≢◌, ◌↔◌, ◌⊎◌, inl, inr, refl, true, false, not, ◌&&◌, [], ◌∷◌, some, arith,
  ◌==◌, nat_eq, bytes_eq, Bytes, if◌then◌else◌, ltb, Bool-cases, Option-cases,
}
use caramelo.Fleet.{reachable, Candidate, Gauge, free, Demand}
use caramelo.Fleet.Choose.{objection, consider}
use caramelo.Fleet.Token.{is_empty}

is_empty_iff : (s : Bytes) → (is_empty s ≡ true) ↔ (s ≡ [])
unfolding is_empty
is_empty_iff [] = (λ e. refl, λ e. refl)
is_empty_iff (c ∷ s) = (λ e. cc, λ e. cc)

-- The least memory that must be free: what is asked, and never nothing.
abbrev pub at_least : ℕ → ℕ
at_least memory = if memory == 0 then 1 else memory

abbrev pub HasRoom : Candidate → ℕ → Type 0
HasRoom c memory =
    (g : Gauge) × (c.gauge ≡ some g)
    × (at_least memory + g.reserved_bytes + c.committed ≤ g.available_bytes)

-- A machine that can hold what is asked.
pub record Suitable (d : Demand) (now : ℕ) (c : Candidate) : Type 0 where
  pub named : c.machine.name ≢ []
  pub up : reachable now c.machine ≡ true
  pub right_arch : (d.arch ≡ []) ⊎ (c.machine.arch ≡ d.arch)
  pub room : HasRoom c d.memory_bytes

pub differ : false ≢ true
differ e = cc

room_of_guards :
    (c : Candidate) (memory : ℕ)
    → (free c).1 ≡ true
    → ltb 0 memory && ltb (free c).0 memory ≡ false
    → (memory == 0) && (free c).0 == 0 ≡ false
    → HasRoom c memory
unfolding free
room_of_guards c memory gauged fits some_free = elim (Option-cases c.gauge) [
  | inl missing ↦ (let no : false ≡ true = rw missing at gauged in elim (differ no) [ ])
  | inr (g, known) ↦ (g, known, ground (arith, known))
]

arch_of_guards :
    (wanted arch : Bytes)
    → not (is_empty wanted) && not (is_empty arch) && not (arch == wanted) ≡ false
    → not (is_empty wanted) && is_empty arch ≡ false
    → (wanted ≡ []) ⊎ (arch ≡ wanted)
arch_of_guards wanted arch same said = elim (Bool-cases (is_empty wanted)) [
  | inl any_arch ↦ inl ((is_empty_iff wanted).0 any_arch)
  | inr one_arch ↦ inr ((bytes_eq.same_iff arch wanted).0 (ground arith))
]

room_guards :
    (c : Candidate) (memory : ℕ)
    → HasRoom c memory
    → ((free c).1 ≡ true)
      × (ltb 0 memory && ltb (free c).0 memory ≡ false)
      × ((memory == 0) && (free c).0 == 0 ≡ false)
unfolding free
room_guards c memory (g, known, enough) =
    rw known (refl, ground (arith, enough), ground (arith, enough))

arch_guards :
    (wanted arch : Bytes)
    → (wanted ≡ []) ⊎ (arch ≡ wanted)
    → (not (is_empty wanted) && not (is_empty arch) && not (arch == wanted) ≡ false)
      × (not (is_empty wanted) && is_empty arch ≡ false)
arch_guards wanted arch (inl any_arch) =
    (ground (arith, any_arch, is_empty_iff wanted), ground (arith, any_arch, is_empty_iff wanted))
arch_guards wanted arch (inr same) = (
  ground (arith, same, bytes_eq.same_iff arch wanted),
  ground (arith, same, is_empty_iff wanted, is_empty_iff arch),
)

-- Choose finds nothing against a machine exactly if it is suitable.
pub consider-Suitable :
    (d : Demand) (now : ℕ) (c : Candidate) → ((consider d now c).fits ≡ true) ↔ Suitable d now c
unfolding consider objection
consider-Suitable d now c = (
  λ fit. record {
    named = λ blank. ground (arith, is_empty_iff c.machine.name);
    up = ground arith;
    right_arch = arch_of_guards d.arch c.machine.arch (ground arith) (ground arith);
    room = room_of_guards c d.memory_bytes (ground arith) (ground arith) (ground arith);
  },
  λ fit.
      let (gauged, fits, some_free) = room_guards c d.memory_bytes fit.room in
      let (same, said) = arch_guards d.arch c.machine.arch fit.right_arch in
      let named : is_empty c.machine.name ≡ false =
        ground (arith, is_empty_iff c.machine.name, fit.named) in
      rw (named, fit.up, same, said, gauged, fits, some_free) refl,
)
