-- ===== src/Ports/FirstFit.antt =====
-- What the allocator of internal/ports/ports.go finds: the first block that fits.
use native.Mathlib.Decide.{ℕ_discrete}
use caramelo.Common.{
  ℕ, zero, suc, ◌+◌, ◌*◌, ◌≤◌, ◌<◌, ◌≡◌, refl, sym, subst, inl, inr, Bool, true, false, List, [],
  ◌∷◌, none, some, arith, ltb, All, Option-cases, Bool-cases,
}
use caramelo.Ports.{
  base_port, ceiling, block_size, block_count, block, block_from, Span, overlaps, overlap, EnvRow,
  rows, Found, at, failed, exhausted, Skip, taken, first_busy, probe, candidate, skip_of, scan,
  allocate,
}

-- A block fits if it overlaps no span, and each of its ports can be bound.
pub record Fits (can_bind : ℕ → Bool) (spans : List Span) (base : ℕ) : Type 0 where
  pub apart : All (λ s. overlaps s (candidate base) ≡ false) spans
  pub free : (p : ℕ) → base ≤ p → p < base + block_size → can_bind p ≡ true

-- The port blocks between the base and the ceiling.
abbrev pub IsBlock : ℕ → Type 0
IsBlock b = (k : ℕ) × (k < block_count) × (b ≡ base_port + block_size * k)

-- The first block that fits, or the knowledge that none does.
pub data FirstFit (can_bind : ℕ → Bool) (spans : List Span) : Found → Type 0 where
  found :
      (b : ℕ)
      → IsBlock b
      → Fits can_bind spans b
      → ((b' : ℕ) → IsBlock b' → b' < b → ¬ Fits can_bind spans b')
      → FirstFit can_bind spans (at b)
  full :
      ((b : ℕ) → IsBlock b → ¬ Fits can_bind spans b) → FirstFit can_bind spans (failed exhausted)

overlap-none :
    (spans : List Span) (c : Span) → overlap spans c ≡ none → All (λ s. overlaps s c ≡ false) spans
unfolding overlap
overlap-none [] c e = tt
overlap-none (s ∷ ss) c e = elim (Bool-cases (overlaps s c)) [
  | inl hit ↦ absurd (ground arith)
  | inr miss ↦ (miss, overlap-none ss c (ground arith))
]

overlap-some :
    (spans : List Span) (c s : Span)
    → overlap spans c ≡ some s
    → ¬ All (λ s. overlaps s c ≡ false) spans
unfolding overlap
overlap-some [] c s e a = cc
overlap-some (x ∷ ss) c s e a = overlap-some ss c s (ground arith) a.1

module _ (can_bind : ℕ → Bool) where
  busy-none :
      (n p q : ℕ)
      → first_busy can_bind (block_from n p) ≡ none
      → p ≤ q
      → q < p + n
      → can_bind q ≡ true
  unfolding first_busy block_from
  busy-none zero p q e le lt = absurd (omega arith)
  busy-none (suc n) p q e le lt = elim (ℕ_discrete p q) [
    | yes same ↦ subst (λ x. can_bind x ≡ true) same (ground arith)
    | no other ↦ busy-none n (p + 1) q (ground arith) (omega arith) (omega arith)
  ]

  busy-some :
      (n p q : ℕ)
      → first_busy can_bind (block_from n p) ≡ some q
      → (p ≤ q) × (q < p + n) × (can_bind q ≡ false)
  unfolding first_busy block_from
  busy-some zero p q e = cc
  busy-some (suc n) p q e = ground (arith, busy-some n (p + 1) q)

  module _ (spans : List Span) where
    no_skip-Fits : (base : ℕ) → skip_of can_bind spans base ≡ none → Fits can_bind spans base
    unfolding skip_of probe block
    no_skip-Fits base e = record {
      apart = overlap-none spans (candidate base) (ground arith);
      free = λ p le lt. busy-none block_size base p (ground arith) le lt;
    }

    skip-not-Fits :
        (base : ℕ) (s : Skip) → skip_of can_bind spans base ≡ some s → ¬ Fits can_bind spans base
    unfolding skip_of probe block
    skip-not-Fits base s e f = elim (Option-cases (overlap spans (candidate base))) [
      | inr (o, hit) ↦ overlap-some spans (candidate base) o hit f.apart
      | inl miss ↦ elim (Option-cases (first_busy can_bind (block_from block_size base))) [
        | inl free ↦ ground arith
        | inr (q, busy) ↦
            let (le, lt, no_bind) = busy-some block_size base q busy in cc (f.free q le lt, no_bind)
      ]
    ]

    abbrev Below : ℕ → Type 0
    Below base = (b : ℕ) → IsBlock b → b < base → ¬ Fits can_bind spans b

    Below-next :
        (base : ℕ)
        → Below base
        → ¬ Fits can_bind spans base
        → IsBlock base
        → Below (base + block_size)
    Below-next base below no_fit (k, lt, e) b (j, lt', e') le = elim (ℕ_discrete b base) [
      | yes same ↦ subst (λ x. ¬ Fits can_bind spans x) (sym same) no_fit
      | no other ↦ below b (j, lt', e') (omega arith)
    ]

    block_step : (k : ℕ) → base_port + block_size * k + block_size ≡ base_port + block_size * suc k
    block_step k = omega arith

    scan-FirstFit :
        (rounds k : ℕ)
        → rounds + k ≡ block_count + 1
        → k ≤ block_count
        → Below (base_port + block_size * k)
        → FirstFit can_bind spans (scan can_bind spans rounds (base_port + block_size * k)).0
    unfolding scan
    scan-FirstFit zero k e le below = absurd (omega arith)
    scan-FirstFit (suc rounds) k e le below =
        let base : ℕ = base_port + block_size * k in
        elim (Bool-cases (ltb base ceiling)) [
          | inr over ↦ rw over (full (λ b (j, lt, e') f. below b (j, lt, e') (ground arith) f))
          | inl under ↦
              let here : IsBlock base = (k, ground arith, refl) in
              elim (Option-cases (skip_of can_bind spans base)) [
                | inl fits ↦ rw (under, fits) (found base here (no_skip-Fits base fits) below)
                | inr (s, skipped) ↦
                    rw (under, skipped)
                      (rw (block_step k) (
                        scan-FirstFit rounds (suc k) (omega arith) (ground arith) (
                          subst Below (block_step k)
                            (Below-next base below (skip-not-Fits base s skipped) here))))
              ]
        ]

-- For each environment and each content of the store, the allocator returns the lowest block that
-- overlaps no block of another environment and whose ports can all be bound, or says that none is
-- left where no block does; its loop always finishes.
pub allocate-FirstFit :
    (can_bind : ℕ → Bool) (env_id : ℕ) (es : List EnvRow)
    → FirstFit can_bind (taken env_id es) (allocate can_bind env_id (rows es)).0
unfolding allocate
allocate-FirstFit can_bind env_id es =
    scan-FirstFit can_bind (taken env_id es) (block_count + 1) 0 (omega arith) (omega arith)
      (λ b (k, lt, e) le. absurd (omega arith))
