-- ===== src/Ports/Disjoint.antt =====
-- Two environments never share a port (internal/ports/ports.go).
use caramelo.Common.{
  ℕ, ◌≤◌, ◌<◌, ◌≡◌, ◌≢◌, ◌↔◌, Bool, true, false, List, [], ◌∷◌, arith, All, All-mono, Bool-cases,
  leb, inl, inr, if◌then◌else◌, subst,
}
use caramelo.Ports.{
  Span, size, end, overlaps, EnvRow, rows, Found, at, taken, passed_by, candidate, allocate,
}
use caramelo.Ports.FirstFit.{Fits, FirstFit, found, full, allocate-FirstFit}

abbrev pub Covers : Span → ℕ → Type 0
Covers s p = (s.base ≤ p) × (p < end s)

-- `Overlaps` holds of two spans exactly when some port lies in both.
pub overlaps_iff : (s t : Span) → (overlaps s t ≡ true) ↔ ((p : ℕ) × Covers s p × Covers t p)
unfolding overlaps end size
overlaps_iff s t = (
  λ h. elim (Bool-cases (leb s.base t.base)) [
    | inl below ↦ (t.base, (ground arith, ground arith), (ground arith, ground arith))
    | inr above ↦ (s.base, (ground arith, ground arith), (ground arith, ground arith))
  ],
  λ (p, (hs, hs'), (ht, ht')). ground arith,
)

abbrev pub span_of : EnvRow → Span
span_of e = record { base = e.port_base; count = e.port_count }

not_passed_by :
    (env_id : ℕ) (e : EnvRow) → passed_by env_id e ≡ true → e.id ≢ env_id → e.port_base ≢ 0 → ⊥
unfolding passed_by
not_passed_by env_id e h other has_block = ground arith

-- The blocks of the other environments, as the allocator reads them.
taken-All {ℓ} :
    (P : Span → Type ℓ) (env_id : ℕ) (es : List EnvRow)
    → All P (taken env_id es)
    → All (λ e. e.id ≢ env_id → e.port_base ≢ 0 → P (span_of e)) es
unfolding taken
taken-All P env_id [] a = tt
taken-All P env_id (e ∷ es) a = elim (Bool-cases (passed_by env_id e)) [
  | inl skip ↦ (
    λ other has_block. absurd (not_passed_by env_id e skip other has_block),
    taken-All P env_id es
        (subst (λ b. All P (if b then taken env_id es else span_of e ∷ taken env_id es)) skip a),
  )
  | inr keep ↦
      let both =
        subst (λ b. All P (if b then taken env_id es else span_of e ∷ taken env_id es)) keep a in
      (λ other has_block. both.0, taken-All P env_id es both.1)
]

apart-Covers : (s c : Span) (p : ℕ) → overlaps s c ≡ false → Covers c p → ¬ Covers s p
apart-Covers s c p apart in_c in_s = cc ((overlaps_iff s c).1 (p, in_s, in_c))

FirstFit-Fits :
    (can_bind : ℕ → Bool) (spans : List Span) (f : Found) (b : ℕ)
    → f ≡ at b
    → FirstFit can_bind spans f
    → Fits can_bind spans b
FirstFit-Fits can_bind spans f b e (found b' blk fits lower) =
    subst (Fits can_bind spans) (ground arith) fits
FirstFit-Fits can_bind spans f b e (full none_fits) = absurd (cc)

-- No port of a block that the allocator hands out lies in the block of another environment.
pub allocate-apart :
    (can_bind : ℕ → Bool) (env_id b p : ℕ) (es : List EnvRow)
    → (allocate can_bind env_id (rows es)).0 ≡ at b
    → Covers (candidate b) p
    → All (λ e. e.id ≢ env_id → e.port_base ≢ 0 → ¬ Covers (span_of e) p) es
allocate-apart can_bind env_id b p es e in_block =
    taken-All (λ s. ¬ Covers s p) env_id es
      (All-mono (λ s apart. apart-Covers s (candidate b) p apart in_block) (taken env_id es)
        (FirstFit-Fits can_bind (taken env_id es) _ b e
          (allocate-FirstFit can_bind env_id es)).apart)
