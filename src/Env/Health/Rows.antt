-- ===== src/Env/Health/Rows.antt =====
-- What the health loop writes to the rows of a service's routes (internal/env/health_loop.go).
use caramelo.Common.{
  ℕ, ◌≡◌, refl, subst, ◌⊎◌, sym, ◌∙◌, inl, inr, Bool, true, false, not, List, [], ◌∷◌, Option, none,
  some, arith, ◌==◌, nat_eq, bytes_eq, Bytes, if◌then◌else◌, All, Bool-cases,
}
use caramelo.Edge.{TargetState, state_eq}
use caramelo.Env.Health.Targets.{
  HealthError, TargetRow, RouteRow, set_target_state, set_rows, to_set, after_rows, SetTargets,
  also_changed, SetRows,
}

-- The replica's rows have the state, but for those that are held.
abbrev pub Moved : Bytes → ℕ → TargetState → RouteRow → Type 0
Moved service replica want r =
    r.service ≡ service
    → All (λ (t : TargetRow). t.replica ≡ replica → (t.state ≡ want) ⊎ (t.state ≡ TargetState.held))
        r.targets

kept_state :
    (replica : ℕ) (want : TargetState) (t : TargetRow)
    → to_set replica want t ≡ false
    → t.replica ≡ replica
    → (t.state ≡ want) ⊎ (t.state ≡ TargetState.held)
unfolding to_set
kept_state replica want t left mine = elim (Bool-cases (t.state == want)) [
  | inl same ↦ inl ((state_eq.same_iff t.state want).0 same)
  | inr other ↦ inr (
      (state_eq.same_iff t.state TargetState.held).0
        (ground (arith, nat_eq.same_iff t.replica replica)))
]

set_rows-state :
    (replica : ℕ) (want : TargetState) (ts : List TargetRow)
    → (set_rows replica want ts).error ≡ none
    → All
        (λ (t : TargetRow). t.replica ≡ replica → (t.state ≡ want) ⊎ (t.state ≡ TargetState.held))
        (set_rows replica want ts).targets
unfolding set_rows
set_rows-state replica want [] ok_ = tt
set_rows-state replica want (t ∷ ts) ok_ =
    let rest = set_rows-state replica want ts in
    elim (Bool-cases (to_set replica want t)) [
      | inl set ↦ elim (Bool-cases t.writable) [
        | inl taken ↦
            let later = rw (set, taken, set_rows) at ok_ in
            rw (set, taken, set_rows) ((λ mine. inl refl), rest later)
        | inr refused ↦ (let e = rw (set, refused, set_rows) at ok_ in cc)
      ]
      | inr left ↦
          let later = rw (left, set_rows) at ok_ in
          rw (left, set_rows) ((λ mine. kept_state replica want t left mine), rest later)
    ]

differ_of : (b : Bool) → b ≡ false → b ≡ true → ⊥
differ_of b no_ yes_ = cc

after_rows_lem :
    (r : RouteRow) (rs : List RouteRow) (s : SetTargets) (rest : SetRows)
    → s.error ≡ none
    → after_rows r rs s rest ≡ also_changed (record r { targets = s.targets }) s.changed rest
unfolding after_rows
after_rows_lem r rs s rest e = rw (e, after_rows) refl

after_rows-ok :
    (r : RouteRow) (rs : List RouteRow) (s : SetTargets) (rest : SetRows)
    → (after_rows r rs s rest).error ≡ none
    → (s.error ≡ none) × (rest.error ≡ none)
unfolding after_rows also_changed
after_rows-ok r rs s rest e = go s.error refl
  where
    go : (found : Option HealthError) → s.error ≡ found → (s.error ≡ none) × (rest.error ≡ none)
    go none same = (same, (let out = rw (same, after_rows) at e in out))
    go (some bad) same = (let out = rw (same, after_rows) at e in cc)

if_not {ℓ} : {A : Type ℓ} → (b : Bool) → (x y : A) → b ≡ true → (if not b then x else y) ≡ y
if_not true x y e = refl
if_not false x y e = cc

set_target_state-here :
    (service : Bytes) (replica : ℕ) (want : TargetState) (r : RouteRow) (rs : List RouteRow)
    → (r.service == service) ≡ true
    → r.readable ≡ true
    → set_target_state service replica want (r ∷ rs)
      ≡ after_rows r rs (set_rows replica want r.targets) (set_target_state service replica want rs)
unfolding set_target_state
set_target_state-here service replica want r rs here readable =
    if_not (r.service == service) _ _ here ∙ if_not r.readable _ _ readable

pub set_target_state-Moved :
    (service : Bytes) (replica : ℕ) (want : TargetState) (routes : List RouteRow)
    → (set_target_state service replica want routes).error ≡ none
    → All (Moved service replica want) (set_target_state service replica want routes).routes
unfolding set_target_state also_changed
set_target_state-Moved service replica want [] ok_ = tt
set_target_state-Moved service replica want (r ∷ rs) ok_ =
    let rest = set_target_state-Moved service replica want rs in
    elim (Bool-cases (r.service == service)) [
      | inr other ↦
          let later = rw (other, set_target_state) at ok_ in
          rw (other, set_target_state)
            (
              (λ mine. absurd (
                  differ_of (r.service == service) other
                    ((bytes_eq.same_iff r.service service).1 mine))),
              rest later,
            )
      | inl here ↦ elim (Bool-cases r.readable) [
        | inr unread ↦ (let e = rw (here, unread, set_target_state) at ok_ in cc)
        | inl readable ↦
            let set = set_rows replica want r.targets in
            let more = set_target_state service replica want rs in
            let same = set_target_state-here service replica want r rs here readable in
            let ok_rows =
              after_rows-ok r rs set more (subst (λ (s : SetRows). s.error ≡ none) same ok_) in
            subst (λ (s : SetRows). All (Moved service replica want) s.routes)
              (sym (same ∙ after_rows_lem r rs set more ok_rows.0))
              ((λ mine. set_rows-state replica want r.targets ok_rows.0), rest ok_rows.1)
      ]
    ]
