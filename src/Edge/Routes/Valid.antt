-- ===== src/Edge/Routes/Valid.antt =====
-- What Validate of internal/edge/edge.go accepts.
use caramelo.Common.{
  ℕ, ◌≤◌, ◌≡◌, ◌≢◌, ◌↔◌, refl, ◌⊎◌, inl, inr, true, false, not, ◌&&◌, List, [], ◌∷◌, Option, none,
  some, arith, ◌==◌, nat_eq, bytes_eq, Bytes, All, All-mono, Bool-cases,
}
use caramelo.Edge.{Target, Route, Table, https, via, kind_eq, supported, valid_state}
use caramelo.Edge.Host.{normalize_host}
use caramelo.Edge.Routes.{
  TableError, is_blank, seen_host, seen_replica, route_problem, target_problem, first_problem,
  targets_problem, routes_problem, validate,
}

pub record IsValidTarget (tg : Target) : Type 0 where
  pub replica_pos : 1 ≤ tg.replica
  pub port_pos : 1 ≤ tg.port
  pub port_le : tg.port ≤ 65535
  pub named_state : valid_state tg.state ≡ true

abbrev pub DistinctReplicas : List Target → Type 0
DistinctReplicas [] = Unit {0}
DistinctReplicas (t ∷ ts) = All (λ (x : Target). t.replica ≢ x.replica) ts × DistinctReplicas ts

pub record IsValidRoute (r : Route) : Type 0 where
  pub has_host : normalize_host r.host ≢ []
  pub kind_of : (r.kind ≡ https) ⊎ (r.kind ≡ via)
  pub machine : (r.kind ≡ via) ↔ (r.via ≢ [])
  pub each_target : All IsValidTarget r.targets
  pub replicas : DistinctReplicas r.targets

abbrev pub DistinctHosts : List Route → Type 0
DistinctHosts [] = Unit {0}
DistinctHosts (r ∷ rs) =
    All (λ (x : Route). normalize_host r.host ≢ normalize_host x.host) rs × DistinctHosts rs

pub is_blank_iff : (s : Bytes) → (is_blank s ≡ true) ↔ (s ≡ [])
unfolding is_blank
is_blank_iff [] = (λ _. refl, λ _. refl)
is_blank_iff (c ∷ s) = (λ e. cc, λ e. cc)

first_problem-none : (a b : Option TableError) → first_problem a b ≡ none → (a ≡ none) × (b ≡ none)
first_problem-none none b e = (refl, e)
first_problem-none (some x) b e = cc

unseen_replica : (seen : List ℕ) (i : ℕ) → seen_replica seen i ≡ false → All (λ j. j ≢ i) seen
unfolding seen_replica
unseen_replica [] i e = tt
unseen_replica (j ∷ seen) i e = (λ same. ground (arith, same), unseen_replica seen i (ground arith))

unseen_host : (seen : List Bytes) (h : Bytes) → seen_host seen h ≡ false → All (λ g. g ≢ h) seen
unfolding seen_host
unseen_host [] h e = tt
unseen_host (g ∷ seen) h e =
    (λ same. ground (arith, bytes_eq.same_iff g h), unseen_host seen h (ground arith))

target_sound :
    (seen : List ℕ) (host : Bytes) (tg : Target)
    → target_problem seen host tg ≡ none
    → IsValidTarget tg × (seen_replica seen tg.replica ≡ false)
unfolding target_problem
target_sound seen host tg e = (
  record {
    replica_pos = ground arith;
    port_pos = ground arith;
    port_le = ground arith;
    named_state = ground arith;
  },
  ground arith,
)

targets_sound :
    (seen : List ℕ) (host : Bytes) (tgs : List Target)
    → targets_problem seen host tgs ≡ none
    → All IsValidTarget tgs
      × All (λ (x : Target). All (λ j. j ≢ x.replica) seen) tgs
      × DistinctReplicas tgs
unfolding targets_problem
targets_sound seen host [] e = (tt, tt, tt)
targets_sound seen host (tg ∷ tgs) e =
    let both = first_problem-none (target_problem seen host tg) _ e in
    let (valid, fresh) = target_sound seen host tg both.0 in
    let (valids, freshs, distinct) = targets_sound (tg.replica ∷ seen) host tgs both.1 in
    (
      (valid, valids),
      (unseen_replica seen tg.replica fresh, All-mono (λ x a. a.1) tgs freshs),
      (All-mono (λ x a. a.0) tgs freshs, distinct),
    )

kind_of_guards : (r : Route) → supported r.kind ≡ true → (r.kind ≡ https) ⊎ (r.kind ≡ via)
unfolding supported
kind_of_guards r e = elim (Bool-cases (r.kind == https)) [
  | inl secure ↦ inl ((kind_eq.same_iff r.kind https).0 secure)
  | inr plain ↦ inr ((kind_eq.same_iff r.kind via).0 (ground arith))
]

machine_of_guards :
    (r : Route)
    → (r.kind == via) && is_blank r.via ≡ false
    → not (r.kind == via) && not (is_blank r.via) ≡ false
    → (r.kind ≡ via) ↔ (r.via ≢ [])
machine_of_guards r a b = (
  λ k empty. ground (arith, is_blank_iff r.via, kind_eq.same_iff r.kind via),
  λ filled. ground (arith, is_blank_iff r.via, kind_eq.same_iff r.kind via),
)

route_sound :
    (seen : List Bytes) (r : Route)
    → route_problem seen (normalize_host r.host) r ≡ none
    → (normalize_host r.host ≢ [])
      × ((r.kind ≡ https) ⊎ (r.kind ≡ via))
      × ((r.kind ≡ via) ↔ (r.via ≢ []))
      × (seen_host seen (normalize_host r.host) ≡ false)
unfolding route_problem supported
route_sound seen r e = (
  λ blank. ground (arith, is_blank_iff (normalize_host r.host)),
  kind_of_guards r (ground arith),
  machine_of_guards r (ground arith) (ground arith),
  ground arith,
)

routes_sound :
    (seen : List Bytes) (rs : List Route)
    → routes_problem seen rs ≡ none
    → All IsValidRoute rs
      × All (λ (x : Route). All (λ h. h ≢ normalize_host x.host) seen) rs
      × DistinctHosts rs
unfolding routes_problem
routes_sound seen [] e = (tt, tt, tt)
routes_sound seen (r ∷ rs) e =
    let host = normalize_host r.host in
    let outer = first_problem-none (route_problem seen host r) _ e in
    let inner = first_problem-none (targets_problem [] host r.targets) _ outer.1 in
    let (named, kind, machine, fresh) = route_sound seen r outer.0 in
    let (valid_targets, apart, distinct) = targets_sound [] host r.targets inner.0 in
    let (valids, freshs, distincts) = routes_sound (host ∷ seen) rs inner.1 in
    (
      (
        record {
          has_host = named;
          kind_of = kind;
          machine = machine;
          each_target = valid_targets;
          replicas = distinct;
        },
        valids,
      ),
      (unseen_host seen host fresh, All-mono (λ x a. a.1) rs freshs),
      (All-mono (λ x a. a.0) rs freshs, distincts),
    )

-- In a table that Validate accepts, every route has a host that is not empty in normal form and no
-- other route's, a kind that is https or via, and a machine exactly if it is via; its targets have
-- distinct replicas of at least 1, ports from 1 to 65535 and states that have a name.
pub validate_sound :
    (t : Table) → validate t ≡ none → All IsValidRoute t.routes × DistinctHosts t.routes
unfolding validate
validate_sound t e =
    let (valids, freshs, distincts) = routes_sound [] t.routes e in (valids, distincts)
