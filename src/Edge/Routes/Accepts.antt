-- ===== src/Edge/Routes/Accepts.antt =====
-- Which tables Validate of internal/edge/edge.go accepts.
use caramelo.Common.{
  ℕ, ◌≡◌, ◌≢◌, ◌↔◌, refl, inl, inr, true, false, List, [], ◌∷◌, none, arith, nat_eq, bytes_eq,
  Bytes, All,
}
use caramelo.Edge.{Target, Route, Table, via, kind_eq, known, supported}
use caramelo.Edge.Host.{normalize_host}
use caramelo.Edge.Routes.{
  seen_host, seen_replica, route_problem, target_problem, targets_problem, routes_problem, validate,
}
use caramelo.Edge.Routes.Valid.{
  IsValidTarget, DistinctReplicas, IsValidRoute, DistinctHosts, is_blank_iff, validate_sound,
}

All-both {ℓ κ μ} :
    {A : Type ℓ} (P : A → Type κ) (Q : A → Type μ) (xs : List A)
    → All P xs
    → All Q xs
    → All (λ x. P x × Q x) xs
All-both P Q [] p q = tt
All-both P Q (x ∷ xs) p q = ((p.0, q.0), All-both P Q xs p.1 q.1)

All-tt {ℓ} : {A : Type ℓ} (xs : List A) → All (λ x. Unit {0}) xs
All-tt [] = tt
All-tt (x ∷ xs) = (tt, All-tt xs)

replica_unseen : (seen : List ℕ) (i : ℕ) → All (λ j. j ≢ i) seen → seen_replica seen i ≡ false
unfolding seen_replica
replica_unseen [] i a = refl
replica_unseen (j ∷ seen) i a = ground (arith, a.0, replica_unseen seen i a.1)

host_unseen : (seen : List Bytes) (h : Bytes) → All (λ g. g ≢ h) seen → seen_host seen h ≡ false
unfolding seen_host
host_unseen [] h a = refl
host_unseen (g ∷ seen) h a = ground (arith, a.0, bytes_eq.same_iff g h, host_unseen seen h a.1)

target_complete :
    (seen : List ℕ) (host : Bytes) (tg : Target)
    → IsValidTarget tg
    → seen_replica seen tg.replica ≡ false
    → target_problem seen host tg ≡ none
unfolding target_problem
target_complete seen host tg v fresh = ground arith

targets_complete :
    (seen : List ℕ) (host : Bytes) (tgs : List Target)
    → All IsValidTarget tgs
    → All (λ (x : Target). All (λ j. j ≢ x.replica) seen) tgs
    → DistinctReplicas tgs
    → targets_problem seen host tgs ≡ none
unfolding targets_problem
targets_complete seen host [] v fresh d = refl
targets_complete seen host (tg ∷ tgs) v fresh d =
    let rest : targets_problem (tg.replica ∷ seen) host tgs ≡ none =
      targets_complete (tg.replica ∷ seen) host tgs v.1 (All-both _ _ tgs d.0 fresh.1) d.1 in
    let this : target_problem seen host tg ≡ none =
      target_complete seen host tg v.0 (replica_unseen seen tg.replica fresh.0) in
    rw (this, rest) refl

kind_known : (r : Route) → IsValidRoute r → (known r.kind ≡ true) × (supported r.kind ≡ true)
unfolding known supported
kind_known r v = elim v.kind_of [
  | inl secure ↦ rw secure (refl, refl)
  | inr relayed ↦ rw relayed (refl, refl)
]

route_complete :
    (seen : List Bytes) (r : Route)
    → IsValidRoute r
    → seen_host seen (normalize_host r.host) ≡ false
    → route_problem seen (normalize_host r.host) r ≡ none
unfolding route_problem
route_complete seen r v fresh = ground (
  arith,
  kind_known r v,
  is_blank_iff (normalize_host r.host),
  is_blank_iff r.via,
  kind_eq.same_iff r.kind via,
)

routes_complete :
    (seen : List Bytes) (rs : List Route)
    → All IsValidRoute rs
    → All (λ (x : Route). All (λ h. h ≢ normalize_host x.host) seen) rs
    → DistinctHosts rs
    → routes_problem seen rs ≡ none
unfolding routes_problem
routes_complete seen [] v fresh d = refl
routes_complete seen (r ∷ rs) v fresh d =
    let host = normalize_host r.host in
    let this : route_problem seen host r ≡ none =
      route_complete seen r v.0 (host_unseen seen host fresh.0) in
    let inner : targets_problem [] host r.targets ≡ none =
      targets_complete [] host r.targets (v.0).each_target (All-tt r.targets) (v.0).replicas in
    let rest : routes_problem (host ∷ seen) rs ≡ none =
      routes_complete (host ∷ seen) rs v.1 (All-both _ _ rs d.0 fresh.1) d.1 in
    rw (this, inner, rest) refl

-- Validate accepts a table exactly if every route has a host that is not empty in normal form and no
-- other route's, a kind that is https or via, and a machine exactly if it is via, and its targets
-- have distinct replicas of at least 1, ports from 1 to 65535 and states that have a name.
pub validate_iff :
    (t : Table) → (validate t ≡ none) ↔ (All IsValidRoute t.routes × DistinctHosts t.routes)
unfolding validate
validate_iff t = (
  validate_sound t,
  λ (valids, distinct). routes_complete [] t.routes valids (All-tt t.routes) distinct,
)
