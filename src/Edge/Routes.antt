-- ===== src/Edge/Routes.antt =====
-- The routing table of internal/edge/edge.go: Route, Has, Put, Remove and Validate.
pub mod Lookup
pub mod Refines
pub mod Valid
pub mod Accepts
pub mod Kept
use caramelo.Common.{
  ℕ, zero, suc, ◌+◌, ◌^◌, ◌≡◌, Bool, true, false, not, ◌&&◌, ◌||◌, List, [], ◌∷◌, ◌++◌, Option,
  none, some, ◌==◌, nat_eq, bytes_eq, Bytes, if◌then◌else◌, ltb, any, find?,
}
use caramelo.Edge.{
  Target, Route, Table, Kind, via, kind_eq, known, supported, valid_state, TargetState,
}
use caramelo.Edge.Host.{normalize_host}

unfoldable pub route_at : Bytes → List Route → Option Route
route_at host [] = none
route_at host (r ∷ rs) = if r.host == host then some r else route_at host rs

unfoldable pub route : Table → Bytes → Option Route
route t host = route_at (normalize_host host) t.routes

unfoldable pub has : Table → Bytes → Bool
unfolding route
has t host = elim (route t host) [ none ↦ false | some r ↦ true ]

unfoldable pub put_route : Route → List Route → List Route
put_route r [] = r ∷ []
put_route r (x ∷ xs) = if x.host == r.host then r ∷ xs else x ∷ put_route r xs

unfoldable pub put : Table → Route → Table
put t r = record t { routes = put_route (record r { host = normalize_host r.host }) t.routes }

unfoldable pub remove_route : Bytes → List Route → List Route
remove_route host [] = []
remove_route host (x ∷ xs) = if x.host == host then xs else x ∷ remove_route host xs

-- The new table, and whether a route was removed.
unfoldable pub remove : Table → Bytes → Table × Bool
remove t host =
    let wanted = normalize_host host in
    (
      record t { routes = remove_route wanted t.routes },
      any (λ (r : Route). r.host == wanted) t.routes,
    )

pub data TableError : Type 0 where
  no_host : TableError
  duplicate_host : Bytes → TableError
  unknown_kind : Bytes → Kind → TableError
  unsupported_kind : Bytes → Kind → TableError
  via_names_no_machine : Bytes → TableError
  only_via_has_machine : Bytes → Kind → TableError
  not_a_replica : Bytes → ℕ → TableError
  replica_twice : Bytes → ℕ → TableError
  port_out_of_range : Bytes → ℕ → ℕ → TableError
  unknown_target_state : Bytes → ℕ → TargetState → TableError

unfoldable pub is_blank : Bytes → Bool
is_blank [] = true
is_blank (c ∷ s) = false

-- The maps `seen` and `replicas`, of which only the keys matter, are lists.
unfoldable pub seen_host : List Bytes → Bytes → Bool
seen_host seen host = any (λ h. h == host) seen

unfoldable pub seen_replica : List ℕ → ℕ → Bool
seen_replica seen replica = any (λ i. i == replica) seen

unfoldable pub route_problem : List Bytes → Bytes → Route → Option TableError
unfolding is_blank
route_problem seen host r =
    if is_blank host
    then some no_host
    else if seen_host seen host
    then some (duplicate_host host)
    else if not (known r.kind)
    then some (unknown_kind host r.kind)
    else if not (supported r.kind)
    then some (unsupported_kind host r.kind)
    else if r.kind == via && is_blank r.via
    then some (via_names_no_machine host)
    else if not (r.kind == via) && not (is_blank r.via)
    then some (only_via_has_machine host r.kind)
    else none

unfoldable pub target_problem : List ℕ → Bytes → Target → Option TableError
target_problem seen host tg =
    if ltb tg.replica 1
    then some (not_a_replica host tg.replica)
    else if seen_replica seen tg.replica
    then some (replica_twice host tg.replica)
    else if ltb tg.port 1 || ltb 65535 tg.port
    then some (port_out_of_range host tg.replica tg.port)
    else if not (valid_state tg.state)
    then some (unknown_target_state host tg.replica tg.state)
    else none

-- The first problem of a list of checks.
abbrev pub first_problem : Option TableError → Option TableError → Option TableError
first_problem (some e) later = some e
first_problem none later = later

unfoldable pub targets_problem : List ℕ → Bytes → List Target → Option TableError
targets_problem seen host [] = none
targets_problem seen host (tg ∷ tgs) =
    first_problem (target_problem seen host tg) (targets_problem (tg.replica ∷ seen) host tgs)

unfoldable pub routes_problem : List Bytes → List Route → Option TableError
routes_problem seen [] = none
routes_problem seen (r ∷ rs) =
    let host = normalize_host r.host in
    first_problem (route_problem seen host r)
      (first_problem (targets_problem [] host r.targets) (routes_problem (host ∷ seen) rs))

-- `none` is Go's nil error.
unfoldable pub validate : Table → Option TableError
unfolding routes_problem targets_problem route_problem target_problem
validate t = routes_problem [] t.routes
