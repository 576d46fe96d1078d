-- ===== src/Tests/Routes.antt =====
-- The routing table of internal/edge/edge.go on concrete tables.
use caramelo.Common.{
  ℕ, ◌+◌, ◌≡◌, refl, List, [], ◌∷◌, none, some, codes, Bytes, All, true, false, bytes_eq, bytes_beq,
  ◌≢◌, ◌↔◌,
}
use caramelo.Edge.{known, supported, valid_state, Route, Table, Target, https, via, active}
use caramelo.Edge.Host.{normalize_host}
use caramelo.Edge.Routes.{
  seen_host, seen_replica, route_at, route, has, put, remove, put_route, remove_route, validate,
  duplicate_host,
}
use caramelo.Edge.Routes.Valid.{IsValidRoute, DistinctHosts}
use caramelo.Edge.Routes.Accepts.{validate_iff}
use caramelo.Edge.Routes.Refines.{
  TableCall, puts, removes, run, answers, run_on, answers_on, Holds, run-Holds,
}
use caramelo.Edge.Routes.Kept.{IsNormal, run-accepted}

abbrev site : Bytes → List Target → Route
site host targets = record {
  host = host;
  kind = https;
  app = codes "shop";
  env = codes "main";
  service = codes "web";
  targets = targets;
  via = [];
  drain = 0;
  created_at = 0;
}

abbrev port_of : ℕ → Target
port_of replica = record {
  replica = replica;
  port = 20000 + replica;
  state = active;
  inflight = 0;
  since = 0;
  detail = [];
}

abbrev relayed : Route
relayed = record (site (codes "b.example") []) { kind = via; via = codes "builder" }

abbrev table_of : List Route → Table
table_of rs = record { routes = rs; ingress = none; updated_at = 0 }

abbrev two_routes : Table
two_routes = table_of (site (codes "a.example") (port_of 1 ∷ port_of 2 ∷ []) ∷ relayed ∷ [])

accepts_two : validate two_routes ≡ none
unfolding validate normalize_host seen_host known supported seen_replica valid_state
accepts_two = refl

refuses_twice :
    validate (table_of (site (codes "A.example.") [] ∷ site (codes "a.example") [] ∷ []))
    ≡ some (duplicate_host (codes "a.example"))
unfolding validate normalize_host seen_host known supported
refuses_twice = refl

validate_iff_example :
    (validate two_routes ≡ none)
    ↔ (All IsValidRoute two_routes.routes × DistinctHosts two_routes.routes)
validate_iff_example = validate_iff two_routes

found_by_other_spelling : has two_routes (codes "B.Example.") ≡ true
unfolding has route_at bytes_beq normalize_host
found_by_other_spelling = refl

apart : codes "b.example" ≢ codes "a.example"
unfolding bytes_beq
apart e =
    let same : false ≡ true = (bytes_eq.same_iff (codes "b.example") (codes "a.example")).1 e in cc

abbrev some_calls : List TableCall
some_calls =
    puts (site (codes "B.example") [])
    ∷ removes (codes "A.example")
    ∷ removes (codes "a.example.")
    ∷ []

says_once : answers two_routes some_calls ≡ true ∷ false ∷ []
unfolding put remove put_route remove_route normalize_host bytes_beq
says_once = refl

run-Holds_example :
    Holds (run two_routes some_calls) (run_on (route two_routes) some_calls)
    × (answers two_routes some_calls ≡ answers_on (route two_routes) some_calls)
run-Holds_example =
    run-Holds two_routes (route two_routes) some_calls
      (record { once = ((apart, tt), (tt, tt)); same = λ host. refl })

abbrev third : Route
third = site (codes "C.example.") (port_of 1 ∷ [])

accepts_third : validate (table_of (third ∷ [])) ≡ none
unfolding validate normalize_host seen_host known supported seen_replica valid_state
accepts_third = refl

two_routes-IsNormal : All IsNormal two_routes.routes
unfolding normalize_host
two_routes-IsNormal = (refl, (refl, tt))

third_final :
    normalize_host (normalize_host (codes "C.example.")) ≡ normalize_host (codes "C.example.")
unfolding normalize_host
third_final = refl

abbrev third_calls : List TableCall
third_calls = removes (codes "a.example") ∷ puts third ∷ []

run-accepted_example :
    (validate (run two_routes third_calls) ≡ none)
    × All IsNormal (run two_routes third_calls).routes
run-accepted_example =
    run-accepted two_routes third_calls accepts_two two_routes-IsNormal
      (tt, ((((validate_iff (table_of (third ∷ []))).0 accepts_third).0.0, third_final), tt))

-- A host with two dots at its end keeps one, which Validate takes off.
two_dots :
    validate (
      run
        (table_of [])
        (puts (site (codes "a.example..") []) ∷ puts (site (codes "a.example") []) ∷ []))
    ≡ some (duplicate_host (codes "a.example"))
unfolding validate put put_route normalize_host seen_host known supported
two_dots = refl
