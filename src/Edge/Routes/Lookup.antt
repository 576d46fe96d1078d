-- ===== src/Edge/Routes/Lookup.antt =====
-- What Put and Remove change in the table of internal/edge/edge.go.
use caramelo.Common.{
  ◌≡◌, ◌≢◌, refl, subst, ◌∙◌, inl, inr, true, false, List, [], ◌∷◌, none, some, arith, ◌==◌,
  bytes_eq, Bytes, if◌then◌else◌, any, All, Bool-cases,
}
use caramelo.Edge.{Route, Table}
use caramelo.Edge.Host.{normalize_host}
use caramelo.Edge.Routes.{route_at, route, has, put_route, put, remove_route, remove}

-- Each host once.
abbrev pub Distinct : List Route → Type 0
Distinct [] = Unit {0}
Distinct (r ∷ rs) = All (λ (x : Route). x.host ≢ r.host) rs × Distinct rs

route_at-put_route :
    (host : Bytes) (r : Route) (rs : List Route)
    → route_at host (put_route r rs) ≡ (if r.host == host then some r else route_at host rs)
unfolding route_at put_route
route_at-put_route host r [] = refl
route_at-put_route host r (x ∷ xs) = ground (
  arith,
  bytes_eq.same_iff x.host r.host,
  bytes_eq.same_iff x.host host,
  bytes_eq.same_iff r.host host,
  route_at-put_route host r xs,
)

-- After a Put, its host has the route that was put, under its normal host, and every other host has
-- what it had.
pub route-put :
    (t : Table) (r : Route) (host : Bytes)
    → route (put t r) host ≡ (
        if normalize_host r.host == normalize_host host
        then some (record r { host = normalize_host r.host })
        else route t host)
unfolding route put
route-put t r host =
    route_at-put_route (normalize_host host) (record r { host = normalize_host r.host }) t.routes

route_at-absent :
    (host : Bytes) (rs : List Route)
    → All (λ (x : Route). x.host ≢ host) rs
    → route_at host rs ≡ none
unfolding route_at
route_at-absent host [] a = refl
route_at-absent host (x ∷ xs) a =
    ground (arith, bytes_eq.same_iff x.host host, a.0, route_at-absent host xs a.1)

route_at-remove_route :
    (gone host : Bytes) (rs : List Route)
    → Distinct rs
    → route_at host (remove_route gone rs) ≡ (if gone == host then none else route_at host rs)
unfolding route_at remove_route
route_at-remove_route gone host [] d = ground arith
route_at-remove_route gone host (x ∷ xs) d = elim (Bool-cases (x.host == gone)) [
  | inl hit ↦ elim (Bool-cases (gone == host)) [
    | inl same ↦
        let here : x.host ≡ host =
          (bytes_eq.same_iff x.host gone).0 hit ∙ (bytes_eq.same_iff gone host).0 same in
        rw (hit, same)
          (route_at-absent host xs (subst (λ h. All (λ (y : Route). y.host ≢ h) xs) here d.0))
    | inr other ↦ ground (
      arith,
      bytes_eq.same_iff x.host gone,
      bytes_eq.same_iff x.host host,
      bytes_eq.same_iff gone host,
    )
  ]
  | inr miss ↦ ground (
    arith,
    bytes_eq.same_iff x.host gone,
    bytes_eq.same_iff x.host host,
    bytes_eq.same_iff gone host,
    route_at-remove_route gone host xs d.1,
  )
]

has_host :
    (host : Bytes) (rs : List Route)
    → any (λ (r : Route). r.host == host) rs
      ≡ (elim (route_at host rs) [ none ↦ false | some r ↦ true ])
unfolding route_at
has_host host [] = refl
has_host host (x ∷ xs) = ground (arith, has_host host xs)

-- After a Remove from a table that has each host once, the host has no route and every other host
-- has what it had, and Remove says whether there was one.
pub route-remove :
    (t : Table) (gone host : Bytes)
    → Distinct t.routes
    → (route (remove t gone).0 host
        ≡ (if normalize_host gone == normalize_host host then none else route t host))
      × ((remove t gone).1 ≡ has t gone)
unfolding route remove has
route-remove t gone host d = (
  route_at-remove_route (normalize_host gone) (normalize_host host) t.routes d,
  has_host (normalize_host gone) t.routes,
)
