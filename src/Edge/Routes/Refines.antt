-- ===== src/Edge/Routes/Refines.antt =====
-- The table of internal/edge/edge.go as a map from hosts to routes.
use caramelo.Common.{
  ◌≡◌, ◌≢◌, refl, sym, inl, inr, Bool, true, false, List, [], ◌∷◌, Option, none, some, arith, ◌==◌,
  bytes_eq, Bytes, if◌then◌else◌, All, Bool-cases,
}
use caramelo.Edge.{Route, Table}
use caramelo.Edge.Host.{normalize_host}
use caramelo.Edge.Routes.{route, has, put_route, put, remove_route, remove}
use caramelo.Edge.Routes.Lookup.{Distinct, route-put, route-remove}

pub data TableCall : Type 0 where
  puts : Route → TableCall
  removes : Bytes → TableCall

abbrev pub called : Table → TableCall → Table
called t (puts r) = put t r
called t (removes host) = (remove t host).0

abbrev pub run : Table → List TableCall → Table
run t [] = t
run t (c ∷ cs) = run (called t c) cs

-- What each Remove says.
abbrev pub answers : Table → List TableCall → List Bool
answers t [] = []
answers t (puts r ∷ cs) = answers (put t r) cs
answers t (removes host ∷ cs) = (remove t host).1 ∷ answers (remove t host).0 cs

-- The map, which is written at the normal form of a host.
abbrev pub RouteMap : Type 0
RouteMap = Bytes → Option Route

abbrev pub written : RouteMap → Bytes → Option Route → RouteMap
written f key new host = if normalize_host key == normalize_host host then new else f host

abbrev pub called_on : RouteMap → TableCall → RouteMap
called_on f (puts r) = written f r.host (some (record r { host = normalize_host r.host }))
called_on f (removes host) = written f host none

abbrev pub run_on : RouteMap → List TableCall → RouteMap
run_on f [] = f
run_on f (c ∷ cs) = run_on (called_on f c) cs

abbrev is_some : Option Route → Bool
is_some none = false
is_some (some r) = true

abbrev pub answers_on : RouteMap → List TableCall → List Bool
answers_on f [] = []
answers_on f (puts r ∷ cs) = answers_on (called_on f (puts r)) cs
answers_on f (removes host ∷ cs) = is_some (f host) ∷ answers_on (called_on f (removes host)) cs

module _ {ℓ} (P : Route → Type ℓ) where
  pub put_route-All : (r : Route) (rs : List Route) → P r → All P rs → All P (put_route r rs)
  unfolding put_route
  put_route-All r [] new a = (new, tt)
  put_route-All r (x ∷ xs) new a = elim (Bool-cases (x.host == r.host)) [
    | inl hit ↦ rw hit (new, a.1)
    | inr miss ↦ rw miss (a.0, put_route-All r xs new a.1)
  ]

  pub remove_route-All : (gone : Bytes) (rs : List Route) → All P rs → All P (remove_route gone rs)
  unfolding remove_route
  remove_route-All gone [] a = tt
  remove_route-All gone (x ∷ xs) a = elim (Bool-cases (x.host == gone)) [
    | inl hit ↦ rw hit a.1
    | inr miss ↦ rw miss (a.0, remove_route-All gone xs a.1)
  ]

put_route-Distinct : (r : Route) (rs : List Route) → Distinct rs → Distinct (put_route r rs)
unfolding put_route
put_route-Distinct r [] d = (tt, tt)
put_route-Distinct r (x ∷ xs) d = elim (Bool-cases (x.host == r.host)) [
  | inl hit ↦
      let same : x.host ≡ r.host = (bytes_eq.same_iff x.host r.host).0 hit in
      rw hit (rw (sym same) d)
  | inr miss ↦ rw miss (
    put_route-All (λ y. y.host ≢ x.host) r xs
        (λ e. ground (arith, bytes_eq.same_iff x.host r.host, e)) d.0,
    put_route-Distinct r xs d.1,
  )
]

remove_route-Distinct :
    (gone : Bytes) (rs : List Route) → Distinct rs → Distinct (remove_route gone rs)
unfolding remove_route
remove_route-Distinct gone [] d = tt
remove_route-Distinct gone (x ∷ xs) d = elim (Bool-cases (x.host == gone)) [
  | inl hit ↦ rw hit d.1
  | inr miss ↦
      rw miss
        (remove_route-All (λ y. y.host ≢ x.host) gone xs d.0, remove_route-Distinct gone xs d.1)
]

pub called-Distinct : (t : Table) (c : TableCall) → Distinct t.routes → Distinct (called t c).routes
unfolding put remove
called-Distinct t (puts r) d =
    put_route-Distinct (record r { host = normalize_host r.host }) t.routes d
called-Distinct t (removes host) d = remove_route-Distinct (normalize_host host) t.routes d

-- A table that has each host once, and a map that has the table's routes.
pub record Holds (t : Table) (f : RouteMap) : Type 0 where
  pub once : Distinct t.routes
  pub same : (host : Bytes) → route t host ≡ f host

called-Holds :
    (t : Table) (f : RouteMap) (c : TableCall) → Holds t f → Holds (called t c) (called_on f c)
called-Holds t f (puts r) h = record {
  once = called-Distinct t (puts r) h.once;
  same = λ host. rw (route-put t r host, h.same host) refl;
}
called-Holds t f (removes gone) h = record {
  once = called-Distinct t (removes gone) h.once;
  same = λ host. rw ((route-remove t gone host h.once).0, h.same host) refl;
}

has-Holds : (t : Table) (f : RouteMap) (host : Bytes) → Holds t f → has t host ≡ is_some (f host)
unfolding has
has-Holds t f host h = rw (h.same host, has) refl

-- Whatever is put into a table that has each host once and removed from it, its routes are those of a
-- map from hosts, in normal form, to routes, on which the same is done; each Remove says whether the
-- map has the host, and the table still has each host once.
pub run-Holds :
    (t : Table) (f : RouteMap) (cs : List TableCall)
    → Holds t f
    → Holds (run t cs) (run_on f cs) × (answers t cs ≡ answers_on f cs)
run-Holds t f [] h = (h, refl)
run-Holds t f (puts r ∷ cs) h =
    run-Holds (put t r) (called_on f (puts r)) cs (called-Holds t f (puts r) h)
run-Holds t f (removes gone ∷ cs) h =
    let next = called-Holds t f (removes gone) h in
    let rest = run-Holds (remove t gone).0 (called_on f (removes gone)) cs next in
    (rest.0, rw ((route-remove t gone gone h.once).1, has-Holds t f gone h, rest.1) refl)
