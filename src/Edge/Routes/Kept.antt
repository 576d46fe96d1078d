-- ===== src/Edge/Routes/Kept.antt =====
-- What Validate asks for, through Put and Remove (internal/edge/edge.go). NormalizeHost takes one
-- trailing dot off: a host with two is not in its final form, and is left out here.
use caramelo.Common.{◌≡◌, ◌≢◌, sym, ap, ◌∙◌, List, [], ◌∷◌, none, All, bytes_eq}
use caramelo.Edge.{Route, Table}
use caramelo.Edge.Host.{normalize_host}
use caramelo.Edge.Routes.{validate, put, remove}
use caramelo.Edge.Routes.Lookup.{Distinct}
use caramelo.Edge.Routes.Valid.{IsValidRoute, DistinctHosts}
use caramelo.Edge.Routes.Accepts.{validate_iff}
use caramelo.Edge.Routes.Refines.{
  TableCall, puts, removes, called, run, put_route-All, remove_route-All, called-Distinct,
}

-- The route is kept under its host's final form.
abbrev pub IsNormal : Route → Type 0
IsNormal r = normalize_host r.host ≡ r.host

-- A Put of a well formed route whose host has a final form.
abbrev pub GoodCall : TableCall → Type 0
GoodCall (puts r) =
    IsValidRoute r × (normalize_host (normalize_host r.host) ≡ normalize_host r.host)
GoodCall (removes host) = Unit

Distinct-DistinctHosts : (rs : List Route) → All IsNormal rs → Distinct rs → DistinctHosts rs
Distinct-DistinctHosts [] n d = tt
Distinct-DistinctHosts (r ∷ rs) n d = (apart rs n.1 d.0, Distinct-DistinctHosts rs n.1 d.1)
  where
    apart :
        (xs : List Route)
        → All IsNormal xs
        → All (λ (x : Route). x.host ≢ r.host) xs
        → All (λ (x : Route). normalize_host r.host ≢ normalize_host x.host) xs
    apart [] m a = tt
    apart (x ∷ xs) m a = (λ e. a.0 (sym m.0 ∙ sym e ∙ n.0), apart xs m.1 a.1)

DistinctHosts-Distinct : (rs : List Route) → DistinctHosts rs → Distinct rs
DistinctHosts-Distinct [] d = tt
DistinctHosts-Distinct (r ∷ rs) d = (apart rs d.0, DistinctHosts-Distinct rs d.1)
  where
    apart :
        (xs : List Route)
        → All (λ (x : Route). normalize_host r.host ≢ normalize_host x.host) xs
        → All (λ (x : Route). x.host ≢ r.host) xs
    apart [] a = tt
    apart (x ∷ xs) a = (λ e. a.0 (ap normalize_host (sym e)), apart xs a.1)

normal-IsValidRoute :
    (r : Route) → GoodCall (puts r) → IsValidRoute (record r { host = normalize_host r.host })
normal-IsValidRoute r (v, final) = record {
  has_host = λ e. v.has_host (sym final ∙ e);
  kind_of = v.kind_of;
  machine = v.machine;
  each_target = v.each_target;
  replicas = v.replicas;
}

record Fine (rs : List Route) : Type 0 where
  valid : All IsValidRoute rs
  normal : All IsNormal rs
  distinct : Distinct rs

called-Fine : (t : Table) (c : TableCall) → GoodCall c → Fine t.routes → Fine (called t c).routes
unfolding put remove
called-Fine t (puts r) good f = record {
  valid = put_route-All IsValidRoute _ t.routes (normal-IsValidRoute r good) f.valid;
  normal = put_route-All IsNormal _ t.routes good.1 f.normal;
  distinct = called-Distinct t (puts r) f.distinct;
}
called-Fine t (removes host) good f = record {
  valid = remove_route-All IsValidRoute _ t.routes f.valid;
  normal = remove_route-All IsNormal _ t.routes f.normal;
  distinct = called-Distinct t (removes host) f.distinct;
}

run-Fine :
    (t : Table) (cs : List TableCall) → All GoodCall cs → Fine t.routes → Fine (run t cs).routes
run-Fine t [] good f = f
run-Fine t (c ∷ cs) good f = run-Fine (called t c) cs good.1 (called-Fine t c good.0 f)

-- A table that Validate accepts and that keeps each route under its host's final form stays so,
-- whatever is removed from it, and whatever well formed routes are put into it whose hosts have a
-- final form, which normalizing again does not change.
pub run-accepted :
    (t : Table) (cs : List TableCall)
    → validate t ≡ none
    → All IsNormal t.routes
    → All GoodCall cs
    → (validate (run t cs) ≡ none) × All IsNormal (run t cs).routes
run-accepted t cs accepted normal good =
    let (valid, distinct) = (validate_iff t).0 accepted in
    let f = run-Fine t cs good (record {
      valid = valid;
      normal = normal;
      distinct = DistinctHosts-Distinct t.routes distinct;
    }) in
    (
      (validate_iff (run t cs)).1
          (f.valid, Distinct-DistinctHosts (run t cs).routes f.normal f.distinct),
      f.normal,
    )
