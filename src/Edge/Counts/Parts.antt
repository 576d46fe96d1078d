-- ===== src/Edge/Counts/Parts.antt =====
-- Requests that a pool counts, and the numbers of its counters (internal/edge/counts.go).
use caramelo.Common.{
  ℕ, suc, ◌+◌, ◌-◌, ◌≡◌, refl, Bool, true, false, if◌then◌else◌, leb, List, [], ◌∷◌, nat_eq, arith,
}
use caramelo.Edge.Pool.State.{Counter, RoutePool, no_counts}
use caramelo.Edge.Counts.{count_request, count_unrouted, add_request, sub, plus}

-- A request that a pool has counted.
pub data Request : Type 0 where
  answered : ℕ → ℕ → Bool → Request
  turned_away : Request

abbrev pub serve : Request → RoutePool → RoutePool
serve (answered replica status failed) p = count_request replica status failed p
serve turned_away p = count_unrouted p

abbrev pub serve_all : List Request → RoutePool → RoutePool
serve_all [] p = p
serve_all (q ∷ qs) p = serve_all qs (serve q p)

-- What one request, and what some of them, amount to.
abbrev pub worth : Request → Counter
worth (answered replica status failed) = record {
  requests = 1;
  status5xx = if failed then 0 else if leb 500 status then 1 else 0;
  connect_failures = if failed then 1 else 0;
}
worth turned_away = record { requests = 1; status5xx = 1; connect_failures = 0 }

abbrev pub worth_all : List Request → Counter
worth_all [] = no_counts
worth_all (q ∷ qs) = record {
  requests = (worth q).requests + (worth_all qs).requests;
  status5xx = (worth q).status5xx + (worth_all qs).status5xx;
  connect_failures = (worth q).connect_failures + (worth_all qs).connect_failures;
}

pub worth_all-plus :
    (q : Request) (qs : List Request) → worth_all (q ∷ qs) ≡ plus (worth q) (worth_all qs)
unfolding plus
worth_all-plus q qs = refl

pub worth-add_request :
    (replica status : ℕ) (failed : Bool)
    → add_request status failed no_counts ≡ worth (answered replica status failed)
unfolding add_request
worth-add_request replica status true = refl
worth-add_request replica status false = refl

-- A number that a counter has, which the operations on counters keep to.
pub record Part : Type 0 where
  pub of : Counter → ℕ
  pub of_none : of no_counts ≡ 0
  pub of_plus : (a b : Counter) → of (plus a b) ≡ of a + of b
  pub of_sub : (a b : Counter) → of (sub a b) ≡ of a - of b
  pub of_add :
      (status : ℕ) (failed : Bool) (c : Counter)
      → of (add_request status failed c) ≡ of c + of (add_request status failed no_counts)
  pub of_away :
      (c : Counter)
      → of (record c { requests = suc c.requests; status5xx = suc c.status5xx })
        ≡ of c + of (worth turned_away)

module _ (status : ℕ) (failed : Bool) (c : Counter) where
  pub added_requests :
      (add_request status failed c).requests
      ≡ c.requests + (add_request status failed no_counts).requests
  unfolding add_request
  added_requests = omega arith

  pub added_errors :
      (add_request status failed c).status5xx
      ≡ c.status5xx + (add_request status failed no_counts).status5xx
  unfolding add_request
  added_errors = ground arith

  pub added_failures :
      (add_request status failed c).connect_failures
      ≡ c.connect_failures + (add_request status failed no_counts).connect_failures
  unfolding add_request
  added_failures = ground arith

unfoldable pub requests_part : Part
unfolding plus sub
requests_part = record {
  of = λ (c : Counter). c.requests;
  of_none = refl;
  of_plus = λ a b. refl;
  of_sub = λ a b. refl;
  of_add = added_requests;
  of_away = λ c. omega arith;
}

unfoldable pub errors_part : Part
unfolding plus sub
errors_part = record {
  of = λ (c : Counter). c.status5xx;
  of_none = refl;
  of_plus = λ a b. refl;
  of_sub = λ a b. refl;
  of_add = added_errors;
  of_away = λ c. omega arith;
}

unfoldable pub failures_part : Part
unfolding plus sub
failures_part = record {
  of = λ (c : Counter). c.connect_failures;
  of_none = refl;
  of_plus = λ a b. refl;
  of_sub = λ a b. refl;
  of_add = added_failures;
  of_away = λ c. omega arith;
}
