-- ===== src/Tests/Ports.antt =====
-- internal/ports on concrete stores.
use caramelo.Common.{ℕ, ◌≡◌, ◌≢◌, refl, Bool, List, [], ◌∷◌, arith, ◌==◌, nat_eq, not, All}
use caramelo.Ports.{EnvRow, rows, at, end, size, taken, allocate}
use caramelo.Ports.FirstFit.{FirstFit, allocate-FirstFit}
use caramelo.Ports.Disjoint.{Covers, span_of, allocate-apart}

-- Something else listens on port 20040.
abbrev all_but_one : ℕ → Bool
all_but_one p = not (p == 20040)

abbrev one_env : List EnvRow
one_env = record { id = 4; port_base = 20000; port_count = 16 } ∷ []

third_block : (allocate all_but_one 9 (rows one_env)).0 ≡ at 20064
unfolding allocate
third_block = refl

allocate-FirstFit_example :
    FirstFit all_but_one (taken 9 one_env) (allocate all_but_one 9 (rows one_env)).0
allocate-FirstFit_example = allocate-FirstFit all_but_one 9 one_env

allocate-apart_example : All (λ e. e.id ≢ 9 → e.port_base ≢ 0 → ¬ Covers (span_of e) 20070) one_env
unfolding end size
allocate-apart_example = allocate-apart all_but_one 9 20064 20070 one_env third_block (omega arith)
