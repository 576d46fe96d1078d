-- ===== src/Ports.antt =====
-- internal/ports/ports.go: the allocator of port blocks. The store's rows and the binder, which
-- listens on a port to see whether it is free, are parameters.
pub mod FirstFit
pub mod Disjoint
use caramelo.Common.{
  ℕ, zero, suc, ◌+◌, ◌-◌, ◌/◌, ◌%◌, ◌≤◌, ◌<◌, ◌≡◌, refl, Bool, true, false, not, ◌&&◌, ◌||◌, List,
  [], ◌∷◌, ◌++◌, Option, none, some, arith, ◌==◌, nat_eq, ltb, leb, if◌then◌else◌, map,
}

abbrev pub base_port : ℕ
base_port = 20000

abbrev pub ceiling : ℕ
ceiling = 32000

abbrev pub block_size : ℕ
block_size = 32

abbrev pub block_count : ℕ
block_count = (ceiling - base_port) / block_size

block_from : ℕ → ℕ → List ℕ
block_from zero p = []
block_from (suc n) p = p ∷ block_from n (p + 1)

unfoldable pub block : ℕ → List ℕ
unfolding block_from
block base = block_from block_size base

unfoldable pub valid_base : ℕ → Bool
valid_base base = leb base_port base && ltb base ceiling && (base - base_port) % block_size == 0

pub record Span : Type 0 where
  pub base : ℕ
  pub count : ℕ

unfoldable pub size : Span → ℕ
size s = if s.count == 0 then block_size else s.count

unfoldable pub end : Span → ℕ
unfolding size
end s = s.base + size s

unfoldable pub overlaps : Span → Span → Bool
unfolding end
overlaps s other = ltb s.base (end other) && ltb other.base (end s)

-- A row of Store.Envs, and what reading the store gives.
pub record EnvRow : Type 0 where
  pub id : ℕ
  pub port_base : ℕ
  pub port_count : ℕ

pub data StoreRead : Type 0 where
  no_store unreadable : StoreRead
  rows : List EnvRow → StoreRead

pub data Error : Type 0 where
  ports_no_store read_failed exhausted : Error

-- `unfinished` is a loop that has used up its rounds, which never happens.
pub data Found : Type 0 where
  at : ℕ → Found
  failed : Error → Found
  unfinished : Found

-- What the allocator logs of a block that it skips.
pub data Skip : Type 0 where
  allocated : ℕ → Span → Skip
  in_use : ℕ → ℕ → Skip

-- The row is the environment's own, or it has no block.
unfoldable pub passed_by : ℕ → EnvRow → Bool
passed_by env_id e = not (env_id == 0) && e.id == env_id || e.port_base == 0

unfoldable pub taken : ℕ → List EnvRow → List Span
taken env_id [] = []
taken env_id (e ∷ es) =
    if passed_by env_id e
    then taken env_id es
    else record { base = e.port_base; count = e.port_count } ∷ taken env_id es

unfoldable pub overlap : List Span → Span → Option Span
overlap [] candidate = none
overlap (s ∷ ss) candidate = if overlaps s candidate then some s else overlap ss candidate

-- The first port of the list that cannot be bound.
first_busy : (ℕ → Bool) → List ℕ → Option ℕ
first_busy can_bind [] = none
first_busy can_bind (p ∷ ps) = if can_bind p then first_busy can_bind ps else some p

unfoldable pub probe : (ℕ → Bool) → ℕ → Option ℕ
unfolding first_busy block
probe can_bind base = first_busy can_bind (block base)

abbrev pub candidate : ℕ → Span
candidate base = record { base = base; count = block_size }

unfoldable pub skip_of : (ℕ → Bool) → List Span → ℕ → Option Skip
skip_of can_bind spans base = elim (overlap spans (candidate base)) [
  | some s ↦ some (allocated base s)
  | none ↦ elim (probe can_bind base) [ some p ↦ some (in_use base p) | none ↦ none ]
]

abbrev logged : Skip → Found × List Skip → Found × List Skip
logged s (f, log) = (f, s ∷ log)

unfoldable pub scan : (ℕ → Bool) → List Span → ℕ → ℕ → Found × List Skip
scan can_bind spans zero base = (unfinished, [])
scan can_bind spans (suc rounds) base =
    let rest = scan can_bind spans rounds (base + block_size) in
    if ltb base ceiling
    then elim (skip_of can_bind spans base) [ none ↦ (at base, []) | some s ↦ logged s rest ]
    else (failed exhausted, [])

unfoldable pub allocate : (ℕ → Bool) → ℕ → StoreRead → Found × List Skip
unfolding scan taken passed_by skip_of overlap overlaps probe
allocate can_bind env_id no_store = (failed ports_no_store, [])
allocate can_bind env_id unreadable = (failed read_failed, [])
allocate can_bind env_id (rows es) = scan can_bind (taken env_id es) (block_count + 1) base_port
