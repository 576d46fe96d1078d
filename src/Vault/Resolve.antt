-- ===== src/Vault/Resolve.antt =====
-- internal/vault/store.go: the secrets that an environment gets, of those that its machine, its app
-- and it itself have. The store's tables and the cipher are given. A row's app, environment, author
-- and time are left out, and so are the wording of errors and the fingerprint's hash.
pub mod Wins
pub mod Delivered
use caramelo.Common.{
  ℕ, zero, ◌+◌, Bool, true, false, not, ◌&&◌, List, [], ◌∷◌, ◌++◌, map, Option, none, some, ◌==◌,
  nat_eq, bytes_eq, Bytes, codes, if◌then◌else◌, ltb, loop, lookup, insert, bytes_ltb, sort_by,
}

-- A row of the table vault.
pub record VaultEntry : Type 0 where
  pub scope : Bytes
  pub name : Bytes
  pub ciphertext : Bytes
  pub nonce : Bytes
  pub version : ℕ

abbrev pub scopes : List Bytes
scopes = codes "default" ∷ codes "machine" ∷ codes "app" ∷ codes "env" ∷ []

unfoldable pub rank_from : ℕ → Bytes → List Bytes → ℕ
rank_from i s [] = 0
rank_from i s (sc ∷ scs) = let rest = rank_from (i + 1) s scs in if sc == s then i else rest

-- One more than Rank, which is -1 for a scope that is none of these.
unfoldable pub scope_rank : Bytes → ℕ
unfolding rank_from
scope_rank s = rank_from 1 s scopes

unfoldable pub beats : Bytes → Bytes → Bool
beats s other = ltb (scope_rank other) (scope_rank s)

unfoldable pub ranks_below : VaultEntry → VaultEntry → Bool
ranks_below a b = ltb (scope_rank a.scope) (scope_rank b.scope)

unfoldable pub put_row : List (Bytes × VaultEntry) → VaultEntry → List (Bytes × VaultEntry)
put_row win row = insert row.name row win

-- For each name the last of its rows in the order of ranks.
unfoldable pub winners : List VaultEntry → List (Bytes × VaultEntry)
unfolding put_row
winners rows = loop put_row [] (sort_by ranks_below rows)

unfoldable pub sorted_names : List (Bytes × VaultEntry) → List Bytes
sorted_names win = sort_by bytes_ltb (map (λ (p : Bytes × VaultEntry). p.0) win)

-- Go's zero value, for a name that the map does not have.
abbrev pub no_row : VaultEntry
no_row = record { scope = []; name = []; ciphertext = []; nonce = []; version = 0 }

unfoldable pub row_at : List (Bytes × VaultEntry) → Bytes → VaultEntry
row_at win name = elim (lookup name win) [ none ↦ no_row | some row ↦ row ]

unfoldable pub by_scope : List VaultEntry → List VaultEntry
unfolding winners sorted_names row_at
by_scope rows = map (row_at (winners rows)) (sorted_names (winners rows))

pub data ResolveError : Type 0 where
  unreadable_rows : ResolveError
  unreadable_secret : Bytes → Bytes → ResolveError

pub data Resolved (A : Type 0) : Type 0 where
  ok : A → Resolved A
  failed : ResolveError → Resolved A

-- The store's queries, each of which may fail, and the cipher.
pub record Vault : Type 0 where
  pub secrets : Bytes → Bytes → Bytes → Option (List VaultEntry)
  pub secrets_for : Bytes → Bytes → Option (List VaultEntry)
  pub decrypt : Bytes → Bytes → Option Bytes

rows_of : Option (List VaultEntry) → Resolved (List VaultEntry)
rows_of none = failed unreadable_rows
rows_of (some rows) = ok rows

both_rows : Option (List VaultEntry) → Option (List VaultEntry) → Resolved (List VaultEntry)
both_rows none own = failed unreadable_rows
both_rows (some machine) none = failed unreadable_rows
both_rows (some machine) (some own) = ok (machine ++ own)

unfoldable pub layers : Vault → Bytes → Bytes → Resolved (List VaultEntry)
unfolding rows_of both_rows
layers d app env =
    if not (app == []) && not (env == [])
    then rows_of (d.secrets_for app env)
    else if not (app == [])
    then both_rows (d.secrets (codes "machine") [] []) (d.secrets (codes "app") app [])
    else rows_of (d.secrets (codes "machine") [] [])

unfoldable pub open_row : Vault → VaultEntry → Resolved Bytes
open_row d row = elim (d.decrypt row.ciphertext row.nonce) [
  | none ↦ failed (unreadable_secret row.scope row.name)
  | some plain ↦ ok plain
]

-- The loop of Resolve.
unfoldable pub open_rows :
    Vault → List (Bytes × Bytes) → List VaultEntry → Resolved (List (Bytes × Bytes))
unfolding open_row
open_rows d out [] = ok out
open_rows d out (row ∷ rows) = elim (open_row d row) [
  | failed e ↦ failed e
  | ok value ↦ open_rows d (insert row.name value out) rows
]

unfoldable pub resolve_rows : Vault → Resolved (List VaultEntry) → Resolved (List (Bytes × Bytes))
unfolding by_scope open_rows
resolve_rows d (failed e) = failed e
resolve_rows d (ok rows) = open_rows d [] (by_scope rows)

unfoldable pub resolve : Vault → Bytes → Bytes → Resolved (List (Bytes × Bytes))
unfolding layers resolve_rows
resolve d app env = resolve_rows d (layers d app env)

put_scope : List (Bytes × Bytes) → VaultEntry → List (Bytes × Bytes)
put_scope out row = insert row.name row.scope out

unfoldable pub sources_of : Resolved (List VaultEntry) → Resolved (List (Bytes × Bytes))
unfolding by_scope put_scope
sources_of (failed e) = failed e
sources_of (ok rows) = ok (loop put_scope [] (by_scope rows))

unfoldable pub sources : Vault → Bytes → Bytes → Resolved (List (Bytes × Bytes))
unfolding layers sources_of
sources d app env = sources_of (layers d app env)
