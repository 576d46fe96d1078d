-- ===== src/Vault/Resolve/Delivered.antt =====
-- The values that an environment's secrets resolve to (internal/vault/store.go).
use caramelo.Common.{
  ◌≡◌, ◌≢◌, refl, sym, subst, ◌∙◌, ◌⊎◌, inl, inr, List, [], ◌∷◌, map, Option, none, some, ◌==◌,
  nat_eq, bytes_eq, eq_refl, Bytes, All, All-mono, Any, lookup, insert, lookup-insert, Bool-cases,
  Option-cases, bytes_ltb, Any-sort_by, All-sort_by,
}
use caramelo.Vault.Resolve.{
  VaultEntry, winners, sorted_names, row_at, by_scope, Vault, ok, layers, open_row, open_rows,
  resolve_rows, resolve,
}
use caramelo.Vault.Resolve.Wins.{Winner, winners_lem, All-at, other}

-- What an environment gets for a name: nothing if no row has it, else what is in the row of the
-- highest rank.
abbrev pub Given : Vault → Bytes → List VaultEntry → Option Bytes → Type 0
Given d name rows none = Winner name rows none
Given d name rows (some v) =
    (row : VaultEntry) × Winner name rows (some row) × (open_row d row ≡ ok v)

found_later :
    (name key : Bytes) (row : VaultEntry) (rest : List (Bytes × VaultEntry))
    → lookup name rest ≢ none
    → lookup name ((key, row) ∷ rest) ≢ none
unfolding lookup
found_later name key row rest found = elim (Bool-cases (key == name)) [
  | inl same ↦ rw same (λ e. cc)
  | inr differ ↦ rw differ found
]

keys_found :
    (win : List (Bytes × VaultEntry))
    → All (λ name. lookup name win ≢ none) (map (λ (p : Bytes × VaultEntry). p.0) win)
unfolding lookup
keys_found [] = tt
keys_found ((key, row) ∷ rest) = (
  rw (eq_refl key) (λ e. cc),
  All-mono (λ name found. found_later name key row rest found) _ (keys_found rest),
)

key_of_found :
    (name : Bytes) (win : List (Bytes × VaultEntry)) (row : VaultEntry)
    → lookup name win ≡ some row
    → Any (λ k. k ≡ name) (map (λ (p : Bytes × VaultEntry). p.0) win)
unfolding lookup
key_of_found name [] row e = cc
key_of_found name ((key, r) ∷ rest) row e = elim (Bool-cases (key == name)) [
  | inl same ↦ inl ((bytes_eq.same_iff key name).0 same)
  | inr differ ↦ inr (key_of_found name rest row (rw differ at e))
]

module _ (d : Vault) (win : List (Bytes × VaultEntry)) where
  -- A name whose row is its own, and opens.
  Opens : Bytes → Type 0
  Opens n = ((row_at win n).name ≡ n) × ((v : Bytes) × (open_row d (row_at win n) ≡ ok v))

  -- What the loop leaves at a name.
  Left : List Bytes → List (Bytes × Bytes) → List (Bytes × Bytes) → Bytes → Type 0
  Left ns before after name =
      (Any (λ n. n ≡ name) ns
        × ((v : Bytes) × (open_row d (row_at win name) ≡ ok v) × (lookup name after ≡ some v)))
      ⊎ (All (λ n. n ≢ name) ns × (lookup name after ≡ lookup name before))

  open_rows-Left :
      (ns : List Bytes) (out : List (Bytes × Bytes))
      → All Opens ns
      → (after : List (Bytes × Bytes)) × (open_rows d out (map (row_at win) ns) ≡ ok after)
        × ((name : Bytes) → Left ns out after name)
  unfolding Opens Left open_rows
  open_rows-Left [] out h = (out, refl, λ name. inr (tt, refl))
  open_rows-Left (n ∷ ns) out (h, hs) =
      let v = h.1.0 in
      let rest = open_rows-Left ns (insert n v out) hs in
      (
        rest.0,
        rw (h.1.1, open_rows, h.0) rest.1,
        λ name. elim (rest.2 name) [
          | inl (past, given) ↦ inl (inr past, given)
          | inr (others, kept) ↦ elim (Bool-cases (n == name)) [
            | inl same ↦
                let eq = (bytes_eq.same_iff n name).0 same in
                inl (
                  inl eq,
                  (
                    v,
                    subst (λ m. open_row d (row_at win m) ≡ ok v) eq h.1.1,
                    kept ∙ lookup-insert n name v out ∙ rw same refl,
                  ),
                )
            | inr differ ↦ inr (
              ((λ e. other (n == name) differ ((bytes_eq.same_iff n name).1 e)), others),
              kept ∙ lookup-insert n name v out ∙ rw differ refl,
            )
          ]
        ],
      )

-- The row of a name that has one is its own, and opens if all rows do.
found_Opens :
    (d : Vault) (rows : List VaultEntry) (n : Bytes)
    → All (λ r. (v : Bytes) × (open_row d r ≡ ok v)) rows
    → lookup n (winners rows) ≢ none
    → Opens d (winners rows) n
unfolding Opens row_at
found_Opens d rows n opens found = elim (Option-cases (lookup n (winners rows))) [
  | inl missing ↦ absurd (found missing)
  | inr (row, e) ↦
      let won : Winner n rows (some row) = subst (Winner n rows) e (winners_lem rows n) in
      let opened = All-at (λ r. (v : Bytes) × (open_row d r ≡ ok v)) row rows opens won.1 in
      rw (e, row_at) (won.0, opened)
]

row_at-some :
    (win : List (Bytes × VaultEntry)) (n : Bytes) (row : VaultEntry)
    → lookup n win ≡ some row
    → row_at win n ≡ row
unfolding row_at
row_at-some win n row e = rw (e, row_at) refl

sorted_names-All :
    (P : Bytes → Type 0) (win : List (Bytes × VaultEntry))
    → All P (map (λ (p : Bytes × VaultEntry). p.0) win)
    → All P (sorted_names win)
unfolding sorted_names
sorted_names-All P win h = All-sort_by bytes_ltb P (map (λ (p : Bytes × VaultEntry). p.0) win) h

sorted_names-Any :
    (P : Bytes → Type 0) (win : List (Bytes × VaultEntry))
    → Any P (map (λ (p : Bytes × VaultEntry). p.0) win)
    → Any P (sorted_names win)
unfolding sorted_names
sorted_names-Any P win h = Any-sort_by bytes_ltb P (map (λ (p : Bytes × VaultEntry). p.0) win) h

Left-Given :
    (d : Vault) (rows : List VaultEntry) (after : List (Bytes × Bytes)) (name : Bytes)
    → Left d (winners rows) (sorted_names (winners rows)) [] after name
    → Given d name rows (lookup name after)
unfolding Left lookup
Left-Given d rows after name left =
    let win = winners rows in
    let won = winners_lem rows name in
    elim (Option-cases (lookup name win)) [
      | inl missing ↦ elim left [
        | inl (here, given) ↦ absurd (
            All-at (λ n. lookup n win ≢ none) name (sorted_names win)
              (sorted_names-All (λ n. lookup n win ≢ none) win (keys_found win)) here missing)
        | inr (others, kept) ↦
            subst (Given d name rows) (sym kept) (subst (Winner name rows) missing won)
      ]
      | inr (row, e) ↦ elim left [
        | inl (here, (v, opened, given)) ↦ subst (Given d name rows) (sym given) (
          row,
          subst (Winner name rows) e won,
          subst (λ r. open_row d r ≡ ok v) (row_at-some win name row e) opened,
        )
        | inr (others, kept) ↦ absurd (
            All-at (λ n. n ≢ name) name (sorted_names win) others
              (sorted_names-Any (λ n. n ≡ name) win (key_of_found name win row e)) refl)
      ]
    ]

-- When the rows of the environment can be read and each of them can be decrypted, Resolve returns,
-- and gives a name that no row has nothing, and any other name what is in a row of it such that no
-- row of the name has a scope of a higher rank.
pub resolve-Given :
    (d : Vault) (app env : Bytes) (rows : List VaultEntry)
    → layers d app env ≡ ok rows
    → All (λ r. (v : Bytes) × (open_row d r ≡ ok v)) rows
    → (out : List (Bytes × Bytes)) × (resolve d app env ≡ ok out)
      × ((name : Bytes) → Given d name rows (lookup name out))
unfolding resolve resolve_rows by_scope
resolve-Given d app env rows read opens =
    let win = winners rows in
    let good =
      sorted_names-All (Opens d win) win
        (All-mono (λ n found. found_Opens d rows n opens found) _ (keys_found win)) in
    let run = open_rows-Left d win (sorted_names win) [] good in
    (run.0, rw read run.1, λ name. Left-Given d rows run.0 name (run.2 name))
