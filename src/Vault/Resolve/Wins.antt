-- ===== src/Vault/Resolve/Wins.antt =====
-- Of the rows of a name the one with the highest rank wins (internal/vault/store.go).
use caramelo.Common.{
  ◌≤◌, ◌≡◌, ◌≢◌, refl, sym, ap, subst, ◌∙◌, inl, inr, Bool, true, false, List, [], ◌∷◌, Option,
  none, some, arith, ◌==◌, nat_eq, bytes_eq, Bytes, if◌then◌else◌, All, All-mono, Any, loop, lookup,
  lookup-insert, Bool-cases, insert_by, sort_by, All-insert_by, All-of_sort_by, Any-of_sort_by,
}
use caramelo.Vault.Resolve.{VaultEntry, scope_rank, ranks_below, put_row, winners}

-- The rows in the order of their ranks.
Ascending : List VaultEntry → Type 0
Ascending [] = Unit
Ascending (r ∷ rs) =
    All (λ (q : VaultEntry). scope_rank r.scope ≤ scope_rank q.scope) rs × Ascending rs

insert_by-Ascending :
    (r : VaultEntry) (rs : List VaultEntry) → Ascending rs → Ascending (insert_by ranks_below r rs)
unfolding insert_by Ascending ranks_below
insert_by-Ascending r [] up = (tt, tt)
insert_by-Ascending r (q ∷ rs) up = elim (Bool-cases (ranks_below q r)) [
  | inl later ↦ rw later (
    All-insert_by ranks_below (λ (p : VaultEntry). scope_rank q.scope ≤ scope_rank p.scope) r rs
        (ground arith) up.0,
    insert_by-Ascending r rs up.1,
  )
  | inr first ↦
      let here : scope_rank r.scope ≤ scope_rank q.scope = ground arith in
      rw first ((here, All-mono (λ p below. omega (arith, here, below)) rs up.0), up)
]

sort_by-Ascending : (rs : List VaultEntry) → Ascending (sort_by ranks_below rs)
unfolding sort_by Ascending
sort_by-Ascending [] = tt
sort_by-Ascending (r ∷ rs) = insert_by-Ascending r (sort_by ranks_below rs) (sort_by-Ascending rs)

last_named : Bytes → List VaultEntry → Option VaultEntry
last_named name [] = none
last_named name (r ∷ rs) = elim (last_named name rs) [
  | some q ↦ some q
  | none ↦ if r.name == name then some r else none
]

or_else : Option VaultEntry → Option VaultEntry → Option VaultEntry
or_else (some r) o = some r
or_else none o = o

lookup-put_row :
    (name : Bytes) (win : List (Bytes × VaultEntry)) (rs : List VaultEntry)
    → lookup name (loop put_row win rs) ≡ or_else (last_named name rs) (lookup name win)
unfolding put_row last_named or_else
lookup-put_row name win [] = refl
lookup-put_row name win (r ∷ rs) =
    lookup-put_row name (put_row win r) rs
    ∙ ap (or_else (last_named name rs)) (lookup-insert r.name name r win)
    ∙ pick (last_named name rs) (r.name == name)
  where
    pick :
        (o : Option VaultEntry) (b : Bool)
        → or_else o (if b then some r else lookup name win)
          ≡ or_else
              (elim o [ some q ↦ some q | none ↦ if b then some r else none ])
              (lookup name win)
    pick (some q) b = refl
    pick none true = refl
    pick none false = refl

-- What wins a name: none if it has no row, else a row of it such that none ranks higher.
abbrev pub Winner : Bytes → List VaultEntry → Option VaultEntry → Type 0
Winner name rows none = All (λ (r : VaultEntry). r.name ≢ name) rows
Winner name rows (some row) =
    (row.name ≡ name)
    × Any (λ r. r ≡ row) rows
    × All (λ (q : VaultEntry). q.name ≡ name → scope_rank q.scope ≤ scope_rank row.scope) rows

pub All-at :
    {A : Type 0} (P : A → Type 0) (x : A) (xs : List A) → All P xs → Any (λ y. y ≡ x) xs → P x
All-at P x [] hs h = absurd h
All-at P x (y ∷ xs) hs (inl same) = subst P same hs.0
All-at P x (y ∷ xs) hs (inr past) = All-at P x xs hs.1 past

pub other : (b : Bool) → b ≡ false → b ≡ true → ⊥
other b no_ yes_ = cc

last_named-Winner :
    (name : Bytes) (rs : List VaultEntry) → Ascending rs → Winner name rs (last_named name rs)
unfolding last_named Ascending
last_named-Winner name [] up = tt
last_named-Winner name (r ∷ rs) up = go (last_named name rs) (last_named-Winner name rs up.1)
  where
    go :
        (o : Option VaultEntry)
        → Winner name rs o
        → Winner name
            (r ∷ rs)
            (elim o [ some q ↦ some q | none ↦ if r.name == name then some r else none ])
    go (some q) won = (
      won.0,
      inr won.1,
      ((λ mine. All-at (λ p. scope_rank r.scope ≤ scope_rank p.scope) q rs up.0 won.1), won.2),
    )
    go none others = elim (Bool-cases (r.name == name)) [
      | inl same ↦
          let mine = (bytes_eq.same_iff r.name name).0 same in
          rw same (
            mine,
            inl refl,
            ((λ e. omega arith), All-mono (λ q differ e. absurd (differ e)) rs others),
          )
      | inr differ ↦
          rw differ
            ((λ e. other (r.name == name) differ ((bytes_eq.same_iff r.name name).1 e)), others)
    ]

pub winners_lem :
    (rows : List VaultEntry) (name : Bytes) → Winner name rows (lookup name (winners rows))
unfolding winners or_else lookup
winners_lem rows name =
    let sorted_rows = sort_by ranks_below rows in
    subst (Winner name rows)
      (sym (lookup-put_row name [] sorted_rows ∙ without (last_named name sorted_rows)))
      (unsorted (last_named name sorted_rows)
        (last_named-Winner name sorted_rows (sort_by-Ascending rows)))
  where
    without : (o : Option VaultEntry) → or_else o none ≡ o
    without none = refl
    without (some r) = refl

    unsorted :
        (o : Option VaultEntry) → Winner name (sort_by ranks_below rows) o → Winner name rows o
    unsorted none others = All-of_sort_by ranks_below _ rows others
    unsorted (some r) won =
        (won.0, Any-of_sort_by ranks_below _ rows won.1, All-of_sort_by ranks_below _ rows won.2)
