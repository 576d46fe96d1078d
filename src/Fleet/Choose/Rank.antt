-- ===== src/Fleet/Choose/Rank.antt =====
-- The ranking of internal/fleet/choose.go: a strict weak order, sorted, with the same members.
use caramelo.Common.{
  bytes_ltb, ◌≡◌, ◌⊎◌, inl, inr, refl, subst, true, false, List, [], ◌∷◌, none, some, arith, nat_eq,
  bytes_eq, Bytes, All, All-mono, Any, Bool-cases, find?,
}
use caramelo.Fleet.{Consideration}
use caramelo.Fleet.Choose.{ranks_first, rank_in, rank}

-- a may stand before b.
abbrev pub NotAfter : Consideration → Consideration → Type 0
NotAfter a b = ranks_first b a ≡ false

abbrev pub Ranked : List Consideration → Type 0
Ranked [] = Unit {0}
Ranked (a ∷ cs) = All (NotAfter a) cs × Ranked cs

bytes_ltb_asym : (a b : Bytes) → bytes_ltb a b ≡ true → bytes_ltb b a ≡ false
unfolding bytes_ltb
bytes_ltb_asym [] [] e = refl
bytes_ltb_asym [] (y ∷ ys) e = refl
bytes_ltb_asym (x ∷ xs) [] e = cc
bytes_ltb_asym (x ∷ xs) (y ∷ ys) e = ground (arith, bytes_ltb_asym xs ys)

-- If c is not before b and b is not before a, c is not before a.
bytes_ltb_trans :
    (a b c : Bytes) → bytes_ltb b a ≡ false → bytes_ltb c b ≡ false → bytes_ltb c a ≡ false
unfolding bytes_ltb
bytes_ltb_trans [] b c e f = refl
bytes_ltb_trans (x ∷ xs) [] c e f = cc
bytes_ltb_trans (x ∷ xs) (y ∷ ys) [] e f = cc
bytes_ltb_trans (x ∷ xs) (y ∷ ys) (z ∷ zs) e f = ground (arith, bytes_ltb_trans xs ys zs)

ranks_first_asym : (a b : Consideration) → ranks_first a b ≡ true → ranks_first b a ≡ false
unfolding ranks_first
ranks_first_asym a b e = ground (arith, bytes_ltb_asym a.machine b.machine)

ranks_first_trans : (a b c : Consideration) → NotAfter a b → NotAfter b c → NotAfter a c
unfolding ranks_first
ranks_first_trans a b c e f = ground (arith, bytes_ltb_trans a.machine b.machine c.machine)

NotAfter-refl : (a : Consideration) → NotAfter a a
NotAfter-refl a = elim (Bool-cases (ranks_first a a)) [
  | inl before ↦ ranks_first_asym a a before
  | inr level ↦ level
]

NotAfter-chain :
    (a b : Consideration) (bs : List Consideration)
    → NotAfter a b
    → All (NotAfter b) bs
    → All (NotAfter a) bs
NotAfter-chain a b bs ab rest = All-mono (λ c bc. ranks_first_trans a b c ab bc) bs rest

module _ (P : Consideration → Type 0) where
  rank_in-All :
      (a : Consideration) (bs : List Consideration) → P a → All P bs → All P (rank_in a bs)
  unfolding rank_in
  rank_in-All a [] p ps = (p, tt)
  rank_in-All a (b ∷ bs) p ps = elim (Bool-cases (ranks_first b a)) [
    | inl later ↦ rw later (ps.0, rank_in-All a bs p ps.1)
    | inr here ↦ rw here (p, ps)
  ]

  rank_in-All_only :
      (a : Consideration) (bs : List Consideration) → All P (rank_in a bs) → P a × All P bs
  unfolding rank_in
  rank_in-All_only a [] ps = ps
  rank_in-All_only a (b ∷ bs) ps = elim (Bool-cases (ranks_first b a)) [
    | inl later ↦
        let split : All P (b ∷ rank_in a bs) = rw later at ps in
        let (pa, rest) = rank_in-All_only a bs split.1 in (pa, (split.0, rest))
    | inr here ↦ (let split : All P (a ∷ b ∷ bs) = rw here at ps in split)
  ]

  pub rank-All_only : (cons : List Consideration) → All P (rank cons) → All P cons
  unfolding rank
  rank-All_only [] ps = tt
  rank-All_only (a ∷ cons) ps =
      let (pa, rest) = rank_in-All_only a (rank cons) ps in (pa, rank-All_only cons rest)

module _ (P : Consideration → Type 0) where
  rank_in-Any_only :
      (a : Consideration) (bs : List Consideration) → Any P (rank_in a bs) → P a ⊎ Any P bs
  unfolding rank_in
  rank_in-Any_only a [] ps = ps
  rank_in-Any_only a (b ∷ bs) ps = elim (Bool-cases (ranks_first b a)) [
    | inl later ↦
        let split : P b ⊎ Any P (rank_in a bs) = rw later at ps in
        elim split [
          | inl pb ↦ inr (inl pb)
          | inr rest ↦ elim (rank_in-Any_only a bs rest) [
            | inl pa ↦ inl pa
            | inr pbs ↦ inr (inr pbs)
          ]
        ]
    | inr here ↦ (let split : Any P (a ∷ b ∷ bs) = rw here at ps in split)
  ]

  pub rank-Any_only : (cons : List Consideration) → Any P (rank cons) → Any P cons
  unfolding rank
  rank-Any_only [] ps = ps
  rank-Any_only (a ∷ cons) ps = elim (rank_in-Any_only a (rank cons) ps) [
    | inl pa ↦ inl pa
    | inr rest ↦ inr (rank-Any_only cons rest)
  ]

rank_in-Ranked : (a : Consideration) (bs : List Consideration) → Ranked bs → Ranked (rank_in a bs)
unfolding rank_in
rank_in-Ranked a [] r = (tt, tt)
rank_in-Ranked a (b ∷ bs) r = elim (Bool-cases (ranks_first b a)) [
  | inl later ↦
      rw later
        (rank_in-All (NotAfter b) a bs (ranks_first_asym b a later) r.0, rank_in-Ranked a bs r.1)
  | inr here ↦ rw here ((here, NotAfter-chain a b bs here r.0), r)
]

pub rank-Ranked : (cons : List Consideration) → Ranked (rank cons)
unfolding rank
rank-Ranked [] = tt
rank-Ranked (a ∷ cons) = rank_in-Ranked a (rank cons) (rank-Ranked cons)

-- The first that fits, of those ranked: it is one of them, and stands after none.
pub find-First :
    (cons : List Consideration) (con : Consideration)
    → Ranked cons
    → find? (λ (c : Consideration). c.fits) cons ≡ some con
    → Any (λ c. c ≡ con) cons
      × (con.fits ≡ true)
      × All (λ (o : Consideration). o.fits ≡ true → NotAfter con o) cons
find-First [] con r e = cc
find-First (a ∷ cons) con r e = elim (Bool-cases a.fits) [
  | inl fit ↦
      let same : a ≡ con = ground (arith, fit, e) in
      (
        inl same,
        subst (λ (c : Consideration). c.fits ≡ true) same fit,
        subst
            (λ (c : Consideration).
              All (λ (o : Consideration). o.fits ≡ true → NotAfter c o) (a ∷ cons))
            same ((λ f. NotAfter-refl a), All-mono (λ o after f. after) cons r.0),
      )
  | inr unfit ↦
      let (among, fit, firsts) = find-First cons con r.1 (rw unfit at e) in
      (inr among, fit, ((λ f. cc), firsts))
]

pub find-Unfit :
    (cons : List Consideration)
    → find? (λ (c : Consideration). c.fits) cons ≡ none
    → All (λ (c : Consideration). c.fits ≡ false) cons
find-Unfit [] e = tt
find-Unfit (a ∷ cons) e = elim (Bool-cases a.fits) [
  | inl fit ↦ ground (arith, fit, e)
  | inr unfit ↦ (unfit, find-Unfit cons (rw unfit at e))
]
