-- ===== src/Fleet/Choose/Best.antt =====
-- Where internal/fleet/choose.go places an environment.
use caramelo.Common.{
  bytes_ltb, trim_space, ℕ, ◌≤◌, ◌≡◌, inl, inr, subst, sym, ◌∙◌, ap, true, false, List, [], ◌∷◌,
  none, some, arith, nat_eq, bytes_eq, map, All, All-mono, Any, Any-mono, All-every, Option-cases,
  find?,
}
use caramelo.Fleet.{Candidate, free, Demand, Preference, placement_auto, Consideration}
use caramelo.Fleet.Choose.{
  consider, ranks_first, rank, Outcome, placed, no_machine, choose_fitting, choose,
}
use caramelo.Fleet.Choose.Rank.{
  NotAfter, rank-Ranked, rank-All_only, rank-Any_only, find-First, find-Unfit,
}
use caramelo.Fleet.Choose.Fit.{differ, Suitable, consider-Suitable}
use caramelo.Fleet.Token.{is_empty}

-- The other machine is no better: it has no more memory free; with as much free, no fewer
-- environments; with as many, no earlier name.
pub record NoBetter (c o : Candidate) : Type 0 where
  pub less_free : (free o).0 ≤ (free c).0
  pub more_envs : (free o).0 ≡ (free c).0 → c.machine.envs ≤ o.machine.envs
  pub later_name :
      (free o).0 ≡ (free c).0
      → c.machine.envs ≡ o.machine.envs
      → bytes_ltb o.machine.name c.machine.name ≡ false

abbrev pub Best : Demand → ℕ → List Candidate → Outcome → Type 0
Best d now cands (placed name reason) =
    Any
      (λ (c : Candidate).
        (c.machine.name ≡ name)
        × Suitable d now c
        × All (λ (o : Candidate). Suitable d now o → NoBetter c o) cands)
      cands
Best d now cands (no_machine e) = All (λ (c : Candidate). ¬ Suitable d now c) cands

NotAfter-NoBetter :
    (d : Demand) (now : ℕ) (c o : Candidate)
    → (consider d now c).fits ≡ true
    → (consider d now o).fits ≡ true
    → NotAfter (consider d now c) (consider d now o)
    → NoBetter c o
unfolding ranks_first consider
NotAfter-NoBetter d now c o fc fo after = record {
  less_free = ground arith;
  more_envs = λ same. ground (arith, same);
  later_name = λ same as_many. ground (arith, same, as_many);
}

module _ (d : Demand) (now : ℕ) where
  map-All :
      (P : Consideration → Type 0) (cands : List Candidate)
      → All P (map (consider d now) cands)
      → All (λ c. P (consider d now c)) cands
  map-All P [] ps = tt
  map-All P (c ∷ cands) ps = (ps.0, map-All P cands ps.1)

  map-Any :
      (P : Consideration → Type 0) (cands : List Candidate)
      → Any P (map (consider d now) cands)
      → Any (λ c. P (consider d now c)) cands
  map-Any P [] ps = ps
  map-Any P (c ∷ cands) (inl p) = inl p
  map-Any P (c ∷ cands) (inr ps) = inr (map-Any P cands ps)

  placed_best :
      (cands : List Candidate) (con : Consideration)
      → find? (λ (x : Consideration). x.fits) (rank (map (consider d now) cands)) ≡ some con
      → Any
          (λ (c : Candidate).
            (c.machine.name ≡ con.machine)
            × Suitable d now c
            × All (λ (o : Candidate). Suitable d now o → NoBetter c o) cands)
          cands
  unfolding consider
  placed_best cands con e =
      let cons = map (consider d now) cands in
      let (among, fit, firsts) = find-First (rank cons) con (rank-Ranked cons) e in
      let firsts_in = map-All _ cands (rank-All_only _ cons firsts) in
      Any-mono (λ c. consider d now c ≡ con) _ cands
        (All-every
          (λ c same. (
            ap (λ (x : Consideration). x.machine) same,
            (consider-Suitable d now c).0
                (subst (λ (x : Consideration). x.fits ≡ true) (sym same) fit),
            All-mono
                (λ o first suits.
                  let fits_too = (consider-Suitable d now o).1 suits in
                  NotAfter-NoBetter d now c o
                    (subst (λ (x : Consideration). x.fits ≡ true) (sym same) fit) fits_too
                    (subst (λ (x : Consideration). NotAfter x (consider d now o)) (sym same)
                      (first fits_too)))
                cands firsts_in,
          ))
          cands)
        (map-Any _ cands (rank-Any_only _ cons among))

  none-Suitable :
      (cands : List Candidate)
      → find? (λ (x : Consideration). x.fits) (rank (map (consider d now) cands)) ≡ none
      → All (λ (c : Candidate). ¬ Suitable d now c) cands
  none-Suitable cands e =
      let cons = map (consider d now) cands in
      All-mono (λ c unfit suits. differ (sym unfit ∙ (consider-Suitable d now c).1 suits)) cands
        (map-All _ cands (rank-All_only _ cons (find-Unfit (rank cons) e)))

  choose_fitting-Best :
      (cands : List Candidate)
      → Best d now cands (choose_fitting (map (consider d now) cands)).outcome
  unfolding choose_fitting
  choose_fitting-Best cands =
      elim (Option-cases
        (find? (λ (x : Consideration). x.fits) (rank (map (consider d now) cands)))) [
          | inl nothing ↦ rw nothing (none-Suitable cands nothing)
          | inr (con, found) ↦ rw found (placed_best cands con found)
        ]

-- With no pin and the automatic placement, Choose places the environment on a suitable machine such
-- that no other suitable one is better: none has more memory free, or as much and fewer
-- environments, or as many of those and an earlier name. It finds no machine only if none is
-- suitable.
pub choose-Best :
    (cands : List Candidate) (d : Demand) (pref : Preference) (now : ℕ)
    → is_empty (trim_space pref.pin) ≡ true
    → pref.placement ≡ placement_auto
    → Best d now cands (choose cands d pref now).outcome
unfolding choose
choose-Best cands d pref now unpinned auto = rw (unpinned, auto) (choose_fitting-Best d now cands)
