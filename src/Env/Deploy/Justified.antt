-- ===== src/Env/Deploy/Justified.antt =====
-- Why the watch of a deploy ends the way it does (internal/env/deploy_watch.go).
use caramelo.Common.{
  ◌+◌, ◌≤◌, ◌≡◌, ◌≢◌, refl, sym, ap, ◌∙◌, subst, inl, inr, Bool, true, false, List, [], ◌∷◌, ◌++◌,
  All, All-mono,
}
use caramelo.Env.Deploy.{Reason, DeployRun}
use caramelo.Env.Deploy.Watch.{
  Policy, watch_window, context_done, Round, unhealthy_pools, Verdict, goes_on, hands_off,
  commander_gone, abandons, promotes, rolls_back, Decision, still_watching, gone, abandoned,
  promotion, rolling_back, next_step, watch_all,
}
use caramelo.Env.Deploy.Rounds.{
  Bounded, Later, Later-refl, Later-trans, detach-Later, Well, Well-Later, counted-Later,
  pools-Later,
}
use caramelo.Env.Deploy.Told.{Promotes, RollsBack, errors_counted, down, wanted, Told, round-Told}

-- The rounds end at one of which `Q` holds, and those before it found nothing wrong.
pub record EndsAt (p : Policy) (r : DeployRun) (ls : List Round) (Q : Round → Type 0) : Type 0 where
  pub before : List Round
  pub last : Round
  pub after : List Round
  pub split : ls ≡ before ++ last ∷ after
  pub well : All (Well p r) before
  pub cause : Q last

-- How a decision of a watch is grounded in its rounds.
abbrev pub Grounded : Policy → DeployRun → List Round → Decision → Type 0
Grounded p r ls (still_watching s) = All (Well p r) ls × Later r s
Grounded p r ls (gone s) = EndsAt p r ls (λ (l : Round). l.choice ≡ context_done) × Later r s
Grounded p r ls (abandoned s) = EndsAt p r ls (λ (l : Round). l.choice ≡ context_done) × Later r s
Grounded p r ls (promotion why s) = EndsAt p r ls (Promotes p r why) × Later r s
Grounded p r ls (rolling_back why s) = EndsAt p r ls (λ l. RollsBack p r l why) × Later r s

module _ (p : Policy) where
  Promotes-Later :
      (r s : DeployRun) (why : Reason) (l : Round)
      → Later r s
      → Promotes p s why l
      → Promotes p r why l
  Promotes-Later r s why l a (inl h) = inl h
  Promotes-Later r s why l a (inr (e, m, w, late)) = inr (
    e,
    m,
    Well-Later p r s l a w,
    subst (λ t. t + watch_window p ≤ l.now) (ap (λ (u : DeployRun). u.flipped_at) a.same) late,
  )

  RollsBack-Later :
      (r s : DeployRun) (why : Reason) (l : Round)
      → Later r s
      → RollsBack p s l why
      → RollsBack p r l why
  RollsBack-Later r s _ l a (errors_counted n e same over) =
      errors_counted n e (sym (counted-Later r s l a) ∙ same) over
  RollsBack-Later r s _ l a (down why same) =
      down why (ap (unhealthy_pools l.inspect) (sym (pools-Later r s a)) ∙ same)
  RollsBack-Later r s _ l a (wanted text same) = wanted text same

  module _ (r s : DeployRun) (l : Round) (ls : List Round) (a : Later r s) (w : Well p r l) where
    after_round :
        (Q Q' : Round → Type 0)
        → ((x : Round) → Q' x → Q x)
        → EndsAt p s ls Q'
        → EndsAt p r (l ∷ ls) Q
    after_round Q Q' h e = record {
      before = l ∷ e.before;
      last = e.last;
      after = e.after;
      split = ap (λ (xs : List Round). l ∷ xs) e.split;
      well = (w, All-mono (λ x g. Well-Later p r s x a g) e.before e.well);
      cause = h e.last e.cause;
    }

    after-Grounded : (d : Decision) → Grounded p s ls d → Grounded p r (l ∷ ls) d
    after-Grounded (still_watching t) (ws, b) =
        ((w, All-mono (λ x g. Well-Later p r s x a g) ls ws), Later-trans r s t a b)
    after-Grounded (gone t) (e, b) = (after_round _ _ (λ x h. h) e, Later-trans r s t a b)
    after-Grounded (abandoned t) (e, b) = (after_round _ _ (λ x h. h) e, Later-trans r s t a b)
    after-Grounded (promotion why t) (e, b) =
        (after_round _ _ (λ x h. Promotes-Later r s why x a h) e, Later-trans r s t a b)
    after-Grounded (rolling_back why t) (e, b) =
        (after_round _ _ (λ x h. RollsBack-Later r s why x a h) e, Later-trans r s t a b)

  here :
      (r : DeployRun) (l : Round) (ls : List Round) (Q : Round → Type 0)
      → Q l
      → EndsAt p r (l ∷ ls) Q
  here r l ls Q h = record { before = []; last = l; after = ls; split = refl; well = tt; cause = h }

  -- The rest of the rounds, given what the first one told.
  Rest : List Round → DeployRun → Type 0
  Rest ls r = (x : Bool) (s : DeployRun) → Later r s → Grounded p s ls (watch_all p x ls s)

  next-Grounded :
      (x : Bool) (r : DeployRun) (l : Round) (ls : List Round) (v : Verdict)
      → Rest ls r
      → Told x p r l v
      → Grounded p r (l ∷ ls) (next_step x (watch_all p false ls) (watch_all p true ls) v)
  unfolding next_step Rest
  next-Grounded false r l ls (goes_on s) rest (w, a) =
      after-Grounded r s l ls a w _ (rest false s a)
  next-Grounded true r l ls (goes_on s) rest (w, a) = after-Grounded r s l ls a w _ (rest true s a)
  next-Grounded x r l ls (hands_off s) rest (w, a) =
      let d = Later-trans r s _ a (detach-Later s a.bounded) in
      after-Grounded r _ l ls d w _ (rest true _ d)
  next-Grounded false r l ls (commander_gone s) rest (e, w, a) =
      let d = Later-trans r s _ a (detach-Later s a.bounded) in
      after-Grounded r _ l ls d (w refl) _ (rest false _ d)
  next-Grounded true r l ls (commander_gone s) rest (e, w, a) = (here r l ls _ e, a)
  next-Grounded x r l ls (abandons s) rest (e, a) = (here r l ls _ e, a)
  next-Grounded x r l ls (promotes why s) rest (c, a) = (here r l ls _ c, a)
  next-Grounded x r l ls (rolls_back why s) rest (c, a) = (here r l ls _ c, a)

  -- A watch ends at a round that has a cause for it, and all the rounds before found neither too
  -- many errors nor a replica that is down. It is rolled back only at a round that counts too many
  -- errors, finds a replica that is down or is asked for it, and given up only when the commander is
  -- gone. It is promoted only at a round that is asked for it or, where promotion is not manual, at
  -- one that finds nothing wrong when the window has passed since the switch. While it goes on, no
  -- round has found anything wrong. The switch has a time, and the run does not count from before
  -- it.
  pub watch_all-Grounded :
      (awaiting : Bool) (ls : List Round) (r : DeployRun)
      → r.flipped_at ≢ 0
      → Bounded r
      → Grounded p r ls (watch_all p awaiting ls r)
  unfolding watch_all Rest
  watch_all-Grounded awaiting [] r h b = (tt, Later-refl r b)
  watch_all-Grounded awaiting (l ∷ ls) r h b =
      next-Grounded awaiting r l ls _
        (λ x s a.
          watch_all-Grounded x ls s (λ z. h (sym (ap (λ (u : DeployRun). u.flipped_at) a.same) ∙ z))
            a.bounded)
        (round-Told p r l awaiting h b)
