-- ===== src/Env/Deploy/Settled.antt =====
-- The watch of a deploy comes to an end (internal/env/deploy_watch.go).
use caramelo.Common.{
  ℕ, ◌+◌, ◌*◌, ◌≤◌, ◌≡◌, ◌≢◌, refl, sym, ◌∙◌, subst, inl, inr, ◌⊎◌, Bool, true, false, List, [],
  ◌∷◌, ◌++◌, Option, none, some, if◌then◌else◌, All,
}
use caramelo.Edge.Counts.{HostCounts}
use caramelo.Env.Deploy.{
  promoted, rolled_back, deploy_failed, Reason, window_passed, by_hand, asked, DeployRun, Plant,
}
use caramelo.Env.Deploy.Watch.{
  Policy, watch_window, Choice, ticked, promote_asked, context_done, rollback_asked, Round,
  count_from, seen_by, poll, is_over, Verdict, goes_on, hands_off, promotes, rolls_back, choose,
  watch_round, Decision, promotion, rolling_back, next_step, watch_all, carry_out, watch_deploy,
}
use caramelo.Env.Deploy.Rounds.{judge-elim, is_over-late}
use caramelo.Env.Deploy.Back.{rollback-RolledBack}
use caramelo.Env.Deploy.LetGo.{promote-Promoted}

-- The deploy has been promoted, or it has been rolled back or failed to be.
abbrev pub Ended : DeployRun → Type 0
Ended r =
    ((r.status ≡ promoted) ⊎ (r.status ≡ rolled_back) ⊎ (r.status ≡ deploy_failed))
    × (r.registered ≡ false)

data Settles : Verdict → Type 0 where
  by_promotion : (why : Reason) (s : DeployRun) → Settles (promotes why s)
  by_rollback : (why : Reason) (s : DeployRun) → Settles (rolls_back why s)

-- A verdict that settles, or after which the watch goes on as it was switched.
data Proceeds (r : DeployRun) : Verdict → Type 0 where
  onward : (s : DeployRun) → s.flipped_at ≡ r.flipped_at → Proceeds r (goes_on s)
  settling : (v : Verdict) → Settles v → Proceeds r v

data IsSettled : Decision → Type 0 where
  promoting : (why : Reason) (s : DeployRun) → IsSettled (promotion why s)
  undoing : (why : Reason) (s : DeployRun) → IsSettled (rolling_back why s)

poll-flipped : (l : Round) (r : DeployRun) → (poll l r).flipped_at ≡ r.flipped_at
unfolding poll count_from
poll-flipped l r = go (seen_by r.has_edge l)
  where
    go :
        (o : Option (ℕ × List HostCounts))
        → (elim o as (λ x. DeployRun) [
          | none ↦ r
          | some (since, hs) ↦ count_from l.count_now since r
        ]).flipped_at
          ≡ r.flipped_at
    go none = refl
    go (some (since, hs)) = refl

module _ (p : Policy) (automatic : p.manual ≡ false) where
  over-Settles :
      (s : DeployRun) → Settles (if p.manual then hands_off s else promotes window_passed s)
  over-Settles s = go p.manual automatic
    where
      go : (b : Bool) → b ≡ false → Settles (if b then hands_off s else promotes window_passed s)
      go true e = cc
      go false e = by_promotion window_passed s

  choose-Proceeds : (c : Choice) (s : DeployRun) → c ≢ context_done → Proceeds s (choose c s)
  unfolding choose
  choose-Proceeds ticked s h = onward s refl
  choose-Proceeds promote_asked s h = settling _ (by_promotion by_hand s)
  choose-Proceeds context_done s h = absurd (h refl)
  choose-Proceeds (rollback_asked why) s h = settling _ (by_rollback (asked why) s)

  moved :
      (r s : DeployRun) (v : Verdict) → Proceeds s v → s.flipped_at ≡ r.flipped_at → Proceeds r v
  moved r s _ (onward t g) e = onward t (g ∙ e)
  moved r s v (settling _ g) e = settling v g

  watch_round-Proceeds :
      (l : Round) (r : DeployRun) → l.choice ≢ context_done → Proceeds r (watch_round p l r)
  unfolding watch_round
  watch_round-Proceeds l r h =
      let s = poll l r in
      judge-elim (Proceeds r) p l s _ (λ e. settling _ (by_rollback _ s))
        (λ why e. settling _ (by_rollback why s)) (λ w. go s (poll-flipped l r) (is_over p l.now s))
    where
      go :
          (s : DeployRun)
          → s.flipped_at ≡ r.flipped_at
          → (o : Bool)
          → Proceeds r (
              if o
              then (if p.manual then hands_off s else promotes window_passed s)
              else choose l.choice s)
      go s e true = settling _ (over-Settles s)
      go s e false = moved r s _ (choose-Proceeds l.choice s h) e

  watch_round-Settles :
      (l : Round) (r : DeployRun)
      → r.flipped_at ≢ 0
      → r.flipped_at + 2 * watch_window p ≤ l.now
      → Settles (watch_round p l r)
  unfolding watch_round
  watch_round-Settles l r h late =
      let s = poll l r in
      let same = poll-flipped l r in
      judge-elim Settles p l s _ (λ e. by_rollback _ s) (λ why e. by_rollback why s)
        (λ w. go s (is_over p l.now s) (
          is_over-late p l.now s (λ z. h (sym same ∙ z))
            (subst (λ t. t + 2 * watch_window p ≤ l.now) (sym same) late)))
    where
      go :
          (s : DeployRun) (o : Bool)
          → o ≡ true
          → Settles (
              if o
              then (if p.manual then hands_off s else promotes window_passed s)
              else choose l.choice s)
      go s true e = over-Settles s
      go s false e = cc

  next_step-IsSettled :
      (v : Verdict) (f g : DeployRun → Decision) → Settles v → IsSettled (next_step false f g v)
  unfolding next_step
  next_step-IsSettled _ f g (by_promotion why s) = promoting why s
  next_step-IsSettled _ f g (by_rollback why s) = undoing why s

  next-IsSettled :
      (r : DeployRun) (v : Verdict) (f g : DeployRun → Decision)
      → Proceeds r v
      → ((s : DeployRun) → s.flipped_at ≡ r.flipped_at → IsSettled (f s))
      → IsSettled (next_step false f g v)
  unfolding next_step
  next-IsSettled r _ f g (onward s e) h = h s e
  next-IsSettled r v f g (settling _ e) h = next_step-IsSettled v f g e

  watch_all-IsSettled :
      (ls : List Round) (l : Round) (after : List Round) (r : DeployRun)
      → r.flipped_at ≢ 0
      → All (λ (x : Round). x.choice ≢ context_done) ls
      → r.flipped_at + 2 * watch_window p ≤ l.now
      → IsSettled (watch_all p false (ls ++ l ∷ after) r)
  unfolding watch_all
  watch_all-IsSettled [] l after r h quiet late =
      next_step-IsSettled (watch_round p l r) (watch_all p false after) (watch_all p true after)
        (watch_round-Settles l r h late)
  watch_all-IsSettled (x ∷ ls) l after r h quiet late =
      next-IsSettled r (watch_round p x r) (watch_all p false (ls ++ l ∷ after))
        (watch_all p true (ls ++ l ∷ after)) (watch_round-Proceeds x r quiet.0)
        (λ s e.
          watch_all-IsSettled ls l after s (λ z. h (sym e ∙ z)) quiet.1
            (subst (λ t. t + 2 * watch_window p ≤ l.now) (sym e) late))

  carried-Ended : (plant : Plant) (d : Decision) → IsSettled d → Ended (carry_out plant d)
  unfolding carry_out
  carried-Ended plant _ (promoting why s) =
      let done = promote-Promoted plant why s in (inl done.status, done.over)
  carried-Ended plant _ (undoing why s) =
      let done = rollback-RolledBack plant why s in
      (
        elim done.outcome [ inl failed ↦ inr (inr failed.0) | inr back ↦ inr (inl back.0) ],
        done.over,
      )

  -- Where promotion is not manual, no watch goes on for ever: if the switch has a time and no round
  -- before finds the commander gone, then with the first round that is twice the window after the
  -- switch the deploy has been promoted, rolled back or has failed to be rolled back, and it is no
  -- longer watched. It holds whatever the counts, the containers and the plant are.
  pub watch_deploy-Ended :
      (plant : Plant) (ls : List Round) (l : Round) (after : List Round) (r : DeployRun)
      → r.flipped_at ≢ 0
      → All (λ (x : Round). x.choice ≢ context_done) ls
      → r.flipped_at + 2 * watch_window p ≤ l.now
      → Ended (watch_deploy plant p (ls ++ l ∷ after) r)
  unfolding watch_deploy
  watch_deploy-Ended plant ls l after r h quiet late =
      carried-Ended plant _ (watch_all-IsSettled ls l after r h quiet late)
