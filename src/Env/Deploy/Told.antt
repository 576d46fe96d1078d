-- ===== src/Env/Deploy/Told.antt =====
-- What a round of a watch tells by what it comes to (internal/env/deploy_watch.go).
use caramelo.Common.{
  ℕ, ◌+◌, ◌≤◌, ◌≡◌, ◌≢◌, refl, sym, ap, ◌∙◌, subst, inl, inr, ◌⊎◌, Bool, true, false, some, Bytes,
  if◌then◌else◌,
}
use caramelo.Env.Deploy.{Reason, window_passed, by_hand, too_many_errors, asked, DeployRun}
use caramelo.Env.Deploy.Watch.{
  Policy, watch_window, Choice, ticked, promote_asked, context_done, rollback_asked, Round, counted,
  poll, breached, unhealthy_pools, is_over, Verdict, goes_on, hands_off, commander_gone, abandons,
  promotes, rolls_back, interrupted, choose, judge, watch_round, await_choice, await_round,
}
use caramelo.Env.Deploy.Rounds.{
  Bounded, Later, Later-refl, poll-Later, Well, Well-Later, counted-Later, pools-Later, judge-elim,
  is_over-le,
}

-- What a round that promotes has seen.
abbrev pub Promotes : Policy → DeployRun → Reason → Round → Type 0
Promotes p r why l =
    ((why ≡ by_hand) × (l.choice ≡ promote_asked))
    ⊎ ((why ≡ window_passed)
        × (p.manual ≡ false)
        × Well p r l
        × (r.flipped_at + watch_window p ≤ l.now))

-- What a round that rolls back has seen.
pub data RollsBack (p : Policy) (r : DeployRun) (l : Round) : Reason → Type 0 where
  errors_counted :
      (n e : ℕ)
      → counted r l ≡ (n, e)
      → breached p (n, e) ≡ true
      → RollsBack p r l (too_many_errors e n)
  down : (why : Reason) → unhealthy_pools l.inspect r.pools ≡ some why → RollsBack p r l why
  wanted : (why : Bytes) → l.choice ≡ rollback_asked why → RollsBack p r l (asked why)

-- What a verdict on a round tells of it.
abbrev pub Told : Bool → Policy → DeployRun → Round → Verdict → Type 0
Told awaiting p r l (goes_on s) = Well p r l × Later r s
Told awaiting p r l (hands_off s) = Well p r l × Later r s
Told awaiting p r l (commander_gone s) =
    (l.choice ≡ context_done) × (awaiting ≡ false → Well p r l) × Later r s
Told awaiting p r l (abandons s) = (l.choice ≡ context_done) × Later r s
Told awaiting p r l (promotes why s) = Promotes p r why l × Later r s
Told awaiting p r l (rolls_back why s) = RollsBack p r l why × Later r s

module _ (p : Policy) (r : DeployRun) (l : Round) where
  interrupted-Told :
      (awaiting : Bool) (s : DeployRun)
      → l.choice ≡ context_done
      → (awaiting ≡ false → Well p r l)
      → Later r s
      → Told awaiting p r l (interrupted s)
  unfolding interrupted
  interrupted-Told awaiting s e w a = go s.detached
    where
      go : (b : Bool) → Told awaiting p r l (if b then abandons s else commander_gone s)
      go true = (e, a)
      go false = (e, w, a)

  judge-Told :
      (awaiting : Bool) (s : DeployRun) (next : Verdict)
      → Later r s
      → (Well p r l → Told awaiting p r l next)
      → Told awaiting p r l (judge p l s next)
  judge-Told awaiting s next a well =
      judge-elim (Told awaiting p r l) p l s next
        (λ e. (errors_counted (counted s l).0 (counted s l).1 (sym (counted-Later r s l a)) e, a))
        (λ why e. (down why (ap (unhealthy_pools l.inspect) (sym (pools-Later r s a)) ∙ e), a))
        (λ w. well (Well-Later p r s l a w))

  choose-Told :
      (c : Choice) (s : DeployRun)
      → l.choice ≡ c
      → Later r s
      → Well p r l
      → Told false p r l (choose c s)
  unfolding choose
  choose-Told ticked s e a w = (w, a)
  choose-Told promote_asked s e a w = (inl (refl, e), a)
  choose-Told context_done s e a w = interrupted-Told false s e (λ f. w) a
  choose-Told (rollback_asked why) s e a w = (wanted why e, a)

  over-Told :
      (s : DeployRun)
      → r.flipped_at ≢ 0
      → Later r s
      → Well p r l
      → is_over p l.now s ≡ true
      → Told false p r l (if p.manual then hands_off s else promotes window_passed s)
  over-Told s h a w over = go p.manual refl
    where
      flipped : s.flipped_at ≡ r.flipped_at
      flipped = ap (λ (u : DeployRun). u.flipped_at) a.same

      go :
          (b : Bool)
          → p.manual ≡ b
          → Told false p r l (if b then hands_off s else promotes window_passed s)
      go true e = (w, a)
      go false e = (
        inr (
          refl,
          e,
          w,
          subst (λ t. t + watch_window p ≤ l.now) flipped
              (is_over-le p l.now s (λ z. h (sym flipped ∙ z)) a.bounded over),
        ),
        a,
      )

  watch_round-Told : r.flipped_at ≢ 0 → Bounded r → Told false p r l (watch_round p l r)
  unfolding watch_round
  watch_round-Told h b =
      let s = poll l r in
      let a = poll-Later l r b in judge-Told false s _ a (λ w. go s a w (is_over p l.now s) refl)
    where
      go :
          (s : DeployRun)
          → Later r s
          → Well p r l
          → (o : Bool) → is_over p l.now s ≡ o
          → Told false p r l (
              if o
              then (if p.manual then hands_off s else promotes window_passed s)
              else choose l.choice s)
      go s a w true e = over-Told s h a w e
      go s a w false e = choose-Told l.choice s refl a w

  await_choice-Told :
      (c : Choice) → l.choice ≡ c → Bounded r → Told true p r l (await_choice p c l r)
  unfolding await_choice choose
  await_choice-Told ticked e b =
      let s = poll l r in let a = poll-Later l r b in judge-Told true s (goes_on s) a (λ w. (w, a))
  await_choice-Told promote_asked e b = (inl (refl, e), Later-refl r b)
  await_choice-Told context_done e b = interrupted-Told true r e (λ f. cc) (Later-refl r b)
  await_choice-Told (rollback_asked why) e b = (wanted why e, Later-refl r b)

  pub round-Told :
      (awaiting : Bool)
      → r.flipped_at ≢ 0
      → Bounded r
      → Told awaiting p r l (if awaiting then await_round p l r else watch_round p l r)
  unfolding await_round
  round-Told true h b = await_choice-Told l.choice refl b
  round-Told false h b = watch_round-Told h b
