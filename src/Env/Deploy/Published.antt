-- ===== src/Env/Deploy/Published.antt =====
-- What a switch has recorded and pushed by its end (internal/env/deploy_run.go).
use caramelo.Common.{ℕ, ◌≡◌, ◌≢◌, refl, ◌∙◌, subst, Bool, true, false, List, [], ◌∷◌, ◌++◌, Bytes}
use caramelo.Env.Layout.{PortLayout}
use caramelo.Env.Rollout.{Replica}
use caramelo.Env.Rollout.Flip.{target_rows}
use caramelo.Env.Deploy.{DeployPool, Log, plan_service, put_service, Plant, DeployRun, try, tell}
use caramelo.Env.Deploy.Ending.{record_flip}
use caramelo.Env.Deploy.Switch.{
  switch_pool, Looped, keep, after_service, replace_pools, begin_at, after_record, after_plan,
  record_pools, replace_service,
}
use caramelo.Env.Deploy.Pushes.{Recorded, Push, record_flip-Push}
use caramelo.Env.Deploy.Along.{Along, Along-refl, Along-trans, try-Along, record_flip-Along}
use caramelo.Env.Deploy.Loops.{begin_at-Along}
use caramelo.Env.Deploy.Known.{Did, Did-trans, Did-Along, Push-Did}
use caramelo.Env.Deploy.SwitchRows.{
  AllRows, AllRows-right, RowsOf, switch_rows, Recorded-left, Recorded-right, switched_rows,
}

module _ (ports : PortLayout) (plant : Plant) (made : Bytes → List Replica) (now : ℕ) where
  -- The first loop leaves the pools with a route as they are.
  abbrev Untouched : List DeployPool → Looped → Type 0
  Untouched ps x = (l : Log) → AllRows ports x.1 l → AllRows ports ps l

  keep-Untouched :
      (p q : DeployPool) (ps : List DeployPool) (x : Looped)
      → Untouched ps x
      → ((l : Log) → RowsOf ports l q → RowsOf ports l p)
      → Untouched (p ∷ ps) (keep q x)
  unfolding keep
  keep-Untouched p q ps (b, qs, s) rest one l h = (one l h.0, rest l h.1)

  pub replace_pools-Untouched :
      (ps : List DeployPool) (r : DeployRun)
      → Untouched ps (replace_pools plant ports made now ps r)
  unfolding replace_pools after_service
  replace_pools-Untouched [] r = λ l h. tt
  replace_pools-Untouched (p ∷ ps) r = go p.exposed refl (replace_pools-Untouched ps)
    where
      after :
          p.exposed ≡ false
          → ((s : DeployRun) → Untouched ps (replace_pools plant ports made now ps s))
          → (x : Bool × DeployRun)
          → Untouched
              (p ∷ ps)
              (after_service plant ports made now p ps (replace_pools plant ports made now ps) x)
      after out rest (false, s) = λ l h. h
      after out rest (true, s) =
          let told = tell plant (put_service p.service) s in
          keep-Untouched p (record p { fresh = made p.service }) ps
            (replace_pools plant ports made now ps told) (rest told) (λ l h exposed. cc)

      go :
          (b : Bool)
          → p.exposed ≡ b
          → ((s : DeployRun) → Untouched ps (replace_pools plant ports made now ps s))
          → Untouched (p ∷ ps) (elim b as (λ x. Looped) [
            | true ↦ keep p (replace_pools plant ports made now ps r)
            | false ↦
                after_service plant ports made now p ps
                  (replace_pools plant ports made now ps)
                  (replace_service plant ports made now p.service r)
          ])
      go true e rest =
          keep-Untouched p p ps (replace_pools plant ports made now ps r) (rest r) (λ l h. h)
      go false e rest = after e rest (replace_service plant ports made now p.service r)

  -- A second loop that went through has recorded the rows of its pools.
  abbrev pub DidRecord : DeployRun → List DeployPool → Looped → Type 0
  DidRecord r ps (true, qs, s) = Did [] (λ l. r.has_edge ≡ true → AllRows ports ps l) r s
  DidRecord r ps (false, qs, s) = Unit {0}

  keep-DidRecord :
      (p q : DeployPool) (ps : List DeployPool) (r s : DeployRun) (x : Looped)
      → Did [] (λ l. r.has_edge ≡ true → RowsOf ports l p) r s
      → s.has_edge ≡ r.has_edge
      → DidRecord s ps x
      → DidRecord r (p ∷ ps) (keep q x)
  unfolding keep
  keep-DidRecord p q ps r s (false, qs, t) a same b = tt
  keep-DidRecord p q ps r s (true, qs, t) a same b =
      Did-trans [] (λ l. r.has_edge ≡ true → RowsOf ports l p)
        (λ l. s.has_edge ≡ true → AllRows ports ps l)
        (λ l. r.has_edge ≡ true → AllRows ports (p ∷ ps) l) r s t a b
        (λ l l' one more edge. (
          (λ exposed routed.
              Recorded-left (switch_rows ports p) (p.route ∷ p.more) l l'
                (one edge exposed routed)),
          AllRows-right ports ps l l' (more (same ∙ edge)),
        ))

  -- One pool is recorded.
  flipped_pool :
      (p : DeployPool) (r s : DeployRun)
      → Along r s
      → (x : Bool × DeployRun)
      → Push
          (λ l.
            s.has_edge ≡ true
            → p.route ≢ 0
            → Recorded
                (target_rows ((switch_pool ports p).fresh ++ (switch_pool ports p).held))
                (p.route ∷ p.more)
                l)
          s
          x
      → x.0 ≡ true
      → Did [] (λ l. r.has_edge ≡ true → RowsOf ports l p) r x.1
  flipped_pool p r s a x push e =
      Did-trans [] _ _ (λ l. r.has_edge ≡ true → RowsOf ports l p) r s x.1 (Did-Along r s a)
        (Push-Did _ s x push e)
        (λ l l' u known edge exposed routed.
          Recorded-right (switch_rows ports p) (p.route ∷ p.more) l l' (
            subst (λ rows. Recorded rows (p.route ∷ p.more) l') (switched_rows ports p)
              (known (a.edge ∙ edge) routed)))

  pub record_pools-DidRecord :
      (ps : List DeployPool) (r : DeployRun)
      → DidRecord r ps (record_pools plant ports made now ps r)
  unfolding record_pools after_plan after_record switch_pool
  record_pools-DidRecord [] r = record { asked = (Along-refl r).asked []; known = λ edge. tt }
  record_pools-DidRecord (p ∷ ps) r = go p.exposed refl (record_pools-DidRecord ps)
    where
      q : DeployPool
      q = switch_pool ports p

      recorded :
          ((s : DeployRun) → DidRecord s ps (record_pools plant ports made now ps s))
          → (x : Bool × DeployRun) → Along r x.1
          → (x.0 ≡ true → Did [] (λ l. r.has_edge ≡ true → RowsOf ports l p) r x.1)
          → DidRecord r
              (p ∷ ps)
              (after_record plant ports made now q ps (record_pools plant ports made now ps) x)
      recorded rest (false, s) a one = tt
      recorded rest (true, s) a one =
          keep-DidRecord p q ps r s (record_pools plant ports made now ps s) (one refl) a.edge
            (rest s)

      planned :
          ((s : DeployRun) → DidRecord s ps (record_pools plant ports made now ps s))
          → (x : Bool × DeployRun) → Along r x.1
          → DidRecord r
              (p ∷ ps)
              (after_plan plant ports made now p ps (record_pools plant ports made now ps) x)
      planned rest (false, s) a = tt
      planned rest (true, s) a =
          let begun = begin_at plant ports made now s in
          let there = Along-trans r s begun a (begin_at-Along plant ports made now s) in
          let x = record_flip plant q (q.fresh ++ q.held) begun in
          recorded rest x
            (Along-trans r begun x.1 there (record_flip-Along plant q (q.fresh ++ q.held) begun))
            (flipped_pool p r begun there x (record_flip-Push plant q (q.fresh ++ q.held) begun))

      go :
          (b : Bool)
          → p.exposed ≡ b
          → ((s : DeployRun) → DidRecord s ps (record_pools plant ports made now ps s))
          → DidRecord r (p ∷ ps) (elim b as (λ x. Looped) [
            | false ↦ keep p (record_pools plant ports made now ps r)
            | true ↦
                after_plan plant ports made now p ps
                  (record_pools plant ports made now ps)
                  (try plant (plan_service p.service) r)
          ])
      go false out rest =
          keep-DidRecord p p ps r r (record_pools plant ports made now ps r)
            (record { asked = (Along-refl r).asked []; known = λ edge exposed. cc }) refl (rest r)
      go true in_ rest =
          planned rest (try plant (plan_service p.service) r)
            (try-Along plant (plan_service p.service) r (λ cs a. tt))
