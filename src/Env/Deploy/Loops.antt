-- ===== src/Env/Deploy/Loops.antt =====
-- The loops of a deploy's switch over its pools (internal/env/deploy_run.go).
use caramelo.Common.{
  ℕ, ◌≡◌, ◌≢◌, refl, sym, ap, ◌∙◌, Bool, true, false, List, [], ◌∷◌, ◌++◌, Bytes, if◌then◌else◌,
  ◌==◌, nat_eq, arith,
}
use caramelo.Env.Layout.{PortLayout}
use caramelo.Env.Rollout.{Replica}
use caramelo.Env.Deploy.{
  DeployPool, plan_service, recreate_service, await_service, put_service, Plant, DeployRun, try,
  tell,
}
use caramelo.Env.Deploy.Ending.{record_flip}
use caramelo.Env.Deploy.Switch.{
  switch_pool, Looped, keep, replace_service, after_service, replace_pools, begin_at, after_record,
  after_plan, record_pools,
}
use caramelo.Env.Deploy.Logs.{containers}
use caramelo.Env.Deploy.Stops.{fresh_containers, relabelled}
use caramelo.Env.Deploy.Along.{
  Along, Along-refl, Along-trans, and_then-Along, fresh-switch_pool, try-Along, tell-Along,
  record_flip-Along,
}

-- A loop went along, and so do the pools that it leaves.
abbrev pub LoopedAlong : DeployRun → List DeployPool → Looped → Type 0
LoopedAlong r ps (b, qs, s) = Along r s × (fresh_containers qs ≡ fresh_containers ps)

module _ (plant : Plant) (ports : PortLayout) (made : Bytes → List Replica) (now : ℕ) where
  -- The pool goes on as `q`, which has as many fresh containers at the edge.
  keep-Along :
      (p q : DeployPool) (r s : DeployRun) (ps : List DeployPool) (x : Looped)
      → Along r s
      → LoopedAlong s ps x
      → ((qs : List DeployPool)
          → fresh_containers qs ≡ fresh_containers ps
          → fresh_containers (q ∷ qs) ≡ fresh_containers (p ∷ ps))
      → LoopedAlong r (p ∷ ps) (keep q x)
  unfolding keep
  keep-Along p q r s ps (b, qs, t) a (c, e) h = (Along-trans r s t a c, h qs e)

  same_pool :
      (p : DeployPool) (ps qs : List DeployPool)
      → fresh_containers qs ≡ fresh_containers ps
      → fresh_containers (p ∷ qs) ≡ fresh_containers (p ∷ ps)
  unfolding fresh_containers
  same_pool p ps qs e = ap (λ cs. (if p.exposed then containers p.fresh else []) ++ cs) e

  -- A pool without a route has none at the edge.
  remade_pool :
      (p : DeployPool) (reps : List Replica) (ps qs : List DeployPool)
      → p.exposed ≡ false
      → fresh_containers qs ≡ fresh_containers ps
      → fresh_containers (record p { fresh = reps } ∷ qs) ≡ fresh_containers (p ∷ ps)
  unfolding fresh_containers
  remade_pool p reps ps qs out e =
      ap (λ b. (if b then containers reps else []) ++ fresh_containers qs) out
      ∙ e
      ∙ ap (λ b. (if b then containers p.fresh else []) ++ fresh_containers ps) (sym out)

  replaced-Along : (r : DeployRun) → Along r (record r { replaced = true })
  replaced-Along r = record {
    asked = λ cs. relabelled cs r r (record r { replaced = true }) refl ((Along-refl r).asked cs);
    pushed = refl;
    status = λ e. e;
    started = λ h. h;
    counted = refl;
    edge = refl;
    fresh = refl;
  }

  pub begin_at-Along : (r : DeployRun) → Along r (begin_at plant ports made now r)
  unfolding begin_at
  begin_at-Along r = record {
    asked = λ cs. relabelled cs r r _ refl ((Along-refl r).asked cs);
    pushed = refl;
    status = λ e. e;
    started = λ h. begun r.flipped_at h;
    counted = refl;
    edge = refl;
    fresh = refl;
  }
    where
      begun : (n : ℕ) → n ≢ 0 → (if n == 0 then now else n) ≢ 0
      begun n h e = h (ground arith)

  replace_service-Along :
      (service : Bytes) (r : DeployRun) → Along r (replace_service plant ports made now service r).1
  unfolding replace_service
  replace_service-Along service r =
      and_then-Along r (try plant (plan_service service) r) _
        (try-Along plant (plan_service service) r (λ cs a. tt))
        (λ s.
          Along-trans s (record s { replaced = true }) _ (replaced-Along s)
            (and_then-Along (record s { replaced = true })
              (try plant (recreate_service service) (record s { replaced = true })) _
              (try-Along plant (recreate_service service) (record s { replaced = true })
                (λ cs a. tt))
              (λ t. try-Along plant (await_service service) t (λ cs a. tt))))

  pub replace_pools-Along :
      (ps : List DeployPool) (r : DeployRun)
      → LoopedAlong r ps (replace_pools plant ports made now ps r)
  unfolding replace_pools after_service
  replace_pools-Along [] r = (Along-refl r, refl)
  replace_pools-Along (p ∷ ps) r = go p.exposed refl (replace_pools-Along ps)
    where
      after :
          p.exposed ≡ false
          → ((s : DeployRun) → LoopedAlong s ps (replace_pools plant ports made now ps s))
          → (x : Bool × DeployRun) → Along r x.1
          → LoopedAlong r
              (p ∷ ps)
              (after_service plant ports made now p ps (replace_pools plant ports made now ps) x)
      after e rest (false, s) a = (a, refl)
      after e rest (true, s) a =
          let told = tell plant (put_service p.service) s in
          keep-Along p (record p { fresh = made p.service }) r told ps
            (replace_pools plant ports made now ps told)
            (Along-trans r s told a (tell-Along plant (put_service p.service) s (λ cs a. tt)))
            (rest told) (λ qs f. remade_pool p (made p.service) ps qs e f)

      go :
          (b : Bool)
          → p.exposed ≡ b
          → ((s : DeployRun) → LoopedAlong s ps (replace_pools plant ports made now ps s))
          → LoopedAlong r (p ∷ ps) (elim b as (λ x. Looped) [
            | true ↦ keep p (replace_pools plant ports made now ps r)
            | false ↦
                after_service plant ports made now p ps
                  (replace_pools plant ports made now ps)
                  (replace_service plant ports made now p.service r)
          ])
      go true e rest =
          keep-Along p p r r ps (replace_pools plant ports made now ps r) (Along-refl r) (rest r)
            (same_pool p ps)
      go false e rest = after e rest _ (replace_service-Along p.service r)

  pub record_pools-Along :
      (ps : List DeployPool) (r : DeployRun)
      → LoopedAlong r ps (record_pools plant ports made now ps r)
  unfolding record_pools after_plan after_record
  record_pools-Along [] r = (Along-refl r, refl)
  record_pools-Along (p ∷ ps) r = go p.exposed (record_pools-Along ps)
    where
      recorded :
          ((s : DeployRun) → LoopedAlong s ps (record_pools plant ports made now ps s))
          → (x : Bool × DeployRun) → Along r x.1
          → LoopedAlong r (p ∷ ps) (
              after_record plant ports made now
                (switch_pool ports p)
                ps
                (record_pools plant ports made now ps)
                x)
      recorded rest (false, s) a = (a, fresh-switch_pool ports p ps ps refl)
      recorded rest (true, s) a =
          keep-Along p (switch_pool ports p) r s ps (record_pools plant ports made now ps s) a
            (rest s) (fresh-switch_pool ports p ps)

      planned :
          ((s : DeployRun) → LoopedAlong s ps (record_pools plant ports made now ps s))
          → (x : Bool × DeployRun) → Along r x.1
          → LoopedAlong r
              (p ∷ ps)
              (after_plan plant ports made now p ps (record_pools plant ports made now ps) x)
      planned rest (false, s) a = (a, refl)
      planned rest (true, s) a =
          let q = switch_pool ports p in
          let begun = begin_at plant ports made now s in
          recorded rest (record_flip plant q (q.fresh ++ q.held) begun) (
            Along-trans r s _ a (
              Along-trans s begun _ (begin_at-Along s)
                (record_flip-Along plant q (q.fresh ++ q.held) begun)))

      go :
          (b : Bool)
          → ((s : DeployRun) → LoopedAlong s ps (record_pools plant ports made now ps s))
          → LoopedAlong r (p ∷ ps) (elim b as (λ x. Looped) [
            | false ↦ keep p (record_pools plant ports made now ps r)
            | true ↦
                after_plan plant ports made now p ps
                  (record_pools plant ports made now ps)
                  (try plant (plan_service p.service) r)
          ])
      go false rest =
          keep-Along p p r r ps (record_pools plant ports made now ps r) (Along-refl r) (rest r)
            (same_pool p ps)
      go true rest =
          planned rest (try plant (plan_service p.service) r)
            (try-Along plant (plan_service p.service) r (λ cs a. tt))
