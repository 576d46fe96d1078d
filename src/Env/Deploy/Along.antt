-- ===== src/Env/Deploy/Along.antt =====
-- What the parts of a switch leave as it was (internal/env/deploy_run.go).
use caramelo.Common.{
  ◌≡◌, ◌≢◌, refl, sym, ap, ◌∙◌, Bool, true, false, not, List, [], ◌∷◌, ◌++◌, map, Bytes,
  if◌then◌else◌, ◌||◌, ◌==◌, nat_eq, bytes_eq,
}
use caramelo.Env.Layout.{PortLayout}
use caramelo.Env.Rollout.{Replica}
use caramelo.Env.Rollout.Flip.{activate, target_rows}
use caramelo.Env.Deploy.{
  watching, DeployPool, Call, Answer, Log, Plant, DeployRun, try, tell, and_then,
}
use caramelo.Env.Deploy.Ending.{set_each, record_flip, push_routes, push_pools}
use caramelo.Env.Deploy.Logs.{
  Asks, Asks-refl, Asks-mono, try-Asks, tell-Asks, IsPush, StopsOnly, IsPush-StopsOnly, containers,
}
use caramelo.Env.Deploy.Pushes.{Push, push_pools-Push, push_routes-Push, set_each-Push}
use caramelo.Env.Deploy.Stops.{fresh_containers, Asked, from_asks, Asked-trans, relabelled}
use caramelo.Env.Deploy.Switch.{switch_pool, reactivate}

-- No container was asked to be stopped or removed on the way, a run that is watched or has begun to
-- count remains so, and the rest is as it was.
pub record Along (r s : DeployRun) : Type 0 where
  pub asked : (cs : List Bytes) → Asked cs r s
  pub pushed : s.pushed ≡ r.pushed
  pub status : r.status ≡ watching → s.status ≡ watching
  pub started : r.flipped_at ≢ 0 → s.flipped_at ≢ 0
  pub counted : s.counted_from ≡ r.counted_from
  pub edge : s.has_edge ≡ r.has_edge
  pub fresh : fresh_containers s.pools ≡ fresh_containers r.pools

pub Along-refl : (r : DeployRun) → Along r r
Along-refl r = record {
  asked = λ cs. from_asks cs r r (Asks-refl (StopsOnly cs) r);
  pushed = refl;
  status = λ e. e;
  started = λ h. h;
  counted = refl;
  edge = refl;
  fresh = refl;
}

pub Along-trans : (r s t : DeployRun) → Along r s → Along s t → Along r t
Along-trans r s t a b = record {
  asked = λ cs. Asked-trans cs r s t (a.asked cs) (b.asked cs);
  pushed = b.pushed ∙ a.pushed;
  status = λ e. b.status (a.status e);
  started = λ h. b.started (a.started h);
  counted = b.counted ∙ a.counted;
  edge = b.edge ∙ a.edge;
  fresh = b.fresh ∙ a.fresh;
}

-- A part that asks for nothing but this goes along.
pub from_Asks : (r s : DeployRun) → ((cs : List Bytes) → Asks (StopsOnly cs) r s) → Along r s
from_Asks r s a = record {
  asked = λ cs. from_asks cs r s (a cs);
  pushed = ap (λ (u : DeployRun). u.pushed) (a []).same;
  status = λ e. ap (λ (u : DeployRun). u.status) (a []).same ∙ e;
  started = λ h z. h (sym (ap (λ (u : DeployRun). u.flipped_at) (a []).same) ∙ z);
  counted = ap (λ (u : DeployRun). u.counted_from) (a []).same;
  edge = ap (λ (u : DeployRun). u.has_edge) (a []).same;
  fresh = ap (λ (u : DeployRun). fresh_containers u.pools) (a []).same;
}

-- The pools change, but not the containers that are fresh at the edge.
pub repooled :
    (r : DeployRun) (ps : List DeployPool)
    → fresh_containers ps ≡ fresh_containers r.pools
    → Along r (record r { pools = ps })
repooled r ps e = record {
  asked = λ cs.
      relabelled cs r r (record r { pools = ps }) refl
        (from_asks cs r r (Asks-refl (StopsOnly cs) r));
  pushed = refl;
  status = λ e. e;
  started = λ h. h;
  counted = refl;
  edge = refl;
  fresh = e;
}

pub either-Along :
    (b : Bool) (r s t : DeployRun) → Along r s → Along r t → Along r (if b then s else t)
either-Along true r s t a a' = a
either-Along false r s t a a' = a'

pub and_then-Along :
    (r : DeployRun) (x : Bool × DeployRun) (f : DeployRun → Bool × DeployRun)
    → Along r x.1
    → ((s : DeployRun) → Along s (f s).1)
    → Along r (and_then x f).1
unfolding and_then
and_then-Along r (true, s) f a later = Along-trans r s (f s).1 a (later s)
and_then-Along r (false, s) f a later = a

containers-activate : (reps : List Replica) → containers (activate reps) ≡ containers reps
unfolding containers activate
containers-activate [] = refl
containers-activate (rep ∷ reps) =
    ap (λ (cs : List Bytes). rep.container ∷ cs) (containers-activate reps)

-- The fresh containers of one pool, before the others'.
own_fresh : Bool → List Replica → List Bytes
own_fresh b reps = if b then containers reps else []

pub fresh-switch_pool :
    (ports : PortLayout) (p : DeployPool) (ps qs : List DeployPool)
    → fresh_containers qs ≡ fresh_containers ps
    → fresh_containers (switch_pool ports p ∷ qs) ≡ fresh_containers (p ∷ ps)
unfolding fresh_containers switch_pool
fresh-switch_pool ports p ps qs e =
    ap (λ cs. (if p.exposed then cs else []) ++ fresh_containers qs) (containers-activate p.fresh)
    ∙ ap (λ cs. (if p.exposed then containers p.fresh else []) ++ cs) e

pub fresh-map :
    (f : DeployPool → DeployPool)
    → ((p : DeployPool) → ((f p).exposed ≡ p.exposed) × ((f p).fresh ≡ p.fresh))
    → (ps : List DeployPool) → fresh_containers (map f ps) ≡ fresh_containers ps
unfolding fresh_containers
fresh-map f h [] = refl
fresh-map f h (p ∷ ps) =
    ap (λ b. (if b then containers (f p).fresh else []) ++ fresh_containers (map f ps)) (h p).0
    ∙ ap (λ reps. (if p.exposed then containers reps else []) ++ fresh_containers (map f ps))
        (h p).1
    ∙ ap (λ cs. (if p.exposed then containers p.fresh else []) ++ cs) (fresh-map f h ps)

pub reactivate-keeps :
    (p : DeployPool) → ((reactivate p).exposed ≡ p.exposed) × ((reactivate p).fresh ≡ p.fresh)
unfolding reactivate
reactivate-keeps p = go p.exposed
  where
    go :
        (b : Bool)
        → ((if b then record p { held = activate p.held } else p).exposed ≡ p.exposed)
          × ((if b then record p { held = activate p.held } else p).fresh ≡ p.fresh)
    go true = (refl, refl)
    go false = (refl, refl)

module _ (plant : Plant) where
  pub try-Along :
      (c : Call) (r : DeployRun)
      → ((cs : List Bytes) (a : Answer) → StopsOnly cs (c, a))
      → Along r (try plant c r).1
  try-Along c r h = from_Asks r _ (λ cs. try-Asks (StopsOnly cs) plant c r (h cs))

  pub tell-Along :
      (c : Call) (r : DeployRun)
      → ((cs : List Bytes) (a : Answer) → StopsOnly cs (c, a))
      → Along r (tell plant c r)
  tell-Along c r h = from_Asks r _ (λ cs. tell-Asks (StopsOnly cs) plant c r (h cs))

  Push-Along : (Q : Log → Type 0) (r : DeployRun) (x : Bool × DeployRun) → Push Q r x → Along r x.1
  Push-Along Q r x p =
      from_Asks r x.1 (λ cs. Asks-mono IsPush (StopsOnly cs) r x.1 (IsPush-StopsOnly cs) p.asks)

  pub push_pools-Along : (r : DeployRun) → Along r (push_pools plant r).1
  push_pools-Along r = Push-Along _ r (push_pools plant r) (push_pools-Push plant r)

  pub push_routes-Along : (r : DeployRun) → Along r (push_routes plant r).1
  push_routes-Along r = Push-Along _ r (push_routes plant r) (push_routes-Push plant r)

  pub record_flip-Along :
      (p : DeployPool) (reps : List Replica) (r : DeployRun)
      → Along r (record_flip plant p reps r).1
  unfolding record_flip
  record_flip-Along p reps r = go (not r.has_edge || p.route == 0)
    where
      go :
          (b : Bool)
          → Along r
              (if b then (true, r) else set_each plant (p.route ∷ p.more) (target_rows reps) r).1
      go true = Along-refl r
      go false = Push-Along _ r _ (set_each-Push plant (p.route ∷ p.more) (target_rows reps) r)
