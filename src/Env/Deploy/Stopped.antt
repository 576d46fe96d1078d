-- ===== src/Env/Deploy/Stopped.antt =====
-- That the end of a deploy asks for the stop of its containers (internal/env/deploy_watch.go).
use caramelo.Common.{
  ℕ, suc, ◌≡◌, ◌≢◌, refl, inl, Bool, true, false, List, [], ◌∷◌, ◌++◌, map, ap, ◌∙◌, Bytes, ◌==◌,
  bytes_eq, if◌then◌else◌, All, All-append, All-mono, Any, Any-append_left, Any-append_right,
}
use caramelo.Env.Rollout.{Replica}
use caramelo.Env.Deploy.{
  DeployPool, Call, Answer, Log, stop_container, remove_container, Plant, DeployRun, try, and_then,
}
use caramelo.Env.Deploy.Ending.{turn_back, stop_replica, stop_replicas, stop_fresh, stop_held}
use caramelo.Env.Deploy.Logs.{Asks, Asks-refl, try-Asks, StopsOnly, containers}
use caramelo.Env.Deploy.Stops.{
  fresh_containers, held_containers, from_asks, In, Listed, turned_fresh, turned_exposed,
}
use caramelo.Env.Deploy.Known.{Did, Did-trans}

abbrev pub HasStop : Bytes → Log → Type 0
HasStop c l = Any (λ (e : Call × Answer). e.0 ≡ stop_container c) l

-- Each of the containers that there are was asked to be stopped.
abbrev pub AllStopped : List Bytes → Log → Type 0
AllStopped cs l = All (λ c. c ≢ [] → HasStop c l) cs

pub AllStopped-left : (cs : List Bytes) (l l' : Log) → AllStopped cs l → AllStopped cs (l ++ l')
AllStopped-left cs l l' h =
    All-mono (λ c g ne. Any-append_left (λ e. e.0 ≡ stop_container c) l l' (g ne)) cs h

pub AllStopped-right : (cs : List Bytes) (l l' : Log) → AllStopped cs l' → AllStopped cs (l ++ l')
AllStopped-right cs l l' h =
    All-mono (λ c g ne. Any-append_right (λ e. e.0 ≡ stop_container c) l l' (g ne)) cs h

module _ (plant : Plant) (cs : List Bytes) where
  and_then-Did :
      (c : Bytes) (r : DeployRun) (x : Bool × DeployRun) (f : DeployRun → Bool × DeployRun)
      → Did cs (HasStop c) r x.1
      → ((s : DeployRun) → Asks (StopsOnly cs) s (f s).1)
      → Did cs (HasStop c) r (and_then x f).1
  unfolding and_then
  and_then-Did c r (false, s) f d later = d
  and_then-Did c r (true, s) f d later =
      Did-trans cs (HasStop c) (λ l. Unit {0}) (HasStop c) r s (f s).1 d
        (record { asked = from_asks cs s (f s).1 (later s); known = tt })
        (λ l l' h u. Any-append_left (λ e. e.0 ≡ stop_container c) l l' h)

  stop_replica-Did :
      (c : Bytes) (r : DeployRun) → In cs c → Did cs (HasStop c) r (stop_replica plant c r).1
  unfolding stop_replica try
  stop_replica-Did c r h =
      and_then-Did c r (try plant (stop_container c) r) (try plant (remove_container c))
        (record {
          asked = record {
            rest = (stop_container c, plant r.log (stop_container c)) ∷ [];
            whole = refl;
            each = (h, tt);
          };
          known = inl refl;
        })
        (λ s. try-Asks (StopsOnly cs) plant (remove_container c) s (λ a. h))

  unless_none-Did :
      (c : Bytes) (r : DeployRun)
      → In cs c
      → Did cs
          (λ l. c ≢ [] → HasStop c l)
          r
          (if c == [] then (false, r) else stop_replica plant c r).1
  unless_none-Did c r h = go (c == []) refl
    where
      go :
          (b : Bool)
          → (c == []) ≡ b
          → Did cs
              (λ l. c ≢ [] → HasStop c l)
              r
              (if b then (false, r) else stop_replica plant c r).1
      go true e = record {
        asked = from_asks cs r r (Asks-refl (StopsOnly cs) r);
        known = λ ne. absurd (ne ((bytes_eq.same_iff c []).0 e));
      }
      go false e =
          let d = stop_replica-Did c r h in record { asked = d.asked; known = λ ne. d.known }

  pub stop_replicas-Did :
      (reps : List Replica) (n : ℕ) (r : DeployRun)
      → All (λ c. In cs c) (containers reps)
      → Did cs (AllStopped (containers reps)) r (stop_replicas plant reps n r).1
  unfolding stop_replicas containers
  stop_replicas-Did [] n r h = record {
    asked = from_asks cs r r (Asks-refl (StopsOnly cs) r);
    known = tt;
  }
  stop_replicas-Did (rep ∷ reps) n r h =
      let c = rep.container in
      let x = if c == [] then (false, r) else stop_replica plant c r in
      Did-trans cs (λ l. c ≢ [] → HasStop c l) (AllStopped (containers reps))
        (AllStopped (c ∷ containers reps)) r x.1 _ (unless_none-Did c r h.0)
        (stop_replicas-Did reps (if x.0 then suc n else n) x.1 h.1)
        (λ l l' one more. (
          (λ ne. Any-append_left (λ e. e.0 ≡ stop_container c) l l' (one ne)),
          AllStopped-right (containers reps) l l' more,
        ))

  pub stop_held-Did :
      (ps : List DeployPool) (n : ℕ) (r : DeployRun)
      → All (λ (p : DeployPool). All (λ c. In cs c) (containers p.held)) ps
      → Did cs (AllStopped (held_containers ps)) r (stop_held plant ps n r).1
  unfolding stop_held held_containers
  stop_held-Did [] n r h = record {
    asked = from_asks cs r r (Asks-refl (StopsOnly cs) r);
    known = tt;
  }
  stop_held-Did (p ∷ ps) n r h =
      let x = stop_replicas plant p.held n r in
      Did-trans cs (AllStopped (containers p.held)) (AllStopped (held_containers ps))
        (AllStopped (containers p.held ++ held_containers ps)) r x.1 _
        (stop_replicas-Did p.held n r h.0) (stop_held-Did ps x.0 x.1 h.1)
        (λ l l' one more.
          All-append (λ c. c ≢ [] → HasStop c (l ++ l')) (containers p.held) (held_containers ps)
            (AllStopped-left (containers p.held) l l' one)
            (AllStopped-right (held_containers ps) l l' more))

  stop_one-Did :
      (p : DeployPool) (r : DeployRun)
      → Listed cs plant p
      → Did cs
          (AllStopped (if p.exposed then containers p.fresh else []))
          r
          (if p.exposed then (stop_replicas plant p.fresh 0 r).1 else r)
  stop_one-Did p r h = go p.exposed h
    where
      go :
          (b : Bool)
          → (b ≡ true → All (λ c. In cs c) (containers p.fresh))
          → Did cs
              (AllStopped (if b then containers p.fresh else []))
              r
              (if b then (stop_replicas plant p.fresh 0 r).1 else r)
      go true h = stop_replicas-Did p.fresh 0 r (h refl)
      go false h = record { asked = from_asks cs r r (Asks-refl (StopsOnly cs) r); known = tt }

  pub stop_fresh-Did :
      (ps : List DeployPool) (r : DeployRun)
      → All (Listed cs plant) ps
      → Did cs (AllStopped (fresh_containers ps)) r (stop_fresh plant ps r)
  unfolding stop_fresh fresh_containers
  stop_fresh-Did [] r h = record {
    asked = from_asks cs r r (Asks-refl (StopsOnly cs) r);
    known = tt;
  }
  stop_fresh-Did (p ∷ ps) r h =
      let s = if p.exposed then (stop_replicas plant p.fresh 0 r).1 else r in
      let own = if p.exposed then containers p.fresh else [] in
      Did-trans cs (AllStopped own) (AllStopped (fresh_containers ps))
        (AllStopped (own ++ fresh_containers ps)) r s _ (stop_one-Did p r h.0)
        (stop_fresh-Did ps s h.1)
        (λ l l' one more.
          All-append (λ c. c ≢ [] → HasStop c (l ++ l')) own (fresh_containers ps)
            (AllStopped-left own l l' one) (AllStopped-right (fresh_containers ps) l l' more))

-- The pools that are turned back have the same fresh containers at the edge.
pub fresh_containers-turn_back :
    (ps : List DeployPool) → fresh_containers (map turn_back ps) ≡ fresh_containers ps
unfolding fresh_containers
fresh_containers-turn_back [] = refl
fresh_containers-turn_back (p ∷ ps) =
    ap
      (λ b.
        (if b then containers (turn_back p).fresh else []) ++ fresh_containers (map turn_back ps))
      (turned_exposed p)
    ∙ ap (λ cs. (if p.exposed then cs else []) ++ fresh_containers (map turn_back ps))
        (turned_fresh p)
    ∙ ap (λ cs. (if p.exposed then containers p.fresh else []) ++ cs)
        (fresh_containers-turn_back ps)
