-- ===== src/Env/Deploy/Switched.antt =====
-- What the switch of a deploy comes to (internal/env/deploy_run.go).
use caramelo.Common.{
  ℕ, ◌≤◌, ◌≡◌, ◌≢◌, refl, sym, ◌∙◌, ◌++◌, Any-append_left, Any-append_right, Bool, true, false,
  List, [], Bytes, arith, if◌then◌else◌, ◌==◌, nat_eq,
}
use caramelo.Env.Layout.{PortLayout}
use caramelo.Env.Rollout.{Replica}
use caramelo.Env.Deploy.{
  watching, switch_failed, DeployPool, Log, fine, push_table, update_deploy, Plant, DeployRun, try,
}
use caramelo.Env.Deploy.Ending.{push_routes}
use caramelo.Env.Deploy.Switch.{
  Looped, replace_pools, begin_at, record_pools, put_services, hold, after_push, after_records,
  after_update, after_replace, flip,
}
use caramelo.Env.Deploy.Stops.{fresh_containers, Asked, relabelled}
use caramelo.Env.Deploy.Rounds.{Bounded}
use caramelo.Env.Deploy.Along.{Along, Along-trans, repooled, try-Along, push_routes-Along}
use caramelo.Env.Deploy.Loops.{LoopedAlong, replace_pools-Along, record_pools-Along, begin_at-Along}
use caramelo.Env.Deploy.Pushes.{Has, push_routes-Push}
use caramelo.Env.Deploy.Known.{Did, Did-trans, Did-relabelled, Did-moved, Did-Along, Push-Did}
use caramelo.Env.Deploy.SwitchRows.{AllRows, AllRows-left, AllRows-right}
use caramelo.Env.Deploy.Published.{DidRecord, replace_pools-Untouched, record_pools-DidRecord}
use caramelo.Env.Deploy.Holding.{put_services-Along, hold-Along}
use caramelo.Env.Deploy.Failing.{Failed, after-Failed, fail_flip-Failed}

-- The run can be watched: its pools have been recorded and pushed, and no container was asked to be
-- stopped or removed.
pub record Ready (ports : PortLayout) (r r' : DeployRun) : Type 0 where
  pub stops : Asked [] r r'
  pub published : r.has_edge ≡ true → AllRows ports r.pools stops.rest × Has push_table stops.rest
  pub status : r'.status ≡ watching
  pub pushed : r'.pushed ≡ true
  pub started : r'.flipped_at ≢ 0
  pub bounded : r.counted_from ≡ 0 → Bounded r'

abbrev pub Switched : PortLayout → DeployRun → Bool × DeployRun → Type 0
Switched ports r (true, r') = Ready ports r r'
Switched ports r (false, r') = Failed (fresh_containers r.pools) r r'

not_counting : (r : DeployRun) → r.counted_from ≡ 0 → Bounded r
not_counting r e = at_zero r.counted_from r.flipped_at e
  where
    at_zero : (c f : ℕ) → c ≡ 0 → f ≤ (if c == 0 then f else c)
    at_zero c f e = ground arith

watched_now : (r s : DeployRun) → Along r s → Along r (record s { status = watching })
watched_now r s a = record {
  asked = λ cs. relabelled cs r s (record s { status = watching }) refl (a.asked cs);
  pushed = a.pushed;
  status = λ e. refl;
  started = a.started;
  counted = a.counted;
  edge = a.edge;
  fresh = a.fresh;
}

module _ (plant : Plant) (ports : PortLayout) (made : Bytes → List Replica) (now : ℕ) where
  abbrev AllPushed : List DeployPool → Log → Type 0
  AllPushed ps l = AllRows ports ps l × Has push_table l

  module _ (r : DeployRun) (fresh_run : r.pushed ≡ false) where
    later : (l l' : Log) → AllPushed r.pools l → AllPushed r.pools (l ++ l')
    later l l' (rows, push) = (
      AllRows-left ports r.pools l l' rows,
      Any-append_left (λ e. e ≡ (push_table, fine)) l l' push,
    )

    begins : (n : ℕ) → now ≢ 0 → (if n == 0 then now else n) ≢ 0
    begins n timed e = timed (ground arith)

    after_push-Switched :
        (x : Bool × DeployRun)
        → Along r x.1
        → (x.0 ≡ true → Did [] (λ l. r.has_edge ≡ true → AllPushed r.pools l) r x.1)
        → x.1.status ≡ watching
        → x.1.flipped_at ≢ 0
        → Switched ports r (after_push plant ports made now x)
    unfolding after_push
    after_push-Switched (false, s) a did w f = fail_flip-Failed plant ports made now r s fresh_run a
    after_push-Switched (true, s) a did w f =
        let on = record s { pushed = true } in
        let put = put_services plant ports made now s.pools on in
        let tail =
          Along-trans on put _ (put_services-Along plant ports made now s.pools on)
            (hold-Along plant ports made now put) in
        let end = hold plant ports made now put in
        let whole =
          Did-trans [] _ _ (λ l. r.has_edge ≡ true → AllPushed r.pools l) r s end (did refl)
            (Did-relabelled s on end refl tail) (λ l l' known u edge. later l l' (known edge)) in
        record {
          stops = whole.asked;
          published = whole.known;
          status = tail.status w;
          pushed = tail.pushed;
          started = tail.started f;
          bounded =
              λ z. not_counting (hold plant ports made now put) (tail.counted ∙ a.counted ∙ z);
        }

    module _ (timed : now ≢ 0) where
      after_records-Switched :
          (s : DeployRun) (x : Looped)
          → Along r s
          → s.status ≡ watching
          → LoopedAlong s s.pools x
          → DidRecord ports plant made now s s.pools x
          → ((l : Log) → AllRows ports s.pools l → AllRows ports r.pools l)
          → Switched ports r (after_records plant ports made now x)
      unfolding after_records begin_at
      after_records-Switched s (false, ps, t) a w (b, e) did same =
          fail_flip-Failed plant ports made now r (record t { pools = ps }) fresh_run
            (Along-trans r s _ a (Along-trans s t _ b (repooled t ps (e ∙ sym b.fresh))))
      after_records-Switched s (true, ps, t) a w (b, e) did same =
          let all = record t { pools = ps } in
          let begun = begin_at plant ports made now all in
          let pushed = push_routes-Along plant begun in
          let on_way = Along-trans s t begun b (
            Along-trans t all begun (repooled t ps (e ∙ sym b.fresh))
              (begin_at-Along plant ports made now all)) in
          let there = Along-trans s begun _ on_way pushed in
          after_push-Switched (push_routes plant begun) (Along-trans r s _ a there)
            (λ ok_.
              Did-trans [] _ _ (λ l. r.has_edge ≡ true → AllPushed r.pools l) r s _
                (Did-Along r s a)
                (Did-trans [] _ _ (λ l. s.has_edge ≡ true → AllPushed s.pools l) s begun _
                  (Did-moved [] _ s t begun refl did)
                  (Push-Did _ begun (push_routes plant begun) (push_routes-Push plant begun) ok_)
                  (λ l l' rows push edge. (
                    AllRows-left ports s.pools l l' (rows edge),
                    Any-append_right (λ e. e ≡ (push_table, fine)) l l' (push (on_way.edge ∙ edge)),
                  )))
                (λ l l' u known edge.
                  let both = known (a.edge ∙ edge) in
                  (
                    AllRows-right ports r.pools l l' (same l' both.0),
                    Any-append_right (λ e. e ≡ (push_table, fine)) l l' both.1,
                  )))
            (there.status w) (pushed.started (begins t.flipped_at timed))

      after_update-Switched :
          (x : Bool × DeployRun)
          → Along r x.1
          → x.1.status ≡ watching
          → ((l : Log) → AllRows ports x.1.pools l → AllRows ports r.pools l)
          → Switched ports r (after_update plant ports made now x)
      unfolding after_update
      after_update-Switched (false, s) a w same =
          after-Failed plant ports made now switch_failed r s fresh_run a
      after_update-Switched (true, s) a w same =
          after_records-Switched s (record_pools plant ports made now s.pools s) a w
            (record_pools-Along plant ports made now s.pools s)
            (record_pools-DidRecord ports plant made now s.pools s) same

      after_replace-Switched :
          (x : Looped)
          → LoopedAlong r r.pools x
          → ((l : Log) → AllRows ports x.1 l → AllRows ports r.pools l)
          → Switched ports r (after_replace plant ports made now x)
      unfolding after_replace try
      after_replace-Switched (false, ps, s) (a, e) same =
          after-Failed plant ports made now switch_failed r (record s { pools = ps }) fresh_run
            (Along-trans r s _ a (repooled s ps (e ∙ sym a.fresh)))
      after_replace-Switched (true, ps, s) (a, e) same =
          let all = record s { pools = ps } in
          let watched = record all { status = watching } in
          let asked = try-Along plant (update_deploy watching) watched (λ cs b. tt) in
          let here = Along-trans r s all a (repooled s ps (e ∙ sym a.fresh)) in
          after_update-Switched (try plant (update_deploy watching) watched)
            (Along-trans r watched _ (watched_now r all here) asked) (asked.status refl) same

      -- A switch that succeeds leaves a deploy that is watched and whose switch has a time; if it had
      -- not begun to count, it counts from no time before that. Where there is an edge, of each pool
      -- at the edge that has a route the fresh replicas were recorded as those that serve and the
      -- replicas before them as those that leave, for each of its routes, and the table was pushed.
      -- No container was asked to be stopped or removed. A switch that fails, at whatever call,
      -- leaves a deploy that has failed and is no longer watched; no pool at the edge has fresh
      -- replicas left, and no container but those of these replicas was asked to be stopped or
      -- removed. What making a service again does to the containers of that service is not counted.
      -- The pools had not been pushed before, and the time of the switch is not 0.
      pub flip-Switched : Switched ports r (flip plant ports made now r)
      unfolding flip
      flip-Switched =
          after_replace-Switched (replace_pools plant ports made now r.pools r)
            (replace_pools-Along plant ports made now r.pools r)
            (replace_pools-Untouched ports plant made now r.pools r)
