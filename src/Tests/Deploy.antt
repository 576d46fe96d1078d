-- ===== src/Tests/Deploy.antt =====
-- The end of a deploy (internal/env/deploy_watch.go) of one service with a fresh replica and a held one.
use caramelo.Common.{
  ℕ, ◌+◌, ◌*◌, ◌≤◌, ◌≡◌, refl, true, false, List, [], ◌∷◌, ◌++◌, map, none, some, codes, Bytes,
  arith, ltb, nat_eq, bytes_eq, bytes_beq,
}
use caramelo.Edge.Host.{normalize_host}
use caramelo.Edge.Pool.State.{no_counts}
use caramelo.Env.Rollout.{Replica, active, service_running, health_ok}
use caramelo.Env.Deploy.{
  watching, promoted, deploy_failed, by_hand, asked, too_many_errors, DeployPool, push_table, fine,
  refused, Plant, DeployRun, and_then,
}
use caramelo.Env.Deploy.Ending.{promote, rollback, swap}
use caramelo.Env.Deploy.Watch.{
  Policy, watch_window, running, Choice, ticked, Round, watch_all, watch_deploy,
}
use caramelo.Env.Deploy.Back.{RolledBack, rollback-RolledBack}
use caramelo.Env.Deploy.LetGo.{Promoted, promote-Promoted}
use caramelo.Env.Deploy.Justified.{Grounded, watch_all-Grounded}
use caramelo.Env.Layout.{PortLayout}
use caramelo.Env.Deploy.Switch.{flip}
use caramelo.Env.Deploy.Switched.{Switched, flip-Switched}
use caramelo.Env.Deploy.Settled.{Ended, watch_deploy-Ended}

abbrev replica_at : ℕ → Bytes → Replica
replica_at i container = record {
  index = i;
  container = container;
  port = 20000 + i;
  state = active;
  status = service_running;
  health = health_ok;
}

abbrev web_pool : DeployPool
web_pool = record {
  service = codes "web";
  exposed = true;
  host = codes "shop.dev";
  route = 7;
  more = [];
  fresh = replica_at 1 (codes "web-1") ∷ [];
  held = replica_at 0 (codes "web-0") ∷ [];
}

abbrev switched : DeployRun
switched = record {
  has_edge = true;
  has_builder = true;
  pools = web_pool ∷ [];
  flipped_at = 100;
  counted_from = 0;
  detached = false;
  replaced = false;
  pushed = false;
  release = 3;
  commit = true;
  from_release = false;
  status = watching;
  reason = none;
  registered = true;
  log = [];
}

abbrev willing : Plant
willing log c = fine

-- The edge takes no table.
abbrev deaf : Plant
deaf log push_table = refused
deaf log c = fine

abbrev ten_long : Policy
ten_long = record {
  watch = 10;
  manual = false;
  limited = true;
  exceeds = λ bad all. ltb all (20 * bad);
}

abbrev round_at : ℕ → ℕ → Choice → Round
round_at now bad choice = record {
  counts = some (
    100,
    record {
      host = codes "Shop.dev.";
      total = record { requests = 40; status5xx = bad; connect_failures = 0 };
      targets =
          record {
            replica = 1;
            counted = record { requests = 40; status5xx = bad; connect_failures = 0 };
          }
          ∷ [];
      unrouted = no_counts;
    }
        ∷ [],
  );
  count_now = now;
  inspect = λ c. running;
  now = now;
  choice = choice;
}

abbrev quiet_rounds : List Round
quiet_rounds = round_at 105 1 ticked ∷ round_at 110 1 ticked ∷ []

quiet_watch : (watch_deploy willing ten_long quiet_rounds switched).status ≡ promoted
unfolding watch_deploy bytes_beq normalize_host
quiet_watch = refl

-- Two errors in forty requests are one in twenty.
noisy_watch :
    (watch_deploy willing ten_long (round_at 105 3 ticked ∷ []) switched).reason
    ≡ some (too_many_errors 3 40)
unfolding watch_deploy bytes_beq normalize_host and_then
noisy_watch = refl

rolls_back_pools :
    map (λ (p : DeployPool). p.fresh) (rollback willing by_hand switched).pools
    ≡ (replica_at 0 (codes "web-0") ∷ []) ∷ []
unfolding rollback bytes_beq and_then swap
rolls_back_pools = refl

fails_to_roll_back : (rollback deaf by_hand switched).status ≡ deploy_failed
unfolding rollback bytes_beq and_then
fails_to_roll_back = refl

rollback-Rolled_example : RolledBack switched (rollback deaf (asked (codes "slow")) switched)
rollback-Rolled_example = rollback-RolledBack deaf (asked (codes "slow")) switched

promote-Promoted_example : Promoted switched (promote willing by_hand switched)
promote-Promoted_example = promote-Promoted willing by_hand switched

watch_all-Grounded_example :
    Grounded ten_long switched quiet_rounds (watch_all ten_long false quiet_rounds switched)
watch_all-Grounded_example =
    watch_all-Grounded ten_long false quiet_rounds switched (λ e. omega arith) (omega arith)

long_after : 100 + 2 * watch_window ten_long ≤ 120
unfolding watch_window
long_after = omega arith

watch_deploy-Ended_example : Ended (
    watch_deploy willing ten_long
      ((round_at 105 1 ticked ∷ []) ++ round_at 120 1 ticked ∷ [])
      switched)
watch_deploy-Ended_example =
    watch_deploy-Ended ten_long refl willing (round_at 105 1 ticked ∷ []) (round_at 120 1 ticked) []
      switched (λ e. omega arith) ((λ e. cc), tt) long_after

abbrev ports : PortLayout
ports = record {
  base = 20000;
  count = 32;
  deps = [];
  services = (codes "web", 20000) ∷ [];
  container_ports = (codes "web", 8080) ∷ [];
  order = (codes "web", 0) ∷ [];
  spare = 20004;
  published = 1;
}

abbrev remade : Bytes → List Replica
remade service = replica_at 0 (codes "worker-0") ∷ []

-- The web service has a fresh replica and an old one; the worker has no route.
abbrev starting_run : DeployRun
starting_run = record switched {
  pools =
      record web_pool { service = codes "worker"; exposed = false; fresh = []; held = [] }
      ∷ web_pool
      ∷ [];
  flipped_at = 0;
}

switches : (flip willing ports remade 100 starting_run).0 ≡ true
unfolding flip and_then
switches = refl

does_not_switch : (flip deaf ports remade 100 starting_run).1.status ≡ deploy_failed
unfolding flip and_then bytes_beq
does_not_switch = refl

flip-Switched_example : Switched ports starting_run (flip willing ports remade 100 starting_run)
flip-Switched_example = flip-Switched willing ports remade 100 starting_run refl (λ e. omega arith)
