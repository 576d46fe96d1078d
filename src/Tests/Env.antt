-- ===== src/Tests/Env.antt =====
-- internal/env on an environment with two dependencies and two services.
use caramelo.Common.{
  ℕ, Bool, inl, ◌+◌, ◌≤◌, ◌<◌, ◌≡◌, refl, List, [], ◌∷◌, none, some, codes, Bytes, true, false,
  length, arith, bytes_beq, lookup, insert, if◌then◌else◌, ◌==◌, nat_eq,
}
use caramelo.Env.Layout.{ServicePorts, PortLayout, laid_out, layout, replica_port, at, dep_port}
use caramelo.Env.Layout.Apart.{replica_port-apart, replica_port-InBlock}
use caramelo.Env.Layout.Blocks.{Uses, replica, allocate-Uses}
use caramelo.Ports.{EnvRow, rows, allocate}
use caramelo.Env.Replicas.{LiveReplica, free_indexes, is_taken}
use caramelo.Env.Replicas.Free.{LowestFree, free_indexes-LowestFree}
use caramelo.Env.Rollout.{Plan, Plant, fine, refused, Rollout, health_waiting, wait_healthy}
use caramelo.Env.Rollout.Roll.{replace_all}
use caramelo.Env.Rollout.Phases.{Phases, replace_all-Phases}

abbrev service_at : Bytes → ℕ → ServicePorts
service_at name port = record { name = name; portless = false; port = port }

abbrev deps : List Bytes
deps = codes "db" ∷ codes "cache" ∷ []

abbrev services : List ServicePorts
services = service_at (codes "web") 8080 ∷ service_at (codes "api") 0 ∷ []

abbrev two_services : PortLayout
two_services = record {
  base = 20000;
  count = 32;
  deps = (codes "db", 20001) ∷ (codes "cache", 20002) ∷ [];
  services = (codes "web", 20000) ∷ (codes "api", 20003) ∷ [];
  container_ports = (codes "web", 8080) ∷ (codes "api", 20003) ∷ [];
  order = (codes "web", 0) ∷ (codes "api", 1) ∷ [];
  spare = 20004;
  published = 2;
}

lays_out : layout 20000 32 deps services ≡ laid_out two_services
unfolding layout insert bytes_beq
lays_out = refl

third_api : replica_port two_services (codes "api") 3 ≡ at 20007
unfolding replica_port lookup bytes_beq
third_api = refl

replica_port-apart_example : (codes "api" ≡ codes "api") × (◌≡◌ {A = ℕ} 3 3)
replica_port-apart_example =
    replica_port-apart 20000 32 deps services (codes "api") (codes "api") 3 3 20007 two_services
      lays_out (omega arith) (omega arith) third_api third_api

replica_port-InBlock_example :
    (20000 ≤ 20007)
    × (20007 < 20000 + 32)
    × (dep_port 20000 2 ≤ 20000 + 32)
    × ¬ ((i : ℕ) × (i < 2) × (20007 ≡ dep_port 20000 i))
replica_port-InBlock_example =
    replica_port-InBlock 20000 32 deps services (codes "api") 3 20007 two_services lays_out
      third_api

-- Another environment, on the next block.
abbrev neighbours : List EnvRow
neighbours = record { id = 4; port_base = 20000; port_count = 32 } ∷ []

abbrev any_port : ℕ → Bool
any_port p = true

second_block : (allocate any_port 9 (rows neighbours)).0 ≡ caramelo.Ports.at 20032
unfolding allocate
second_block = refl

abbrev next_door : PortLayout
next_door = record two_services {
  base = 20032;
  deps = (codes "db", 20033) ∷ (codes "cache", 20034) ∷ [];
  services = (codes "web", 20032) ∷ (codes "api", 20035) ∷ [];
  container_ports = (codes "web", 8080) ∷ (codes "api", 20035) ∷ [];
  spare = 20036;
}

lays_out_next_door : layout 20032 32 deps services ≡ laid_out next_door
unfolding layout insert bytes_beq
lays_out_next_door = refl

third_api_next_door : replica_port next_door (codes "api") 3 ≡ at 20039
unfolding replica_port lookup bytes_beq
third_api_next_door = refl

allocate-Uses_example : ¬ Uses 2 two_services 20039
allocate-Uses_example =
    allocate-Uses any_port 9 20032 20039 neighbours
      (record { id = 4; port_base = 20000; port_count = 32 }) deps deps services services next_door
      two_services second_block (inl refl) (λ e. omega arith) (λ e. omega arith) lays_out_next_door
      lays_out (replica (codes "api") 3 third_api_next_door)

abbrev live_at : ℕ → LiveReplica
live_at i = record {
  index = i;
  container = codes "shop-main-web";
  id = codes "c0ffee";
  running = true;
  status = codes "running";
  tree = codes "abc";
}

abbrev first_and_third : List LiveReplica
first_and_third = live_at 1 ∷ live_at 3 ∷ []

finds_two_and_four : free_indexes first_and_third 2 ≡ some (2 ∷ 4 ∷ [])
unfolding free_indexes is_taken
finds_two_and_four = refl

free_indexes-LowestFree_example :
    (out : List ℕ) × (free_indexes first_and_third 2 ≡ some out)
    × (length out ≡ 2)
    × LowestFree first_and_third 1 out
free_indexes-LowestFree_example = free_indexes-LowestFree first_and_third 2

abbrev api_plan : Plan
api_plan = record {
  service = codes "api";
  want = 2;
  tree = codes "def";
  ports = two_services;
  spec_name = λ i port. some (codes "shop-main-api");
  health_of = λ port. health_waiting;
  has_edge = true;
  route = 7;
  more = [];
}

-- Everything is fine but the health check of replica 4.
abbrev sick : Plant
sick l c = elim c [ wait_healthy i ↦ (if i == 4 then refused else fine) | other ↦ fine ]

abbrev nothing_done : Rollout
nothing_done = record { steps = []; failed = none; log = [] }

replace_all-Phases_example :
    (is : List ℕ) × (free_indexes first_and_third 2 ≡ some is)
    × Phases api_plan first_and_third is nothing_done
        (replace_all sick api_plan first_and_third none nothing_done).rollout
replace_all-Phases_example = replace_all-Phases sick api_plan first_and_third none nothing_done
