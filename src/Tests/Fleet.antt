-- ===== src/Tests/Fleet.antt =====
-- internal/fleet on a hub and two members.
use caramelo.Common.{
  inr, trim_space, is_space, trim_left, ℕ, ◌+◌, ◌≤◌, ◌≡◌, ◌↔◌, refl, List, [], ◌∷◌, none, some,
  codes, Bytes, true, false, if◌then◌else◌, ltb, bytes_beq, bytes_eq, ◌≢◌, sym, ◌∙◌,
}
use caramelo.Fleet.{
  role_hub, role_member, Role, Candidate, Demand, Preference, placement_auto, placement_hub,
  reachable,
}
use caramelo.Fleet.Token.{
  Token, check, new_token, made, token_expired, lifetime, max_token_ttl, is_empty, check-new_token,
}
use caramelo.Fleet.Choose.{consider, choose, placed, free_and_envs, ranks_first}
use caramelo.Fleet.Choose.Fit.{differ, Suitable, consider-Suitable}
use caramelo.Fleet.Choose.Pin.{Pinned, DistinctNames, choose-Pinned, choose-hub}
use caramelo.Fleet.Choose.Best.{Best, choose-Best}

abbrev machine_at : Bytes → Role → ℕ → ℕ → Candidate
machine_at name role available envs = record {
  machine = record {
    name = name;
    role = role;
    arch = codes "amd64";
    last_seen = 1000;
    envs = envs;
  };
  gauge = some (record { available_bytes = available; reserved_bytes = 100 });
  committed = 50;
}

abbrev three : List Candidate
three =
    machine_at (codes "hub") role_hub 1000 2
    ∷ machine_at (codes "big") role_member 4000 3
    ∷ machine_at (codes "roomy") role_member 4000 1
    ∷ []

abbrev ask : Demand
ask = record { app = codes "shop"; env = codes "main"; memory_bytes = 512; arch = codes "amd64" }

abbrev anywhere : Preference
anywhere = record { pin = codes " "; pinned_by_file = false; placement = placement_auto }

no_pin : is_empty (trim_space anywhere.pin) ≡ true
unfolding is_empty trim_space trim_left is_space
no_pin = refl

goes_to_roomy :
    (choose three ask anywhere 5000).outcome ≡ placed (codes "roomy") (free_and_envs 3850 1)
unfolding choose trim_space trim_left is_space ranks_first reachable bytes_beq
goes_to_roomy = refl

choose-Best_example : Best ask 5000 three (choose three ask anywhere 5000).outcome
choose-Best_example = choose-Best three ask anywhere 5000 no_pin refl

abbrev on_big : Preference
on_big = record { pin = codes " big"; pinned_by_file = false; placement = placement_auto }

is_pinned : is_empty (trim_space on_big.pin) ≡ false
unfolding is_empty trim_space trim_left is_space
is_pinned = refl

distinct_three : DistinctNames three
unfolding bytes_beq
distinct_three =
    let apart : (a b : Bytes) → bytes_beq a b ≡ false → a ≢ b =
      λ a b no same. differ (sym no ∙ (bytes_eq.same_iff a b).1 same) in
    (
      (apart (codes "big") (codes "hub") refl, (apart (codes "roomy") (codes "hub") refl, tt)),
      ((apart (codes "roomy") (codes "big") refl, tt), (tt, tt)),
    )

choose-Pinned_example :
    Pinned ask 5000 (trim_space on_big.pin) three (choose three ask on_big 5000).outcome
choose-Pinned_example = choose-Pinned three ask on_big 5000 distinct_three is_pinned

abbrev on_hub : Preference
on_hub = record { pin = []; pinned_by_file = false; placement = placement_hub }

on_hub_unpinned : is_empty (trim_space on_hub.pin) ≡ true
unfolding is_empty trim_space trim_left
on_hub_unpinned = refl

abbrev behind_hub : List Candidate
behind_hub =
    machine_at (codes "big") role_member 4000 3 ∷ machine_at (codes "roomy") role_member 4000 1 ∷ []

choose-hub_example : Pinned ask 5000 (codes "hub") three (choose three ask on_hub 5000).outcome
choose-hub_example =
    choose-hub [] behind_hub (machine_at (codes "hub") role_hub 1000 2) ask on_hub 5000
      distinct_three tt (inr refl) (λ e. cc) on_hub_unpinned refl

consider-Suitable_example :
    ((consider ask 5000 (machine_at (codes "hub") role_hub 1000 2)).fits ≡ true)
    ↔ Suitable ask 5000 (machine_at (codes "hub") role_hub 1000 2)
consider-Suitable_example = consider-Suitable ask 5000 (machine_at (codes "hub") role_hub 1000 2)

abbrev as_hash : Bytes → Bytes
as_hash s = codes "sha:"

hash_filled : (s : Bytes) → is_empty (as_hash s) ≡ false
unfolding is_empty
hash_filled s = refl

abbrev invitation : Token
invitation = record {
  hash = codes "sha:";
  created_by = codes "ana";
  created_at = 1000;
  expires_at = 1600;
  used_by = [];
  used_at = 0;
}

invites : new_token as_hash (codes "s3cret") (codes "ana") 1000 600 ≡ made invitation
unfolding new_token trim_space trim_left is_space
invites = refl

check-new_token_example :
    (lifetime 600 ≤ max_token_ttl)
    × (check 1700 invitation
        ≡ (if ltb 1700 (1000 + lifetime 600) then none else some token_expired))
check-new_token_example =
    check-new_token as_hash (codes "s3cret") (codes "ana") 1000 600 1700 invitation hash_filled
      invites
