-- ===== src/Env/Rollout/Brought.antt =====
-- The fresh replicas of a rollout, brought up one after another (internal/env/rollout.go).
use mathlib.Core.List.{append_assoc, append-nil}
use caramelo.Common.{
  ℕ, ◌≡◌, refl, sym, ◌∙◌, inl, inr, List, [], ◌∷◌, ◌++◌, Any-append_left, Any-append_right,
}
use caramelo.Env.Rollout.{Replica, wait_healthy, probe, Log, Plant, Rollout, ok, err, Result, Plan}
use caramelo.Env.Rollout.Start.{bring_up_replica}
use caramelo.Env.Rollout.Roll.{Fresh, all_up, some_down, bring_rest, bring_up_all}
use caramelo.Env.Rollout.Extends.{Extends, Extends-refl, Extends-trans, Ending}
use caramelo.Env.Rollout.Starts.{IsUp, bring_up_replica-IsUp}
use caramelo.Env.Rollout.Checks.{StartEntry, Answered}

-- One replica for each index, and each is up.
abbrev pub AllUp : Plan → List ℕ → List Replica → Log → Type 0
AllUp p [] [] l = Unit {0}
AllUp p [] (rep ∷ reps) l = ⊥
AllUp p (i ∷ is) [] l = ⊥
AllUp p (i ∷ is) (rep ∷ reps) l = IsUp p i rep l × AllUp p is reps l

module _ (p : Plan) where
  IsUp-append_left : (i : ℕ) (rep : Replica) (l l' : Log) → IsUp p i rep l → IsUp p i rep (l ++ l')
  IsUp-append_left i rep l l' u = record {
    same_index = u.same_index;
    own_port = u.own_port;
    checked = elim u.checked [
      | inl e ↦ inl e
      | inr a ↦ inr (Any-append_left (Answered (wait_healthy i)) l l' a)
    ];
    probed = elim u.probed [
      | inl e ↦ inl e
      | inr a ↦ inr (Any-append_left (Answered (probe i)) l l' a)
    ];
  }

  IsUp-append_right :
      (i : ℕ) (rep : Replica) (l l' : Log) → IsUp p i rep l' → IsUp p i rep (l ++ l')
  IsUp-append_right i rep l l' u = record {
    same_index = u.same_index;
    own_port = u.own_port;
    checked = elim u.checked [
      | inl e ↦ inl e
      | inr a ↦ inr (Any-append_right (Answered (wait_healthy i)) l l' a)
    ];
    probed = elim u.probed [
      | inl e ↦ inl e
      | inr a ↦ inr (Any-append_right (Answered (probe i)) l l' a)
    ];
  }

  AllUp-append_right :
      (is : List ℕ) (reps : List Replica) (l l' : Log)
      → AllUp p is reps l'
      → AllUp p is reps (l ++ l')
  AllUp-append_right [] [] l l' u = tt
  AllUp-append_right [] (rep ∷ reps) l l' u = elim u [ ]
  AllUp-append_right (i ∷ is) [] l l' u = elim u [ ]
  AllUp-append_right (i ∷ is) (rep ∷ reps) l l' u =
      (IsUp-append_right i rep l l' u.0, AllUp-append_right is reps l l' u.1)

  -- What is known when the loop over the indexes ends.
  abbrev pub OnUp : List Replica → List ℕ → Fresh → Log → Type 0
  OnUp before is (all_up reps) l =
      (fresh : List Replica) × (reps ≡ before ++ fresh) × AllUp p is fresh l
  OnUp before is (some_down reps f) l = Unit {0}

  pub record Brought (before : List Replica) (is : List ℕ) (r : Rollout) (x : Fresh × Rollout)
      : Type 0 where
    pub extends : Extends (StartEntry p) r x.1
    pub on_up : OnUp before is x.0 extends.added

  module _ (plant : Plant) where
    OnUp-more :
        (before : List Replica) (i : ℕ) (is : List ℕ) (rep : Replica) (x : Fresh) (l l' : Log)
        → IsUp p i rep l
        → OnUp (before ++ rep ∷ []) is x l'
        → OnUp before (i ∷ is) x (l ++ l')
    OnUp-more before i is rep (all_up reps) l l' one (fresh, same, rest) = (
      rep ∷ fresh,
      same ∙ append_assoc before (rep ∷ []) fresh,
      (IsUp-append_left i rep l l' one, AllUp-append_right is fresh l l' rest),
    )
    OnUp-more before i is rep (some_down reps f) l l' one rest = tt

    bring_rest-Brought :
        (i : ℕ) (is : List ℕ) (go_on : Replica → Rollout → Fresh × Rollout) (fresh : List Replica)
        (r : Rollout) (x : Result Replica × Rollout)
        → ((rep : Replica) (s : Rollout) → Brought (fresh ++ rep ∷ []) is s (go_on rep s))
        → Ending (StartEntry p) (λ rep l. IsUp p i rep l) r x
        → Brought fresh (i ∷ is) r (bring_rest go_on fresh x)
    unfolding bring_rest Extends-trans
    bring_rest-Brought i is go_on fresh r (ok rep, s) later e =
        let rest = later rep s in
        record {
          extends = Extends-trans (StartEntry p) r s (go_on rep s).1 e.extends rest.extends;
          on_up =
              OnUp-more fresh i is rep (go_on rep s).0 e.extends.added rest.extends.added e.on_ok
                rest.on_up;
        }
    bring_rest-Brought i is go_on fresh r (err f, s) later e = record {
      extends = e.extends;
      on_up = tt;
    }

    pub bring_up_all-Brought :
        (is : List ℕ) (fresh : List Replica) (r : Rollout)
        → Brought fresh is r (bring_up_all plant p fresh is r)
    unfolding bring_up_all Extends-refl
    bring_up_all-Brought [] fresh r = record {
      extends = Extends-refl (StartEntry p) r r refl;
      on_up = ([], sym (append-nil fresh), tt);
    }
    bring_up_all-Brought (i ∷ is) fresh r =
        bring_rest-Brought i is (λ rep. bring_up_all plant p (fresh ++ rep ∷ []) is) fresh r
          (bring_up_replica plant p i r) (λ rep s. bring_up_all-Brought is (fresh ++ rep ∷ []) s)
          (bring_up_replica-IsUp p plant i r)
