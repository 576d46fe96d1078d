-- ===== src/Fleet/Choose/Pin.antt =====
-- What a pin does to the choice of internal/fleet/choose.go.
use caramelo.Common.{
  trim_space, ℕ, ◌≡◌, ◌≢◌, refl, sym, ◌∙◌, inl, inr, false, true, List, [], ◌∷◌, ◌++◌, ◌⊎◌, ◌↔◌,
  none, some, arith, ◌==◌, bytes_eq, Bytes, map, All, All-mono, Any, Bool-cases, insert, lookup,
  lookup-insert,
}
use caramelo.Fleet.{
  Role, unset_role, role_hub, role_member, other_role, is_hub, Candidate, Demand, Preference,
  placement_hub, Consideration,
}
use caramelo.Fleet.Choose.{
  hub_name, consider, Outcome, placed, no_machine, pinned_outcome, by_name, choose,
}
use caramelo.Fleet.Choose.Fit.{differ, Suitable, consider-Suitable}
use caramelo.Fleet.Token.{is_empty}

abbrev pub DistinctNames : List Candidate → Type 0
DistinctNames [] = Unit {0}
DistinctNames (c ∷ cs) =
    All (λ (x : Candidate). x.machine.name ≢ c.machine.name) cs × DistinctNames cs

-- The outcome of a pin.
abbrev pub Pinned : Demand → ℕ → Bytes → List Candidate → Outcome → Type 0
Pinned d now pin cands (placed name reason) =
    (name ≡ pin) × Any (λ (c : Candidate). (c.machine.name ≡ pin) × Suitable d now c) cands
Pinned d now pin cands (no_machine e) =
    All (λ (c : Candidate). c.machine.name ≡ pin → ¬ Suitable d now c) cands

module _ (d : Demand) (now : ℕ) (pin : Bytes) where
  lookup-absent :
      (seen : List (Bytes × Consideration)) (cands : List Candidate)
      → All (λ (x : Candidate). x.machine.name ≢ pin) cands
      → lookup pin (by_name seen (map (consider d now) cands)) ≡ lookup pin seen
  unfolding by_name consider
  lookup-absent seen [] far = refl
  lookup-absent seen (c ∷ cands) far =
      lookup-absent (insert c.machine.name (consider d now c) seen) cands far.1
      ∙ ground (
        arith,
        lookup-insert c.machine.name pin (consider d now c) seen,
        bytes_eq.same_iff c.machine.name pin,
        far.0,
      )

  absent-Pinned :
      (o : Outcome) (c : Candidate) (cands : List Candidate)
      → c.machine.name ≢ pin
      → Pinned d now pin cands o
      → Pinned d now pin (c ∷ cands) o
  absent-Pinned (placed name reason) c cands far p = (p.0, inr p.1)
  absent-Pinned (no_machine e) c cands far p = ((λ same suits. far same), p)

  found-Pinned :
      (pref : Preference) (all : List Consideration) (c : Candidate) (cands : List Candidate)
      → c.machine.name ≡ pin
      → All (λ (x : Candidate). x.machine.name ≢ pin) cands
      → Pinned d now pin (c ∷ cands) (pinned_outcome pin pref all (some (consider d now c)))
  unfolding pinned_outcome
  found-Pinned pref all c cands same far = elim (Bool-cases (consider d now c).fits) [
    | inl fit ↦ rw fit (refl, inl (same, (consider-Suitable d now c).0 fit))
    | inr unfit ↦ rw unfit (
      (λ s suits. differ (sym unfit ∙ (consider-Suitable d now c).1 suits)),
      All-mono (λ x other s suits. other s) cands far,
    )
  ]

  by_name-Pinned :
      (pref : Preference) (all : List Consideration) (seen : List (Bytes × Consideration))
      (cands : List Candidate)
      → DistinctNames cands
      → lookup pin seen ≡ none
      → Pinned d now pin cands
          (pinned_outcome pin pref all (lookup pin (by_name seen (map (consider d now) cands))))
  unfolding by_name pinned_outcome consider
  by_name-Pinned pref all seen [] distinct new = rw new tt
  by_name-Pinned pref all seen (c ∷ cands) distinct new =
      let name = c.machine.name in
      let con = consider d now c in
      let seen_now = lookup-insert name pin con seen in
      elim (Bool-cases (name == pin)) [
        | inl hit ↦
            let same : name ≡ pin = (bytes_eq.same_iff name pin).0 hit in
            let far : All (λ (x : Candidate). x.machine.name ≢ pin) cands =
              All-mono (λ x other s. other (s ∙ sym same)) cands distinct.0 in
            rw (lookup-absent (insert name con seen) cands far, seen_now, hit)
              (found-Pinned pref all c cands same far)
        | inr miss ↦
            absent-Pinned _ c cands
              (λ same. differ (sym miss ∙ (bytes_eq.same_iff name pin).1 same))
              (by_name-Pinned pref all (insert name con seen) cands distinct.1
                (seen_now ∙ rw miss new))
      ]

-- With a pin, in a fleet that has each name once, Choose places the environment on the machine of
-- that name, spaces around it left out, if it is suitable, and on no other: it finds no machine only
-- if no suitable one has that name.
pub choose-Pinned :
    (cands : List Candidate) (d : Demand) (pref : Preference) (now : ℕ)
    → DistinctNames cands
    → is_empty (trim_space pref.pin) ≡ false
    → Pinned d now (trim_space pref.pin) cands (choose cands d pref now).outcome
unfolding choose lookup
choose-Pinned cands d pref now distinct pinned_to = rw pinned_to (
    by_name-Pinned d now (trim_space pref.pin) pref (map (consider d now) cands) [] cands distinct
      refl)

-- A role that is the hub's, or is left out.
abbrev pub IsHub : Role → Type 0
IsHub role = (role ≡ unset_role) ⊎ (role ≡ role_hub)

is_hub_iff : (role : Role) → (is_hub role ≡ true) ↔ IsHub role
unfolding is_hub
is_hub_iff unset_role = (λ e. inl refl, λ h. refl)
is_hub_iff role_hub = (λ e. inr refl, λ h. refl)
is_hub_iff role_member = (λ e. cc, λ h. elim h [ inl e ↦ cc | inr e ↦ cc ])
is_hub_iff (other_role s) = (λ e. cc, λ h. elim h [ inl e ↦ cc | inr e ↦ cc ])

hub_name-first :
    (front back : List Candidate) (hub : Candidate)
    → All (λ (c : Candidate). ¬ IsHub c.machine.role) front
    → IsHub hub.machine.role
    → hub_name (front ++ hub ∷ back) ≡ hub.machine.name
unfolding hub_name
hub_name-first [] back hub none_before is = rw ((is_hub_iff hub.machine.role).1 is) refl
hub_name-first (c ∷ front) back hub none_before is = elim (Bool-cases (is_hub c.machine.role)) [
  | inl e ↦ absurd (none_before.0 ((is_hub_iff c.machine.role).0 e))
  | inr e ↦ rw e (hub_name-first front back hub none_before.1 is)
]

named-filled : (s : Bytes) → s ≢ [] → is_empty s ≡ false
unfolding is_empty
named-filled [] h = absurd (h refl)
named-filled (c ∷ s) h = refl

-- With no pin and the hub's placement, in a fleet that has each name once, Choose places the
-- environment on the first machine whose role is the hub's or left out, if that machine is suitable,
-- and on no other. The machine has a name.
pub choose-hub :
    (front back : List Candidate) (hub : Candidate) (d : Demand) (pref : Preference) (now : ℕ)
    → DistinctNames (front ++ hub ∷ back)
    → All (λ (c : Candidate). ¬ IsHub c.machine.role) front
    → IsHub hub.machine.role
    → hub.machine.name ≢ []
    → is_empty (trim_space pref.pin) ≡ true
    → pref.placement ≡ placement_hub
    → Pinned d now hub.machine.name
        (front ++ hub ∷ back)
        (choose (front ++ hub ∷ back) d pref now).outcome
unfolding choose lookup
choose-hub front back hub d pref now distinct none_before is has_name unpinned by_hub =
    let cands = front ++ hub ∷ back in
    let name = hub.machine.name in
    rw (unpinned, by_hub, hub_name-first front back hub none_before is, named-filled name has_name)
      (by_name-Pinned d now name (record pref { pin = name; pinned_by_file = true })
        (map (consider d now) cands) [] cands distinct refl)
