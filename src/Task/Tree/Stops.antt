-- ===== src/Task/Tree/Stops.antt =====
-- A run stops at its first failure (internal/task/engine.go).
use caramelo.Common.{
  ◌≡◌, ◌≢◌, ◌↔◌, ◌⊎◌, refl, sym, ap, subst, ◌∙◌, inl, inr, Bool, true, false, ◌||◌, [], arith, ◌==◌,
  if◌then◌else◌, Bool-cases,
}
use caramelo.Task.{
  Entry, item, block, Entries, nil, cons, status_ok, failed, not_run, status_eq, Result, leaf,
  group, Results, done, more, Machine,
}
use caramelo.Task.Tree.{
  Run, status_of, any_failed, not_run_entry, not_run_all, item_done, run_item, block_done, and_then,
  run_one, run_block, run_entry, run_entries,
}

or_assoc : (a b c : Bool) → (a || b) || c ≡ a || (b || c)
or_assoc true b c = refl
or_assoc false b c = refl

group_failed : (b : Bool) → ((if b then failed else status_ok) == failed) ≡ b
group_failed true = refl
group_failed false = refl

mutual
  unfolding run_one run_block run_item item_done block_done and_then status_of any_failed

  run_one-stopped :
      (e : Entry) {World : Type 0} (m : Machine World) (st : Run World)
      → (run_one m e st).1.stopped ≡ st.stopped || (status_of (run_one m e st).0 == failed)
  run_one-stopped (item it) m st = refl
  run_one-stopped (block desc es) m st =
      run_block-stopped es m st
      ∙ ap (λ b. st.stopped || b) (sym (group_failed (any_failed (run_block m es st).0)))

  run_block-stopped :
      (es : Entries) {World : Type 0} (m : Machine World) (st : Run World)
      → (run_block m es st).1.stopped ≡ st.stopped || any_failed (run_block m es st).0
  run_block-stopped nil m st = ground arith
  run_block-stopped (cons e es) m st =
      run_block-stopped es m (run_one m e st).1
      ∙ ap (λ b. b || any_failed (run_block m es (run_one m e st).1).0) (run_one-stopped e m st)
      ∙ or_assoc st.stopped _ _

stopped_entry :
    {World : Type 0} (m : Machine World) (e : Entry) (st : Run World)
    → st.stopped ≡ true
    → run_entry m e st ≡ (not_run_entry e, st)
unfolding run_entry
stopped_entry m e st h = ap (λ b. if b then (not_run_entry e, st) else run_one m e st) h

running_entry :
    {World : Type 0} (m : Machine World) (e : Entry) (st : Run World)
    → st.stopped ≡ false
    → run_entry m e st ≡ run_one m e st
unfolding run_entry
running_entry m e st h = ap (λ b. if b then (not_run_entry e, st) else run_one m e st) h

stopped_entries :
    {World : Type 0} (m : Machine World) (es : Entries) (st : Run World)
    → st.stopped ≡ true
    → run_entries m es st ≡ (not_run_all es, st)
unfolding run_entries and_then not_run_all
stopped_entries m nil st h = refl
stopped_entries m (cons e es) st h =
    ap (λ one. and_then m one.0 (run_entries m es one.1)) (stopped_entry m e st h)
    ∙ ap (and_then m (not_run_entry e)) (stopped_entries m es st h)

rest_of :
    {World : Type 0} (m : Machine World) (es : Entries) (st : Run World) (b : Bool)
    → st.stopped ≡ b
    → run_entries m es st ≡ (if b then (not_run_all es, st) else run_entries m es st)
rest_of m es st true h = stopped_entries m es st h
rest_of m es st false h = refl

run_entries-stop :
    {World : Type 0} (m : Machine World) (e : Entry) (es : Entries) (st : Run World)
    → st.stopped ≡ false
    → let one = run_one m e st in
      run_entries m (cons e es) st
      ≡ and_then m one.0
          (if status_of one.0 == failed then (not_run_all es, one.1) else run_entries m es one.1)
unfolding run_entries
run_entries-stop m e es st h =
    ap (λ one. and_then m one.0 (run_entries m es one.1)) (running_entry m e st h)
    ∙ ap (and_then m (run_one m e st).0) (
        rest_of m es (run_one m e st).1 (status_of (run_one m e st).0 == failed)
          (run_one-stopped e m st ∙ ap (λ b. b || (status_of (run_one m e st).0 == failed)) h))

-- One of the results is a failure.
abbrev pub SomeFailed : Results → Type 0
SomeFailed done = ⊥
SomeFailed (more r rs) = (status_of r ≡ failed) ⊎ SomeFailed rs

-- A block has failed exactly if one of its results has.
mutual
  pub HonestOne : Result → Type 0
  HonestOne (leaf l) = Unit
  HonestOne (group desc s rs) = ((s ≡ failed) ↔ SomeFailed rs) × Honest rs

  pub Honest : Results → Type 0
  Honest done = Unit
  Honest (more r rs) = HonestOne r × Honest rs

-- The results of entries none of which was run.
mutual
  pub NotRunOne : Entry → Result → Type 0
  NotRunOne (item it) (leaf l) = (l.name ≡ it.name) × (l.status ≡ not_run) × (l.commands ≡ [])
  NotRunOne (item it) (group desc s rs) = ⊥
  NotRunOne (block desc es) (leaf l) = ⊥
  NotRunOne (block desc es) (group d s rs) = (d ≡ desc) × (s ≡ not_run) × NotRun es rs

  pub NotRun : Entries → Results → Type 0
  NotRun nil done = Unit
  NotRun nil (more r rs) = ⊥
  NotRun (cons e es) done = ⊥
  NotRun (cons e es) (more r rs) = NotRunOne e r × NotRun es rs

-- Entries run one after another from a state, up to the first that fails: what they report, and the
-- state they leave.
pub data Follows {World : Type 0} (m : Machine World)
    : Entries → Run World → Results → Run World → Type 0 where
  ends : (st : Run World) → Follows m nil st done st
  fails :
      (e : Entry) (es : Entries) (st : Run World) (rs : Results)
      → status_of (run_one m e st).0 ≡ failed
      → NotRun es rs
      → Follows m (cons e es) st (more (run_one m e st).0 rs) (run_one m e st).1
  goes_on :
      (e : Entry) (es : Entries) (st last : Run World) (rs : Results)
      → status_of (run_one m e st).0 ≢ failed
      → Follows m es (run_one m e st).1 rs last
      → Follows m (cons e es) st (more (run_one m e st).0 rs) last

mutual
  unfolding not_run_entry not_run_all NotRun

  not_run_entry-NotRun : (e : Entry) → NotRunOne e (not_run_entry e)
  not_run_entry-NotRun (item it) = (refl, refl, refl)
  not_run_entry-NotRun (block desc es) = (refl, refl, not_run_all-NotRun es)

  not_run_all-NotRun : (es : Entries) → NotRun es (not_run_all es)
  not_run_all-NotRun nil = tt
  not_run_all-NotRun (cons e es) = (not_run_entry-NotRun e, not_run_all-NotRun es)

none_failed : (es : Entries) → ¬ SomeFailed (not_run_all es)
unfolding not_run_all not_run_entry status_of
none_failed nil h = h
none_failed (cons (item it) es) (inl e) = cc
none_failed (cons (block desc fs) es) (inl e) = cc
none_failed (cons (item it) es) (inr h) = none_failed es h
none_failed (cons (block desc fs) es) (inr h) = none_failed es h

mutual
  unfolding not_run_entry not_run_all Honest

  not_run_entry-Honest : (e : Entry) → HonestOne (not_run_entry e)
  not_run_entry-Honest (item it) = tt
  not_run_entry-Honest (block desc es) =
      ((λ e. cc, λ h. absurd (none_failed es h)), not_run_all-Honest es)

  not_run_all-Honest : (es : Entries) → Honest (not_run_all es)
  not_run_all-Honest nil = tt
  not_run_all-Honest (cons e es) = (not_run_entry-Honest e, not_run_all-Honest es)

any_failed_iff : (rs : Results) → (any_failed rs ≡ true) ↔ SomeFailed rs
unfolding any_failed
any_failed_iff done = (λ e. cc, λ h. absurd h)
any_failed_iff (more r rs) = elim (Bool-cases (status_of r == failed)) [
  | inl yes_ ↦ (λ e. inl ((status_eq.same_iff (status_of r) failed).0 yes_), λ h. rw yes_ refl)
  | inr no_ ↦ (
    λ e. (let later = rw no_ at e in inr ((any_failed_iff rs).0 later)),
    λ h. rw no_ (elim h [
      | inl f ↦ absurd (ground (arith, status_eq.same_iff (status_of r) failed, f))
      | inr later ↦ (any_failed_iff rs).1 later
    ]),
  )
]

failed_if : (b : Bool) → ((if b then failed else status_ok) ≡ failed) ↔ (b ≡ true)
failed_if true = (λ e. refl, λ e. refl)
failed_if false = (λ e. cc, λ e. cc)

mutual
  unfolding run_one run_block run_item item_done block_done and_then Honest

  run_one-Honest :
      (e : Entry) {World : Type 0} (m : Machine World) (st : Run World)
      → HonestOne (run_one m e st).0
  run_one-Honest (item it) m st = tt
  run_one-Honest (block desc es) m st =
      let rs = (run_block m es st).0 in
      (
        (
          λ e. (any_failed_iff rs).0 ((failed_if (any_failed rs)).0 e),
          λ h. (failed_if (any_failed rs)).1 ((any_failed_iff rs).1 h),
        ),
        run_block-Honest es m st,
      )

  run_block-Honest :
      (es : Entries) {World : Type 0} (m : Machine World) (st : Run World)
      → Honest (run_block m es st).0
  run_block-Honest nil m st = tt
  run_block-Honest (cons e es) m st =
      (run_one-Honest e m st, run_block-Honest es m (run_one m e st).1)

module _ {World : Type 0} (m : Machine World) where
  abbrev Good : Entries → Run World → Results × Run World → Type 0
  Good es st x = Follows m es st x.0 x.1 × Honest x.0

  -- A run that has not stopped runs its entries in their order, up to the first that fails: each of
  -- the others is reported as not run, and the world and the flag stay as the failed entry left them.
  -- In the results a block has failed exactly if one of its entries has.
  pub run_entries-Follows :
      (es : Entries) (st : Run World)
      → st.stopped ≡ false
      → Follows m es st (run_entries m es st).0 (run_entries m es st).1
        × Honest (run_entries m es st).0
  unfolding run_entries and_then Honest
  run_entries-Follows nil st h = (ends st, tt)
  run_entries-Follows (cons e es) st h =
      let one = run_one m e st in
      let stop = run_entries-stop m e es st h in
      let flag = run_one-stopped e m st in
      elim (Bool-cases (status_of one.0 == failed)) [
        | inl f ↦ subst (Good (cons e es) st) (sym (stop ∙ rw f refl)) (
          fails e es st (not_run_all es) ((status_eq.same_iff (status_of one.0) failed).0 f)
              (not_run_all-NotRun es),
          (run_one-Honest e m st, not_run_all-Honest es),
        )
        | inr g ↦
            let more_ =
              run_entries-Follows es one.1
                (flag ∙ ap (λ b. b || (status_of one.0 == failed)) h ∙ g) in
            subst (Good (cons e es) st) (sym (stop ∙ rw g refl)) (
              goes_on e es st _ _
                  (λ f. ground (arith, status_eq.same_iff (status_of one.0) failed, f)) more_.0,
              (run_one-Honest e m st, more_.1),
            )
      ]
