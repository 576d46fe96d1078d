-- ===== src/Task/Decide/Laws.antt =====
-- What the status of an item says of the commands that ran (internal/task/engine.go).
use caramelo.Common.{
  ◌≡◌, ◌≢◌, refl, ◌⊎◌, inl, inr, Bool, true, false, List, [], ◌∷◌, Option, none, arith, ◌==◌,
  nat_eq, Bytes, All, All-mono, Bool-cases, if◌then◌else◌,
}
use caramelo.Task.{
  Item, scripts, Status, status_ok, changed, would_change, skipped, failed, not_run, of_when,
  of_check, of_cmd, Output, Command, Failure, Leaf, Machine,
}
use caramelo.Task.Decide.{
  Ran, ok, err, Act, empty_output, first_line, run_script, ends, fails, recheck, after_cmds,
  cmd_result, run_cmds, checked, is_empty, decide_main, builtin_of, when_answered, decide_when,
  foreign_platform, decide_item,
}
use caramelo.Task.Decide.Commands.{
  NoCmd, CmdPassed, LastCheck, All-run_script, run_cmd-Passed, run_check-LastCheck,
}

-- What a status says of the commands and of the error.
abbrev pub Says : Item → Status → List Command → Option Failure → Type 0
Says it status_ok cs e = All NoCmd cs × LastCheck cs
Says it changed cs e = All CmdPassed cs × ((it.check ≡ []) ⊎ LastCheck cs)
Says it would_change cs e = All NoCmd cs
Says it skipped cs e = All NoCmd cs
Says it failed cs e = e ≢ none
Says it not_run cs e = ⊥

abbrev pub Verdict : {World : Type 0} → Item → Leaf × World → Type 0
Verdict it r = Says it (r.0).status (r.0).commands (r.0).error

module _ {World : Type 0} (m : Machine World) (it : Item) where
  recheck-Verdict :
      (last : Output) (r : Ran × Act World)
      → All CmdPassed r.1.commands
      → ((out : Output) → r.0 ≡ ok out → out.exit ≡ 0 → LastCheck r.1.commands)
      → Verdict it (recheck m it last r)
  unfolding recheck
  recheck-Verdict last (err why, act) a passes = λ e. cc
  recheck-Verdict last (ok again, act) a passes = elim (Bool-cases (again.exit == 0)) [
    | inl zero_exit ↦ rw zero_exit (a, inr (passes again refl (ground arith)))
    | inr other ↦ rw other (λ e. cc)
  ]

  after_cmds-Verdict :
      (check : Bytes) (last : Output) (act : Act World)
      → it.check ≡ check
      → All CmdPassed act.commands
      → Verdict it (after_cmds m it check last act)
  unfolding after_cmds ends
  after_cmds-Verdict [] last act e a = (a, inl e)
  after_cmds-Verdict (x ∷ s) last act e a =
      recheck-Verdict last (run_script m it of_check (x ∷ s) act)
        (All-run_script m it CmdPassed of_check (x ∷ s) act (λ c k e'. absurd (cc)) a)
        (λ out. run_check-LastCheck m it (x ∷ s) act out (λ n. cc))

  cmd_result-Verdict :
      (rest : Output → Act World → Leaf × World) (r : Ran × Act World)
      → ((out : Output) (act : Act World) → All CmdPassed act.commands → Verdict it (rest out act))
      → ((out : Output) → r.0 ≡ ok out → out.exit ≡ 0 → All CmdPassed r.1.commands)
      → Verdict it (cmd_result m it rest r)
  unfolding cmd_result fails
  cmd_result-Verdict rest (err why, act) h passes = λ e. cc
  cmd_result-Verdict rest (ok out, act) h passes = elim (Bool-cases (out.exit == 0)) [
    | inl zero_exit ↦ rw zero_exit (h out act (passes out refl (ground arith)))
    | inr other ↦ rw other (λ e. cc)
  ]

  run_cmds-Verdict :
      (ss : List Bytes) (last : Output) (act : Act World)
      → All CmdPassed act.commands
      → Verdict it (run_cmds m it ss last act)
  unfolding run_cmds
  run_cmds-Verdict [] last act a = after_cmds-Verdict it.check last act refl a
  run_cmds-Verdict (s ∷ ss) last act a =
      cmd_result-Verdict (run_cmds m it ss) (run_script m it of_cmd s act)
        (λ out act' a'. run_cmds-Verdict ss out act' a')
        (λ out e z. run_cmd-Passed m it s act out e z a)

  NoCmd-Passed : (c : Command) → NoCmd c → CmdPassed c
  NoCmd-Passed c h e = absurd (h e)

  unchecked :
      (dry : Bool) (out : Output) (act : Act World)
      → All NoCmd act.commands
      → Verdict it (
          if dry
          then ends m it would_change (first_line out.stdout) none act
          else run_cmds m it (scripts it) empty_output act)
  unfolding ends
  unchecked true out act a = a
  unchecked false out act a =
      run_cmds-Verdict (scripts it) empty_output act (All-mono NoCmd-Passed act.commands a)

  checked-Verdict :
      (r : Ran × Act World)
      → All NoCmd r.1.commands
      → ((out : Output)
          → r.0 ≡ ok out
          → is_empty m it it.check ≡ false
          → out.exit ≡ 0
          → LastCheck r.1.commands)
      → Verdict it (checked m it r)
  unfolding checked is_empty
  checked-Verdict (err why, act) a passes = λ e. cc
  checked-Verdict (ok out, act) a passes = elim (Bool-cases (is_empty m it it.check)) [
    | inl empty ↦ rw empty (unchecked m.dry_run out act a)
    | inr script ↦ elim (Bool-cases (out.exit == 0)) [
      | inl zero_exit ↦ rw (script, zero_exit) (a, passes out refl script (ground arith))
      | inr other ↦ rw (script, other) (unchecked m.dry_run out act a)
    ]
  ]

  check_passed :
      (check : Bytes) (act : Act World) (out : Output)
      → (run_script m it of_check check act).0 ≡ ok out
      → is_empty m it check ≡ false
      → out.exit ≡ 0
      → LastCheck (run_script m it of_check check act).1.commands
  unfolding is_empty
  check_passed [] act out e h z = cc
  check_passed (x ∷ s) act out e h z = run_check-LastCheck m it (x ∷ s) act out (λ n. cc) e z

  script_main : (act : Act World) → All NoCmd act.commands → Verdict it (decide_main m it none act)
  unfolding decide_main
  script_main act a =
      checked-Verdict (run_script m it of_check it.check act)
        (All-run_script m it NoCmd of_check it.check act (λ c k e. cc) a)
        (λ out. check_passed it.check act out)

  module _ (no_dir : it.dir ≡ none) (no_file : it.file ≡ none) where
    no_builtin : builtin_of m it it.dir it.file ≡ none
    unfolding builtin_of
    no_builtin = rw (no_dir, no_file)

    main-Verdict :
        (act : Act World)
        → All NoCmd act.commands
        → Verdict it (decide_main m it (builtin_of m it it.dir it.file) act)
    main-Verdict act a = rw no_builtin (script_main act a)

    when-Verdict :
        (r : Ran × Act World) → All NoCmd r.1.commands → Verdict it (when_answered m it r)
    unfolding when_answered
    when-Verdict (err why, act) a = λ e. cc
    when-Verdict (ok out, act) a = elim (Bool-cases (out.exit == 0)) [
      | inl zero_exit ↦ rw zero_exit (main-Verdict act a)
      | inr other ↦ rw other a
    ]

    decide_when-Verdict :
        (when : Bytes) (act : Act World)
        → All NoCmd act.commands
        → Verdict it (decide_when m it when act)
    unfolding decide_when
    decide_when-Verdict [] act a = main-Verdict act a
    decide_when-Verdict (x ∷ s) act a =
        when-Verdict (run_script m it of_when (x ∷ s) act)
          (All-run_script m it NoCmd of_when (x ∷ s) act (λ c k e. cc) a)

-- Of an item that is no file: or dir: item, the status tells what ran: ok means that no cmd ran and
-- the last command is a check that passed; changed, that every cmd that ran passed and the last
-- command is a check that passed, if the item has a check; would change and skipped, that no cmd
-- ran; failed, that the error says why.
pub decide_item-Verdict :
    {World : Type 0} (m : Machine World) (it : Item) (w : World)
    → it.dir ≡ none
    → it.file ≡ none
    → Verdict it (decide_item m it w)
unfolding decide_item
decide_item-Verdict m it w no_dir no_file = elim (Bool-cases (foreign_platform m it it.platforms)) [
  | inl foreign ↦ rw foreign tt
  | inr ours ↦
      rw ours
        (decide_when-Verdict m it no_dir no_file it.when (record { world = w; commands = [] }) tt)
]
