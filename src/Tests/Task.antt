-- ===== src/Tests/Task.antt =====
-- internal/task on a machine whose world is a counter: the script "bump" adds 1, "big" passes from 1 on.
use caramelo.Common.{
  ℕ, ◌+◌, ◌≡◌, refl, true, false, [], ◌∷◌, none, some, codes, ◌==◌, nat_eq, bytes_eq, bytes_beq,
  if◌then◌else◌, ltb,
}
use caramelo.Task.{
  Entries, block, Item, item, nil, cons, changed, status_eq, Answer, ran, Machine, Builtin, scripts,
}
use caramelo.Task.Decide.{decide_item, after_cmds}
use caramelo.Task.Decide.Laws.{Verdict, decide_item-Verdict}
use caramelo.Task.Tree.{Run, run_entries}
use caramelo.Task.Tree.Stops.{Follows, Honest, run_entries-Follows}

abbrev says : ℕ → Answer
says code = ran (record { exit = code; stdout = codes "done"; stderr = [] })

abbrev idle_builtin : Builtin ℕ
idle_builtin = record { check = λ w. ((some (true, []), []), w); apply = λ w. ((some [], []), w) }

abbrev counter : Machine ℕ
counter = record {
  exec = λ script w.
      if script == codes "bump" then (says 0, w + 1) else (says (if ltb 0 w then 0 else 1), w);
  dir_target = λ d. idle_builtin;
  file_target = λ f. idle_builtin;
  os = codes "linux";
  dry_run = false;
}

abbrev bump : Item
bump = record {
  name = codes "bump it";
  desc = [];
  check = codes "big";
  cmd = codes "bump";
  cmds = [];
  when = [];
  platforms = codes "darwin" ∷ codes "linux" ∷ [];
  timeout = 0;
  file = none;
  dir = none;
}

-- Its command does nothing, so its check still fails.
abbrev stuck : Item
stuck = record bump { cmd = codes "big" }

bump_changes : (decide_item counter bump 0).0.status ≡ changed
unfolding decide_item bytes_beq scripts after_cmds
bump_changes = refl

decide_item-Verdict_example : Verdict bump (decide_item counter bump 0)
decide_item-Verdict_example = decide_item-Verdict counter bump 0 refl refl

abbrev fresh_run : Run ℕ
fresh_run = record { world = 0; stopped = false }

abbrev three_entries : Entries
three_entries =
    cons (block (codes "both") (cons (item stuck) (cons (item bump) nil))) (cons (item bump) nil)

run_entries-Follows_example :
    Follows counter three_entries fresh_run
      (run_entries counter three_entries fresh_run).0
      (run_entries counter three_entries fresh_run).1
    × Honest (run_entries counter three_entries fresh_run).0
run_entries-Follows_example = run_entries-Follows counter three_entries fresh_run refl
