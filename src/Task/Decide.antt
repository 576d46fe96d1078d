-- ===== src/Task/Decide.antt =====
-- `decide` and `run` of internal/task/engine.go: what one item comes to. Each part of the method is
-- a function of its own, and the commands run so far are carried beside the world.
pub mod Commands
pub mod Laws
use mathlib.Core.List.{reverse}
use caramelo.Common.{
  ℕ, zero, suc, ◌≡◌, Bool, true, false, not, ◌&&◌, ◌||◌, List, [], ◌∷◌, ◌++◌, Option, none, some,
  ◌==◌, nat_eq, bytes_eq, Bytes, codes, if◌then◌else◌, any,
}
use caramelo.Task.{
  Item, DirSpec, FileSpec, scripts, timeout_of, Status, status_ok, changed, would_change, skipped,
  failed, ScriptKind, of_when, of_check, of_cmd, Output, Command, Failure, did_not_finish,
  run_error, cmd_exit, check_still_fails, builtin_still_fails, Leaf, Answer, ran, deadline, broken,
  Builtin, Machine,
}

-- firstLine: the newlines at the end are cut off first.
unfoldable pub drop_newlines : Bytes → Bytes
drop_newlines [] = []
drop_newlines (c ∷ s) = if c == 10 then drop_newlines s else c ∷ s

unfoldable pub upto_newline : Bytes → Bytes
upto_newline [] = []
upto_newline (c ∷ s) = if c == 10 then [] else c ∷ upto_newline s

unfoldable pub first_line : Bytes → Bytes
first_line s = upto_newline (reverse (drop_newlines (reverse s)))

unfoldable pub or_else : Bytes → Bytes → Bytes
or_else [] other = other
or_else (c ∷ s) other = c ∷ s

-- strings.Join.
join : Bytes → List Bytes → Bytes
join sep [] = []
join sep (p ∷ []) = p
join sep (p ∷ q ∷ ps) = p ++ sep ++ join sep (q ∷ ps)

pub data Ran : Type 0 where
  ok : Output → Ran
  err : Failure → Ran

-- What a decision carries along: the world, and the commands in the order in which they ran.
pub record Act (World : Type 0) : Type 0 where
  pub world : World
  pub commands : List Command

abbrev empty_output : Output
empty_output = record { exit = 0; stdout = []; stderr = [] }

module _ {World : Type 0} (m : Machine World) (it : Item) where
  unfoldable pub answered : ScriptKind → Bytes → Answer → Ran × Command
  answered kind script (ran out) = (
    ok out,
    record {
      kind = kind;
      script = script;
      exit = some out.exit;
      stdout = out.stdout;
      stderr = out.stderr;
    },
  )
  answered kind script (deadline out) = (
    err (did_not_finish it.name kind (timeout_of it)),
    record { kind = kind; script = script; exit = none; stdout = out.stdout; stderr = out.stderr },
  )
  answered kind script (broken why out) = (
    err (run_error why),
    record { kind = kind; script = script; exit = none; stdout = out.stdout; stderr = out.stderr },
  )

  -- An empty script is not run and answers with exit 0.
  unfoldable pub run_script : ScriptKind → Bytes → Act World → Ran × Act World
  unfolding answered
  run_script kind [] act = (ok empty_output, act)
  run_script kind (c ∷ s) act =
      let (answer, after) = m.exec (c ∷ s) act.world in
      let (result, command) = answered kind (c ∷ s) answer in
      (result, record { world = after; commands = act.commands ++ command ∷ [] })

  unfoldable pub ends : Status → Bytes → Option Failure → Act World → Leaf × World
  ends status detail error act = (
    record {
      name = it.name;
      desc = it.desc;
      status = status;
      detail = detail;
      error = error;
      commands = act.commands;
    },
    act.world,
  )

  unfoldable pub fails : Failure → Act World → Leaf × World
  unfolding ends
  fails why act = ends failed [] (some why) act

  -- The check that runs again behind the commands.
  unfoldable pub recheck : Output → Ran × Act World → Leaf × World
  unfolding ends fails first_line or_else
  recheck last (err why, act) = fails why act
  recheck last (ok again, act) =
      if again.exit == 0
      then ends changed (or_else (first_line last.stdout) (first_line again.stdout)) none act
      else fails check_still_fails act

  unfoldable pub after_cmds : Bytes → Output → Act World → Leaf × World
  unfolding recheck run_script ends first_line
  after_cmds [] last act = ends changed (first_line last.stdout) none act
  after_cmds (c ∷ s) last act = recheck last (run_script of_check (c ∷ s) act)

  cmd_result : (Output → Act World → Leaf × World) → Ran × Act World → Leaf × World
  cmd_result rest (err why, act) = fails why act
  cmd_result rest (ok out, act) =
      if out.exit == 0 then rest out act else fails (cmd_exit out.exit) act

  unfoldable pub run_cmds : List Bytes → Output → Act World → Leaf × World
  unfolding cmd_result
  run_cmds [] last act = after_cmds it.check last act
  run_cmds (s ∷ ss) last act = cmd_result (run_cmds ss) (run_script of_cmd s act)

  unfoldable pub is_empty : Bytes → Bool
  is_empty [] = true
  is_empty (c ∷ s) = false

  unfoldable pub checked : Ran × Act World → Leaf × World
  unfolding ends fails is_empty run_cmds first_line
  checked (err why, act) = fails why act
  checked (ok out, act) =
      if not (is_empty it.check) && out.exit == 0
      then ends status_ok (first_line out.stdout) none act
      else if m.dry_run
      then ends would_change (first_line out.stdout) none act
      else run_cmds (scripts it) empty_output act

  -- decideBuiltin.
  builtin_recheck : Bytes → Act World → (Option (Bool × Bytes) × Bytes) × World → Leaf × World
  builtin_recheck applied act ((none, why), w) = fails (run_error why) (record act { world = w })
  builtin_recheck applied act ((some (true, again), why), w) =
      ends changed applied none (record act { world = w })
  builtin_recheck applied act ((some (false, again), why), w) =
      fails (builtin_still_fails again) (record act { world = w })

  builtin_applied : Builtin World → Act World → (Option Bytes × Bytes) × World → Leaf × World
  unfolding builtin_recheck
  builtin_applied b act ((none, why), w) = fails (run_error why) (record act { world = w })
  builtin_applied b act ((some applied, why), w) = builtin_recheck applied act (b.check w)

  builtin_checked :
      Builtin World → Act World → (Option (Bool × Bytes) × Bytes) × World → Leaf × World
  unfolding builtin_applied
  builtin_checked b act ((none, why), w) = fails (run_error why) (record act { world = w })
  builtin_checked b act ((some (true, detail), why), w) =
      ends status_ok detail none (record act { world = w })
  builtin_checked b act ((some (false, detail), why), w) =
      if m.dry_run
      then ends would_change detail none (record act { world = w })
      else builtin_applied b act (b.apply w)

  unfoldable pub decide_builtin : Builtin World → Act World → Leaf × World
  unfolding builtin_checked
  decide_builtin b act = builtin_checked b act (b.check act.world)

  -- builtinOf.
  unfoldable pub builtin_of : Option DirSpec → Option FileSpec → Option (Builtin World)
  builtin_of (some d) f = some (m.dir_target d)
  builtin_of none (some f) = some (m.file_target f)
  builtin_of none none = none

  unfoldable pub decide_main : Option (Builtin World) → Act World → Leaf × World
  unfolding decide_builtin checked run_script
  decide_main (some b) act = decide_builtin b act
  decide_main none act = checked (run_script of_check it.check act)

  unfoldable pub when_answered : Ran × Act World → Leaf × World
  unfolding ends fails decide_main builtin_of first_line or_else
  when_answered (err why, act) = fails why act
  when_answered (ok out, act) =
      if out.exit == 0
      then decide_main (builtin_of it.dir it.file) act
      else ends skipped (or_else (first_line out.stdout) (first_line out.stderr)) none act

  unfoldable pub decide_when : Bytes → Act World → Leaf × World
  unfolding when_answered run_script
  decide_when [] act = decide_main (builtin_of it.dir it.file) act
  decide_when (c ∷ s) act = when_answered (run_script of_when (c ∷ s) act)

  -- The item names platforms, and this machine's is none of them.
  unfoldable pub foreign_platform : List Bytes → Bool
  foreign_platform [] = false
  foreign_platform (p ∷ ps) = not (any (λ q. q == m.os) (p ∷ ps))

  unfoldable pub platform_detail : Bytes
  unfolding join
  platform_detail =
      codes "runs on " ++ join (codes " or ") it.platforms ++ codes "; this machine is " ++ m.os

  unfoldable pub decide_item : World → Leaf × World
  unfolding foreign_platform decide_when ends platform_detail
  decide_item w =
      let act : Act World = record { world = w; commands = [] } in
      if foreign_platform it.platforms
      then ends skipped platform_detail none act
      else decide_when it.when act
