-- ===== src/Task.antt =====
-- internal/task/file.go, report.go and status.go: task files, the results of a run, and the machine
-- that a run acts on.
pub mod Decide
pub mod Tree
use caramelo.Common.{
  ℕ, zero, suc, ◌+◌, ◌*◌, ◌^◌, ◌≡◌, ◌↔◌, Bool, true, false, List, [], ◌∷◌, Option, none, some,
  arith, ◌==◌, nat_eq, Eq, Bytes, if◌then◌else◌, ltb,
}

pub record FileSpec : Type 0 where
  pub path : Bytes
  pub mode : Bytes
  pub owner : Bytes
  pub group : Bytes
  pub content : Bytes

pub record DirSpec : Type 0 where
  pub path : Bytes
  pub mode : Bytes
  pub owner : Bytes
  pub group : Bytes

pub record Item : Type 0 where
  pub name : Bytes
  pub desc : Bytes
  pub check : Bytes
  pub cmd : Bytes
  pub cmds : List Bytes
  pub when : Bytes
  pub platforms : List Bytes
  pub timeout : ℕ
  pub file : Option FileSpec
  pub dir : Option DirSpec

-- An entry is an item or a parallel block. (`Entries` is a list of them.)
mutual
  pub data Entry : Type 0 where
    item : Item → Entry
    block : Bytes → Entries → Entry

  pub data Entries : Type 0 where
    nil : Entries
    cons : Entry → Entries → Entries

-- Nanoseconds.
abbrev pub default_timeout : ℕ
default_timeout = 120 * 10 ^ 9

-- `scripts` and `timeout` of an item.
scripts_of : List Bytes → Bytes → List Bytes
scripts_of (c ∷ cs) cmd = c ∷ cs
scripts_of [] [] = []
scripts_of [] (x ∷ cmd) = (x ∷ cmd) ∷ []

unfoldable pub scripts : Item → List Bytes
unfolding scripts_of
scripts it = scripts_of it.cmds it.cmd

unfoldable pub timeout_of : Item → ℕ
timeout_of it = if ltb 0 it.timeout then it.timeout else default_timeout

pub data Status : Type 0 where
  status_ok changed would_change skipped failed not_run : Status

abbrev pub status_tag : Status → ℕ
status_tag status_ok = 0
status_tag changed = 1
status_tag would_change = 2
status_tag skipped = 3
status_tag failed = 4
status_tag not_run = 5

abbrev pub status_beq : Status → Status → Bool
status_beq a b = status_tag a == status_tag b

pub status_beq_iff : (a b : Status) → (status_beq a b ≡ true) ↔ (a ≡ b)
status_beq_iff a b = ground arith

instance abbrev pub status_eq : Eq Status
status_eq = record { same = status_beq; same_iff = status_beq_iff }

pub data ScriptKind : Type 0 where
  of_when of_check of_cmd : ScriptKind

pub record Output : Type 0 where
  pub exit : ℕ
  pub stdout : Bytes
  pub stderr : Bytes

-- A script that was run; its exit is `none`, -1 in the report, if it could not be.
pub record Command : Type 0 where
  pub kind : ScriptKind
  pub script : Bytes
  pub exit : Option ℕ
  pub stdout : Bytes
  pub stderr : Bytes

-- Why an item failed, each a message of the report.
pub data Failure : Type 0 where
  did_not_finish : Bytes → ScriptKind → ℕ → Failure
  run_error : Bytes → Failure
  cmd_exit : ℕ → Failure
  check_still_fails : Failure
  builtin_still_fails : Bytes → Failure

-- What an item came to (a Result that is no block), its duration left out.
pub record Leaf : Type 0 where
  pub name : Bytes
  pub desc : Bytes
  pub status : Status
  pub detail : Bytes
  pub error : Option Failure
  pub commands : List Command

mutual
  pub data Result : Type 0 where
    leaf : Leaf → Result
    group : Bytes → Status → Results → Result

  pub data Results : Type 0 where
    done : Results
    more : Result → Results → Results

-- The shell's answer to a script: it ran, the deadline of the item passed, or it could not be run.
pub data Answer : Type 0 where
  ran : Output → Answer
  deadline : Output → Answer
  broken : Bytes → Output → Answer

-- The interface `builtin`.
pub record Builtin (World : Type 0) : Type 0 where
  pub check : World → (Option (Bool × Bytes) × Bytes) × World
  pub apply : World → (Option Bytes × Bytes) × World

-- The machine: what a script does to the world and answers, what a file: or dir: item does, the
-- operating system, and whether the run is a dry one.
pub record Machine (World : Type 0) : Type 0 where
  pub exec : Bytes → World → Answer × World
  pub dir_target : DirSpec → Builtin World
  pub file_target : FileSpec → Builtin World
  pub os : Bytes
  pub dry_run : Bool
