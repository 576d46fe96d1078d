-- ===== src/Task/Decide/Commands.antt =====
-- What is known of the commands that an item has run (internal/task/engine.go).
use caramelo.Common.{
  ◌≡◌, ◌≢◌, refl, ap, ◌∙◌, List, [], ◌∷◌, ◌++◌, some, arith, nat_eq, Bytes, All, All-append,
}
use caramelo.Task.{
  Item, ScriptKind, of_check, of_cmd, Output, Command, Answer, ran, deadline, broken, Machine,
}
use caramelo.Task.Decide.{ok, Act, answered, run_script}

-- A command that is no cmd of the item; a cmd that exited with 0.
abbrev pub NoCmd : Command → Type 0
NoCmd c = c.kind ≢ of_cmd

abbrev pub CmdPassed : Command → Type 0
CmdPassed c = c.kind ≡ of_cmd → c.exit ≡ some 0

-- The last command is the check, and it passed.
abbrev pub LastCheck : List Command → Type 0
LastCheck cs =
    (front : List Command) × (c : Command) × (cs ≡ front ++ c ∷ [])
    × (c.kind ≡ of_check)
    × (c.exit ≡ some 0)

module _ {World : Type 0} (m : Machine World) (it : Item) where
  answered_kind :
      (kind : ScriptKind) (script : Bytes) (a : Answer)
      → (answered m it kind script a).1.kind ≡ kind
  unfolding answered
  answered_kind kind script (ran out) = refl
  answered_kind kind script (deadline out) = refl
  answered_kind kind script (broken why out) = refl

  answered_exit :
      (kind : ScriptKind) (script : Bytes) (a : Answer) (out : Output)
      → (answered m it kind script a).0 ≡ ok out
      → (answered m it kind script a).1.exit ≡ some out.exit
  unfolding answered
  answered_exit kind script (ran o) out e = ground arith
  answered_exit kind script (deadline o) out e = cc
  answered_exit kind script (broken why o) out e = cc

  -- After a script: what holds of the commands before and of the new one holds of all.
  pub All-run_script {ℓ} :
      (P : Command → Type ℓ) (kind : ScriptKind) (script : Bytes) (act : Act World)
      → ((c : Command) → c.kind ≡ kind → P c)
      → All P act.commands
      → All P (run_script m it kind script act).1.commands
  unfolding run_script
  All-run_script P kind [] act new a = a
  All-run_script P kind (x ∷ s) act new a =
      All-append P act.commands _ a
        (new _ (answered_kind kind (x ∷ s) (m.exec (x ∷ s) act.world).0), tt)

  pub run_cmd-Passed :
      (script : Bytes) (act : Act World) (out : Output)
      → (run_script m it of_cmd script act).0 ≡ ok out
      → out.exit ≡ 0
      → All CmdPassed act.commands
      → All CmdPassed (run_script m it of_cmd script act).1.commands
  unfolding run_script
  run_cmd-Passed [] act out e z a = a
  run_cmd-Passed (x ∷ s) act out e z a =
      All-append CmdPassed act.commands _ a
        (λ _. answered_exit of_cmd (x ∷ s) (m.exec (x ∷ s) act.world).0 out e ∙ ap some z, tt)

  pub run_check-LastCheck :
      (script : Bytes) (act : Act World) (out : Output)
      → script ≢ []
      → (run_script m it of_check script act).0 ≡ ok out
      → out.exit ≡ 0
      → LastCheck (run_script m it of_check script act).1.commands
  unfolding run_script
  run_check-LastCheck [] act out h e z = absurd (h refl)
  run_check-LastCheck (x ∷ s) act out h e z = (
    act.commands,
    _,
    refl,
    answered_kind of_check (x ∷ s) (m.exec (x ∷ s) act.world).0,
    answered_exit of_check (x ∷ s) (m.exec (x ∷ s) act.world).0 out e ∙ ap some z,
  )
