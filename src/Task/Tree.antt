-- ===== src/Task/Tree.antt =====
-- `runEntries`, `runBlock`, `runItem` and `notRun` of internal/task/engine.go, `count` of report.go
-- and `walkItems` of file.go. A parallel block's items are run in their order, which is one of the
-- orders in which Go's goroutines may run them.
pub mod Stops
use caramelo.Common.{
  ℕ, zero, suc, ◌+◌, ◌≡◌, Bool, true, false, ◌&&◌, ◌||◌, List, [], ◌∷◌, ◌++◌, Option, none, some,
  ◌==◌, nat_eq, Bytes, if◌then◌else◌,
}
use caramelo.Task.{
  Item, Entry, item, block, Entries, nil, cons, Status, status_ok, changed, would_change, skipped,
  failed, not_run, status_eq, Leaf, Result, leaf, group, Results, done, more, Machine,
}
use caramelo.Task.Decide.{decide_item}

-- The world, and the flag that the first failure sets.
pub record Run (World : Type 0) : Type 0 where
  pub world : World
  pub stopped : Bool

unfoldable pub status_of : Result → Status
status_of (leaf l) = l.status
status_of (group desc s rs) = s

unfoldable pub any_failed : Results → Bool
unfolding status_of
any_failed done = false
any_failed (more r rs) = status_of r == failed || any_failed rs

unfoldable mutual
  pub not_run_entry : Entry → Result
  not_run_entry (item it) = leaf (record {
    name = it.name;
    desc = it.desc;
    status = not_run;
    detail = [];
    error = none;
    commands = [];
  })
  not_run_entry (block desc es) = group desc not_run (not_run_all es)

  pub not_run_all : Entries → Results
  not_run_all nil = done
  not_run_all (cons e es) = more (not_run_entry e) (not_run_all es)

module _ {World : Type 0} (m : Machine World) where
  unfoldable pub item_done : Bool → Leaf × World → Result × Run World
  item_done stopped (l, w) = (leaf l, record { world = w; stopped = stopped || l.status == failed })

  unfoldable pub run_item : Item → Run World → Result × Run World
  unfolding item_done
  run_item it st = item_done st.stopped (decide_item m it st.world)

  unfoldable pub block_done : Bytes → Results × Run World → Result × Run World
  unfolding any_failed
  block_done desc (rs, st) = (group desc (if any_failed rs then failed else status_ok) rs, st)

  unfoldable pub and_then : Result → Results × Run World → Results × Run World
  and_then r (rs, st) = (more r rs, st)

unfoldable mutual
  unfolding block_done and_then run_item

  pub run_one : {World : Type 0} → Machine World → Entry → Run World → Result × Run World
  run_one m (item it) st = run_item m it st
  run_one m (block desc es) st = block_done m desc (run_block m es st)

  pub run_block : {World : Type 0} → Machine World → Entries → Run World → Results × Run World
  run_block m nil st = (done, st)
  run_block m (cons e es) st = let one = run_one m e st in and_then m one.0 (run_block m es one.1)

unfoldable pub run_entry : {World : Type 0} → Machine World → Entry → Run World → Result × Run World
unfolding not_run_entry run_one
run_entry m e st = if st.stopped then (not_run_entry e, st) else run_one m e st

unfoldable pub run_entries :
    {World : Type 0} → Machine World → Entries → Run World → Results × Run World
unfolding run_entry and_then
run_entries m nil st = (done, st)
run_entries m (cons e es) st =
    let one = run_entry m e st in and_then m one.0 (run_entries m es one.1)
