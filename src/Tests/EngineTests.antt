-- ===== src/Tests/EngineTests.antt =====
-- Examples of the theorems on the engine.
use hfmcbot.Prelude.{ℕ, ◌≡◌, refl, [], ◌∷◌, none, some, ◌⊎◌}
use hfmcbot.Prelude.Int.{ℤ, pos}
use hfmcbot.Prelude.Map.{lookup}
use hfmcbot.Prelude.Text.{text_eq}
use hfmcbot.Prelude.Map.Laws.{AllEntries}
use hfmcbot.Platform.Sample.{
  whole_dollars, unix_seconds, whole_dollars-IsOrdered, whole_dollars-IsExact,
}
use hfmcbot.Engine.Balance.{IsBalanced, ledger}
use hfmcbot.Engine.Balance.Run.{new-IsBalanced, on_event-IsBalanced}
use hfmcbot.Engine.Book.{check_invariants, state, restore, resumed, Restored, running, Violation}
use hfmcbot.Engine.Restore.{IsResumed, restore-IsResumed}
use hfmcbot.Persist.{EngineState}
use hfmcbot.Engine.Check.{check_invariants-run}
use hfmcbot.Engine.Events.{on_event, run}
use hfmcbot.Engine.Exit.{close_position, exit_of}
use hfmcbot.Engine.Entry.{on_launch}
use hfmcbot.Engine.Halted.{holdings-on_launch}
use hfmcbot.Engine.HighWater.{IsUnderMark, run-IsUnderMark}
use hfmcbot.Engine.Selling.{
  IsFailedExit, holdings, close_position_ignores_risk, close_position-IsFailedExit,
}
use hfmcbot.Engine.State.{Engine, Exit, new}
use hfmcbot.Exec.{rejected}
use hfmcbot.Risk.{engage_kill_switch}
use hfmcbot.Tests.{
  paper_config, OneLot, one_lot, one_lot_executor, one_lot-Fills, Refuser, refuser,
  refusing_executor, cat, cat_launch, cat_position, cat_feed,
}
use hfmcbot.Types.{Event, ExitReason, Position}

abbrev fresh : Engine OneLot ℤ ℕ
fresh = new paper_config one_lot [] 1000

abbrev holding : Engine OneLot ℤ ℕ
holding = record fresh { positions = (cat, cat_position) ∷ []; deployed_usd = pos 21 }

abbrev refused : Engine Refuser ℤ ℕ
refused = record (new paper_config refuser [] 1000) {
  positions = (cat, cat_position) ∷ [];
  deployed_usd = pos 21;
}

abbrev cat_exit : Exit ℤ ℕ
cat_exit = exit_of cat_position (pos 6) (pos 8000) 1100 ExitReason.stop_loss

check_invariants-run_example : check_invariants (run fresh cat_feed) ≡ none
check_invariants-run_example =
    check_invariants-run paper_config one_lot [] 1000 cat_feed whole_dollars-IsExact
      whole_dollars-IsOrdered one_lot-Fills

on_event-IsBalanced_example : IsBalanced (ledger (on_event fresh (Event.launch cat_launch)))
on_event-IsBalanced_example =
    on_event-IsBalanced whole_dollars-IsExact fresh (Event.launch cat_launch)
      (new-IsBalanced whole_dollars-IsExact paper_config one_lot [] 1000)

run-IsUnderMark_example : AllEntries IsUnderMark (run holding cat_feed).positions
run-IsUnderMark_example =
    run-IsUnderMark holding cat_feed whole_dollars-IsOrdered (record { under = refl }, tt)

close_position_ignores_risk_example :
    holdings (close_position (record holding { risk = engage_kill_switch holding.risk }) cat_exit)
    ≡ holdings (close_position holding cat_exit)
close_position_ignores_risk_example =
    close_position_ignores_risk holding (engage_kill_switch holding.risk) cat_exit

close_position-IsFailedExit_example :
    (p' : Position ℤ ℕ) × IsFailedExit refused (close_position refused cat_exit) cat cat_position p'
unfolding exit_of lookup text_eq
close_position-IsFailedExit_example =
    close_position-IsFailedExit refused cat_exit cat_position refl
      (λ x mint qty price liq now order_id tier. (rejected, refl))

abbrev halted : Engine OneLot ℤ ℕ
halted = record fresh { risk = engage_kill_switch fresh.risk }

holdings-on_launch_example : holdings (on_launch halted cat_launch) ≡ holdings halted
unfolding engage_kill_switch
holdings-on_launch_example = holdings-on_launch halted cat_launch refl

abbrev cat_snapshot : EngineState ℤ ℕ
cat_snapshot = state (record holding { risk = engage_kill_switch holding.risk })

restore-IsResumed_example :
    ((s : Engine OneLot ℤ ℕ) × ((restore paper_config one_lot [] 2000 cat_snapshot ≡ running s)
        × IsResumed paper_config one_lot cat_snapshot s))
    ⊎ ((v : Violation) × ((restore paper_config one_lot [] 2000 cat_snapshot ≡ Restored.refused v)
          × (check_invariants (resumed paper_config one_lot [] 2000 cat_snapshot) ≡ some v)))
restore-IsResumed_example = restore-IsResumed paper_config one_lot [] 2000 cat_snapshot
