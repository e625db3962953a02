-- ===== src/Tests/AlertTests.antt =====
-- Examples of the theorems on the alerts.
use hfmcbot.Prelude.{ℕ, List, [], ◌∷◌, true, arith}
use hfmcbot.Alerts.{AlertKind, new}
use hfmcbot.Alerts.RateLimit.{Call, AreSpaced, fire_all, fire_all-AreSpaced}

abbrev call : ℕ → AlertKind → Call ℕ
call now kind = record { now = now; at = 0; kind = kind; detail = [] }

abbrev calls : List (Call ℕ)
calls =
    call 10 AlertKind.kill_switch
    ∷ call 20 AlertKind.kill_switch
    ∷ call 30 AlertKind.snapshot_failed
    ∷ call 5000000000 AlertKind.kill_switch
    ∷ []

fire_all-AreSpaced_example : AreSpaced 3000000000 (fire_all calls (new true 3) []).1
unfolding new
fire_all-AreSpaced_example = fire_all-AreSpaced calls (new true 3) (omega arith)
