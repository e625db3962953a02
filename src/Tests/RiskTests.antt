-- ===== src/Tests/RiskTests.antt =====
-- Examples of the theorems on the circuit breakers.
use hfmcbot.Prelude.{ℕ, ◌≡◌, refl, [], ◌∷◌, arith}
use hfmcbot.Prelude.Int.{ℤ, pos, negsuc, ◌+ℤ◌, ◌/ℤ◌, ◌*ℤ◌, ◌-ℤ◌}
use hfmcbot.Platform.Sample.{whole_dollars, unix_seconds, unix_seconds-IsChronological}
use hfmcbot.Risk.{
  RiskEngine, new, blocked, check_entry, check_order, record_realized_pnl, BlockReason, loss_limit,
  maybe_rollover,
}
use hfmcbot.Risk.Breakers.{Call, calls, check_entry-record_realized_pnl}
use hfmcbot.Risk.Throttle.{sliding_window, check_order-eq-sliding_window, young}
use hfmcbot.Tests.{paper_config}

-- a risk engine with two orders of the last minute
abbrev busy_engine : RiskEngine ℤ ℕ
busy_engine = record (new paper_config 1000) { recent_orders = 930 ∷ 990 ∷ 995 ∷ [] }

check_entry-record_realized_pnl_example :
    let r' =
      calls
        (record_realized_pnl busy_engine (negsuc 149) 1000)
        (Call.record_pnl (pos 500) 1001 ∷ []) in
    (check_entry r' 1002).1
    ≡ blocked
        (BlockReason.daily_loss_limit r'.day_realized_pnl r'.cfg.daily_loss_limit_pct r'.equity)
unfolding loss_limit maybe_rollover new ◌+ℤ◌ ◌/ℤ◌ ◌*ℤ◌ ◌-ℤ◌
check_entry-record_realized_pnl_example =
    check_entry-record_realized_pnl busy_engine (negsuc 149) 1000
      (Call.record_pnl (pos 500) 1001 ∷ []) 1002 refl (refl, tt) refl

check_order-eq-sliding_window_example :
    check_order busy_engine 1000 ≡ sliding_window busy_engine 1000
unfolding young new
check_order-eq-sliding_window_example =
    check_order-eq-sliding_window busy_engine 1000 unix_seconds-IsChronological
      ((refl, (refl, tt)), ((refl, tt), (tt, tt))) (omega arith)
