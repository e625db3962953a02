-- ===== src/Risk.antt =====
-- The circuit breakers (src/risk.rs): kill switch, daily-loss breaker, order throttle and the cap
-- on open positions. A `&mut self` method returns the new engine beside its result. The queue
-- `recent_orders` is a list with its front first.
pub mod Frame
pub mod Breakers
pub mod Throttle
use hfmcbot.Prelude.{
  ℕ, Bool, true, false, ◌||◌, List, [], ◌∷◌, ◌++◌, length, leb, ◌==◌, if◌then◌else◌,
}
use hfmcbot.Prelude.Int.{pos, leb_ℤ, as_u32}
use hfmcbot.Platform.Decimal.{Decimal, ◌⊕◌, ◌⊗◌, ◌⊘◌, dec, negate, le}
use hfmcbot.Platform.Chrono.{Chrono, num_seconds, date_naive}
use hfmcbot.Config.{Config}
use hfmcbot.Types.{Side}

pub data BlockReason (D : Type 0) : Type 0 where
  kill_switch : BlockReason D
  daily_loss_limit : D → D → D → BlockReason D
  open_position_cap : ℕ → ℕ → BlockReason D
  throttled : ℕ → ℕ → BlockReason D

-- `Result<(), BlockReason>`
pub data Verdict (D : Type 0) : Type 0 where
  allowed : Verdict D
  blocked : BlockReason D → Verdict D

pub record RiskState (D T : Type 0) : Type 0 where
  pub day_realized_pnl : D
  pub day : ℕ
  pub daily_loss_tripped : Bool
  pub kill : Bool
  pub recent_orders : List T

pub record RiskEngine (D T : Type 0) : Type 0 where
  pub cfg : Config D
  pub equity : D
  pub day_realized_pnl : D
  pub day : ℕ
  pub daily_loss_tripped : Bool
  pub recent_orders : List T
  pub open_positions : ℕ
  pub kill : Bool

-- the loop of `prune_orders` on the queue
unfoldable pub prune : {T : Type 0} ⦃c : Chrono T⦄ → T → List T → List T
prune now [] = []
prune now (t ∷ q) =
    let rest = prune now q in if leb_ℤ (pos 60) (num_seconds now t) then rest else t ∷ q

module _ {D T : Type 0} ⦃d : Decimal D⦄ ⦃c : Chrono T⦄ where
  -- `RiskEngine::new` at the instant `now` of the clock
  unfoldable pub new : Config D → T → RiskEngine D T
  new cfg now = record {
    cfg = cfg;
    equity = cfg.equity_usd;
    day_realized_pnl = dec 0;
    day = date_naive now;
    daily_loss_tripped = false;
    recent_orders = [];
    open_positions = 0;
    kill = cfg.kill_switch;
  }

  -- the method `kill_switch`: any breaker is engaged
  unfoldable pub kill_switch_on : RiskEngine D T → Bool
  kill_switch_on r = r.kill || r.daily_loss_tripped

  unfoldable pub engage_kill_switch : RiskEngine D T → RiskEngine D T
  engage_kill_switch r = record r { kill = true }

  unfoldable pub release_kill_switch : RiskEngine D T → RiskEngine D T
  release_kill_switch r = record r { kill = false }

  unfoldable pub maybe_rollover : RiskEngine D T → T → RiskEngine D T
  maybe_rollover r now =
      if date_naive now == r.day
      then r
      else (record r { day = date_naive now; day_realized_pnl = dec 0; daily_loss_tripped = false })

  -- the loss at which the breaker trips, as a negative amount
  unfoldable pub loss_limit : RiskEngine D T → D
  loss_limit r = negate r.equity ⊗ r.cfg.daily_loss_limit_pct ⊘ dec 100

  -- the part of `record_realized_pnl` behind the rollover
  unfoldable pub book_pnl : RiskEngine D T → D → RiskEngine D T
  unfolding loss_limit
  book_pnl r pnl =
      let total = r.day_realized_pnl ⊕ pnl in
      record r {
        day_realized_pnl = total;
        daily_loss_tripped = r.daily_loss_tripped || le total (loss_limit r);
      }

  unfoldable pub record_realized_pnl : RiskEngine D T → D → T → RiskEngine D T
  unfolding maybe_rollover book_pnl
  record_realized_pnl r pnl now = book_pnl (maybe_rollover r now) pnl

  unfoldable pub set_open_positions : RiskEngine D T → ℕ → RiskEngine D T
  set_open_positions r n = record r { open_positions = n }

  unfoldable pub snapshot_state : RiskEngine D T → RiskState D T
  snapshot_state r = record {
    day_realized_pnl = r.day_realized_pnl;
    day = r.day;
    daily_loss_tripped = r.daily_loss_tripped;
    kill = r.kill;
    recent_orders = r.recent_orders;
  }

  unfoldable pub restore_state : RiskEngine D T → RiskState D T → RiskEngine D T
  restore_state r snap = record r {
    day_realized_pnl = snap.day_realized_pnl;
    day = snap.day;
    daily_loss_tripped = snap.daily_loss_tripped;
    kill = r.kill || snap.kill;
    recent_orders = snap.recent_orders;
  }

  unfoldable pub prune_orders : RiskEngine D T → T → RiskEngine D T
  unfolding prune
  prune_orders r now = record r { recent_orders = prune now r.recent_orders }

  -- the guards of `check_entry`, on the engine that was rolled over and pruned
  unfoldable pub entry_verdict : RiskEngine D T → Verdict D
  unfolding loss_limit
  entry_verdict r =
      if r.daily_loss_tripped || le r.day_realized_pnl (loss_limit r)
      then blocked (daily_loss_limit r.day_realized_pnl r.cfg.daily_loss_limit_pct r.equity)
      else if r.kill
      then blocked kill_switch
      else if leb r.cfg.max_open_positions r.open_positions
      then blocked (open_position_cap r.open_positions r.cfg.max_open_positions)
      else if leb r.cfg.max_trades_per_min (as_u32 (length r.recent_orders))
      then blocked (throttled (as_u32 (length r.recent_orders)) r.cfg.max_trades_per_min)
      else allowed

  unfoldable pub check_entry : RiskEngine D T → T → RiskEngine D T × Verdict D
  unfolding maybe_rollover prune_orders entry_verdict
  check_entry r now = let r' = prune_orders (maybe_rollover r now) now in (r', entry_verdict r')

  unfoldable pub check_order : RiskEngine D T → T → RiskEngine D T × Verdict D
  unfolding maybe_rollover prune_orders
  check_order r now =
      let r' = prune_orders (maybe_rollover r now) now in
      let n = as_u32 (length r'.recent_orders) in
      if leb r'.cfg.max_trades_per_min n
      then (r', blocked (throttled n r'.cfg.max_trades_per_min))
      else (record r' { recent_orders = r'.recent_orders ++ now ∷ [] }, allowed)

  unfoldable pub note_side : RiskEngine D T → Side → T → RiskEngine D T
  note_side r Side.sell now = record r { recent_orders = r.recent_orders ++ now ∷ [] }
  note_side r Side.buy now = r
