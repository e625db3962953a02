-- ===== src/Strategy.antt =====
-- The decisions (src/strategy.rs): entry gate, sizing, funnel slices and exit rules.
pub mod Entry
pub mod Exits
pub mod Sizing
use hfmcbot.Prelude.{
  ℕ, ◌-◌, ◌&&◌, ◌||◌, not, List, [], ◌∷◌, ◌++◌, Option, none, some, ◌==◌, replicate, if◌then◌else◌,
}
use hfmcbot.Prelude.Int.{ℤ, leb_ℤ, ltb_ℤ, as_i64}
use hfmcbot.Platform.Decimal.{
  Decimal, ◌⊖◌, ◌⊗◌, ◌⊘◌, dec, le, lt, gt, floor, round_dp, dec_min, dec_max,
}
use hfmcbot.Platform.Chrono.{Chrono, num_seconds}
use hfmcbot.Config.{Config}
use hfmcbot.Types.{
  Launch, Position, HoldMode, flip, conviction, ExitReason, take_profit, stop_loss, max_hold,
  trail_stop, conviction_max_hold, unrealized_pnl_pct,
}

pub data RejectReason (D : Type 0) : Type 0 where
  too_old : ℤ → ℕ → RejectReason D
  too_illiquid : D → D → RejectReason D
  dev_hold_too_high : D → D → RejectReason D
  not_renounced_on_migrated : D → D → RejectReason D
  honeypot : RejectReason D

-- `Result<(), RejectReason>`
pub data Gate (D : Type 0) : Type 0 where
  pass : Gate D
  reject : RejectReason D → Gate D

-- the match of `on_time` on the mode, with the seconds elapsed
time_exit : {D : Type 0} → HoldMode → ℤ → Config D → Option ExitReason
time_exit flip elapsed cfg =
    if leb_ℤ (as_i64 cfg.max_hold_secs) elapsed then some max_hold else none
time_exit conviction elapsed cfg =
    if leb_ℤ (as_i64 cfg.conviction_max_hold_secs) elapsed then some conviction_max_hold else none

module _ {D T : Type 0} ⦃d : Decimal D⦄ ⦃c : Chrono T⦄ where
  unfoldable pub entry_gate : Launch D T → T → Config D → Gate D
  entry_gate l now cfg =
      let age_secs = num_seconds now l.created_at in
      if ltb_ℤ (as_i64 cfg.entry_max_age_secs) age_secs
      then reject (too_old age_secs cfg.entry_max_age_secs)
      else if lt l.liquidity_usd cfg.min_liquidity_usd && not l.on_curve
      then reject (too_illiquid l.liquidity_usd cfg.min_liquidity_usd)
      else if gt l.creator_hold_pct cfg.max_dev_hold_pct
      then reject (dev_hold_too_high l.creator_hold_pct cfg.max_dev_hold_pct)
      else if l.is_honeypot
      then reject honeypot
      else if not l.on_curve && not l.mint_renounced
      then reject (not_renounced_on_migrated l.liquidity_usd cfg.min_liquidity_usd)
      else pass

  -- `on_price` after the high-water mark is raised, in flip mode
  flip_exit : Position D T → D → T → Config D → Position D T × Option ExitReason
  flip_exit pos current now cfg =
      let pnl_pct = unrealized_pnl_pct pos current in
      let stop_price = pos.high_water ⊗ (dec 1 ⊖ cfg.stop_loss_pct ⊘ dec 100) in
      if le cfg.conviction_min_pct pnl_pct
      then (record pos { mode = conviction }, none)
      else if le cfg.take_profit_pct pnl_pct
      then (pos, some take_profit)
      else if le current stop_price
      then (pos, some stop_loss)
      else if leb_ℤ (as_i64 cfg.max_hold_secs) (num_seconds now pos.opened_at)
      then (pos, some max_hold)
      else (pos, none)

  -- the same in conviction mode
  conviction_exit : Position D T → D → T → Config D → Position D T × Option ExitReason
  conviction_exit pos current now cfg =
      let trail_price = pos.high_water ⊗ (dec 1 ⊖ cfg.trail_pct ⊘ dec 100) in
      if le current trail_price
      then (pos, some trail_stop)
      else if leb_ℤ (as_i64 cfg.conviction_max_hold_secs) (num_seconds now pos.opened_at)
      then (pos, some conviction_max_hold)
      else (pos, none)

  -- `if price > pos.high_water { pos.high_water = price }`
  raise_high_water : Position D T → D → Position D T
  raise_high_water pos current = record pos {
    high_water = if gt current pos.high_water then current else pos.high_water;
  }

  exit_by_mode : HoldMode → Position D T → D → T → Config D → Position D T × Option ExitReason
  exit_by_mode flip = flip_exit
  exit_by_mode conviction = conviction_exit

  unfoldable pub on_price : Position D T → D → T → Config D → Position D T × Option ExitReason
  unfolding flip_exit conviction_exit raise_high_water exit_by_mode unrealized_pnl_pct
  on_price pos current now cfg =
      exit_by_mode pos.mode (raise_high_water pos current) current now cfg

  unfoldable pub on_time : Position D T → T → Config D → Option ExitReason
  unfolding time_exit
  on_time pos now cfg = time_exit pos.mode (num_seconds now pos.opened_at) cfg

module _ {D : Type 0} ⦃d : Decimal D⦄ where
  unfoldable pub position_budget : Config D → D → D → D
  position_budget cfg equity deployed_usd =
      let risk_cap = equity ⊗ cfg.risk_per_trade_pct ⊘ dec 100 in
      let budget = dec_min risk_cap cfg.max_single_pos_usd in
      let free = equity ⊖ deployed_usd in
      if lt free (dec 0) || gt budget free then dec_max free (dec 0) else budget

  -- `none` is the failed assertion `n >= 1`
  unfoldable pub split_into_slices : D → ℕ → Option (List D)
  split_into_slices total n =
      let base = round_dp 4 (floor (total ⊘ dec n)) in
      if n == 0
      then none
      else if n == 1 || le total (dec 0)
      then some (total ∷ [])
      else if le base (dec 0)
      then some (total ∷ [])
      else some (replicate (n - 1) base ++ (total ⊖ base ⊗ dec (n - 1)) ∷ [])
