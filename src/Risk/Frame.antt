-- ===== src/Risk/Frame.antt =====
-- What the operations of the risk engine (src/risk.rs) leave alone.
use hfmcbot.Prelude.{◌≡◌, refl, arith}
use hfmcbot.Platform.Decimal.{Decimal}
use hfmcbot.Platform.Chrono.{Chrono}
use hfmcbot.Risk.{
  RiskEngine, maybe_rollover, record_realized_pnl, check_entry, check_order, note_side,
}
use hfmcbot.Types.{Side}

module _ {D T : Type 0} ⦃d : Decimal D⦄ ⦃c : Chrono T⦄ (r : RiskEngine D T) (now : T) where
  open_positions-maybe_rollover : (maybe_rollover r now).open_positions ≡ r.open_positions
  unfolding maybe_rollover
  open_positions-maybe_rollover = ground arith

  pub cfg-maybe_rollover : (maybe_rollover r now).cfg ≡ r.cfg
  unfolding maybe_rollover
  cfg-maybe_rollover = ground arith

  pub equity-maybe_rollover : (maybe_rollover r now).equity ≡ r.equity
  unfolding maybe_rollover
  equity-maybe_rollover = ground arith

  pub kill-maybe_rollover : (maybe_rollover r now).kill ≡ r.kill
  unfolding maybe_rollover
  kill-maybe_rollover = ground arith

  pub open_positions-check_entry : (check_entry r now).0.open_positions ≡ r.open_positions
  unfolding check_entry
  open_positions-check_entry = ground arith

  pub cfg-check_entry : (check_entry r now).0.cfg ≡ r.cfg
  unfolding check_entry
  cfg-check_entry = ground arith

  pub open_positions-check_order : (check_order r now).0.open_positions ≡ r.open_positions
  unfolding check_order
  open_positions-check_order = ground arith

  pub cfg-check_order : (check_order r now).0.cfg ≡ r.cfg
  unfolding check_order
  cfg-check_order = ground arith

  pub cfg-record_realized_pnl : (pnl : D) → (record_realized_pnl r pnl now).cfg ≡ r.cfg
  unfolding record_realized_pnl
  cfg-record_realized_pnl pnl = ground arith

  pub open_positions-note_side :
      (side : Side) → (note_side r side now).open_positions ≡ r.open_positions
  unfolding note_side
  open_positions-note_side Side.buy = refl
  open_positions-note_side Side.sell = refl

  pub cfg-note_side : (side : Side) → (note_side r side now).cfg ≡ r.cfg
  unfolding note_side
  cfg-note_side Side.buy = refl
  cfg-note_side Side.sell = refl
