-- ===== src/Engine/Exit.antt =====
-- Exits (src/engine.rs): `close_position` and its two outcomes.
use hfmcbot.Prelude.{
  ℕ, suc, Bool, true, ◌&&◌, not, [], ◌∷◌, ◌++◌, Option, none, some, length, leb, if◌then◌else◌,
}
use hfmcbot.Prelude.Map.{lookup, insert, remove}
use hfmcbot.Prelude.Text.{Text}
use hfmcbot.Platform.Decimal.{Decimal, ◌⊕◌, ◌⊖◌, ◌⊗◌, ◌⊘◌, dec, eqb, round_dp}
use hfmcbot.Platform.Chrono.{Chrono}
use hfmcbot.Engine.State.{
  Engine, Alert, Exit, tier_of, is_transport, alert, append_audit, audit_decision, next_order_id,
}
use hfmcbot.Exec.{Executor, ExecError, Outcome, filled, failed, fill_dp}
use hfmcbot.Persist.{AuditRecord, Action, Detail, fill_record}
use hfmcbot.Risk.{kill_switch_on, note_side, record_realized_pnl, set_open_positions}
use hfmcbot.Types.{Position, Side, Fill, ExitReason, ClosedTrade}

module _ {D T : Type 0} ⦃d : Decimal D⦄ where
  -- the record of a position that was sold; `opened_at` is the time of the selling fill, as in
  -- the source
  unfoldable pub closed_trade : Exit D T → Fill D T → ClosedTrade D T
  closed_trade e f =
      let proceeds = round_dp fill_dp (f.notional_usd ⊖ f.fee_usd) in
      let pnl = proceeds ⊖ e.cost in
      record {
        mint = e.mint;
        opened_at = f.ts;
        closed_at = e.now;
        entry_price = e.entry_price;
        exit_price = f.price_usd;
        qty = f.qty;
        cost_usd = e.cost;
        proceeds_usd = proceeds;
        pnl_usd = pnl;
        pnl_pct = if eqb e.cost (dec 0) then dec 0 else round_dp fill_dp (pnl ⊘ e.cost ⊗ dec 100);
        exit_reason = e.reason;
        mode = e.mode;
      }

module _ {D T : Type 0} where
  -- what `close_position` is given of a position
  unfoldable pub exit_of : Position D T → D → D → T → ExitReason → Exit D T
  exit_of pos ref_price liquidity_usd now reason = record {
    mint = pos.mint;
    qty = pos.qty;
    cost = pos.cost_usd;
    mode = pos.mode;
    entry_price = pos.entry_price;
    ref_price = ref_price;
    liquidity_usd = liquidity_usd;
    now = now;
    reason = reason;
  }

  -- `newly`: one more failed exit is the one that makes it stuck
  unfoldable pub newly_stuck : ℕ → Position D T → Bool
  newly_stuck limit pos = not pos.stuck && leb limit (suc pos.exit_attempts)

  -- a position after one more failed exit
  unfoldable pub count_failure : ℕ → Position D T → Position D T
  unfolding newly_stuck
  count_failure limit pos = record pos {
    exit_attempts = suc pos.exit_attempts;
    stuck = if newly_stuck limit pos then true else pos.stuck;
  }

module _ {X D T : Type 0} ⦃d : Decimal D⦄ where
  -- the audit record and the alert of a position that has just become stuck
  unfoldable pub report_stuck : Engine X D T → Exit D T → ℕ → D → Engine X D T
  unfolding audit_decision alert
  report_stuck s e attempts cost =
      alert
        (audit_decision s e.now e.mint Action.position_stuck
          (Detail.treated_as_unsellable attempts s.cfg.max_exit_attempts cost))
        (Alert.position_stuck e.mint attempts cost e.mode)

  -- the alert and the audit record of every failed exit
  unfoldable pub report_failure : Engine X D T → Exit D T → ℕ → ExecError → Engine X D T
  unfolding audit_decision alert is_transport
  report_failure s e attempts err =
      let s' = if is_transport err then alert s (Alert.exit_unknown e.mint attempts) else s in
      audit_decision s' e.now e.mint Action.exit_failed (Detail.attempt attempts err)

  -- the `Err` branch of `close_position`, on the position found under the mint
  unfoldable pub exit_failed :
      Engine X D T → Exit D T → ExecError → Option (Position D T) → Engine X D T
  unfolding report_stuck report_failure count_failure newly_stuck
  exit_failed s e err none = report_failure s e 0 err
  exit_failed s e err (some pos) =
      let limit = s.cfg.max_exit_attempts in
      let s' = record s { positions = insert e.mint (count_failure limit pos) s.positions } in
      let attempts = suc pos.exit_attempts in
      let reported = report_stuck s' e attempts pos.cost_usd in
      report_failure (if newly_stuck limit pos then reported else s') e attempts err

module _ {X D T : Type 0} ⦃d : Decimal D⦄ ⦃c : Chrono T⦄ where
  -- the `Ok` branch of `close_position`
  unfoldable pub exit_filled : Engine X D T → Exit D T → Text → Fill D T → Engine X D T
  unfolding closed_trade fill_record append_audit
  exit_filled s e order_id f =
      let trade = closed_trade e f in
      let risk' = record_realized_pnl s.risk trade.pnl_usd e.now in
      let positions' = remove e.mint s.positions in
      let tripped = not (kill_switch_on s.risk) && kill_switch_on risk' in
      let sold = record s {
        equity = s.equity ⊕ trade.pnl_usd;
        deployed_usd = s.deployed_usd ⊖ e.cost;
        risk = set_open_positions risk' (length positions');
        positions = positions';
        closed = s.closed ++ trade ∷ [];
      } in
      append_audit (append_audit sold (if tripped then AuditRecord.breaker e.now ∷ [] else [])) (
        AuditRecord.order e.now order_id e.mint Side.sell e.qty e.ref_price
        ∷ fill_record f
        ∷ AuditRecord.trade_closed trade
        ∷ [])

  -- the match on the result of the sell
  unfoldable pub after_sell : Engine X D T → Exit D T → Text → Outcome D T → Engine X D T
  unfolding exit_filled exit_failed
  after_sell s e order_id (filled f) = exit_filled s e order_id f
  after_sell s e order_id (failed err) = exit_failed s e err (lookup e.mint s.positions)

module _ {X D T : Type 0} ⦃d : Decimal D⦄ ⦃c : Chrono T⦄ ⦃ex : Executor X D T⦄ where
  unfoldable pub close_position : Engine X D T → Exit D T → Engine X D T
  unfolding after_sell next_order_id note_side tier_of
  close_position s e =
      let (s', order_id) =
        next_order_id (record s { risk = note_side s.risk Side.sell e.now }) e.mint in
      let (x, outcome) =
        ex.sell s'.exec e.mint e.qty e.ref_price e.liquidity_usd e.now order_id (tier_of e.mode) in
      after_sell (record s' { exec = x }) e order_id outcome
