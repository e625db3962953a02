-- ===== src/Engine/Entry.antt =====
-- Launches (src/engine.rs): from the entry gate to the fills of the funnel.
use hfmcbot.Prelude.{
  ℕ, suc, Bool, true, false, List, [], ◌∷◌, Option, none, some, length, if◌then◌else◌,
}
use hfmcbot.Prelude.Int.{as_i64}
use hfmcbot.Prelude.Map.{lookup, contains_key, insert}
use hfmcbot.Prelude.Text.{Text}
use hfmcbot.Platform.Decimal.{Decimal, ◌⊕◌, ◌⊗◌, ◌⊘◌, dec, le, gt}
use hfmcbot.Platform.Chrono.{Chrono, plus_seconds, after}
use hfmcbot.Engine.State.{
  Engine, Alert, is_transport, alert, audit_decision, audit_blocked, next_order_id,
  log_order_and_fill,
}
use hfmcbot.Exec.{Executor, Outcome, filled, failed}
use hfmcbot.Persist.{Action, Detail}
use hfmcbot.Risk.{Verdict, allowed, blocked, check_entry, check_order, set_open_positions}
use hfmcbot.Strategy.{Gate, pass, reject, entry_gate, position_budget, split_into_slices}
use hfmcbot.Types.{Launch, Launchpad, Position, HoldMode, Side, Fill}

module _ {D T : Type 0} ⦃d : Decimal D⦄ where
  -- the position that a first fill opens, before its quantities are added
  unfoldable pub opened : Fill D T → Launchpad → D → Position D T
  opened f launchpad liquidity_usd = record {
    mint = f.mint;
    launchpad = launchpad;
    opened_at = f.ts;
    entry_price = f.price_usd;
    qty = dec 0;
    cost_usd = dec 0;
    high_water = f.price_usd;
    last_price = f.price_usd;
    last_liquidity_usd = liquidity_usd;
    mode = HoldMode.flip;
    exit_attempts = 0;
    stuck = false;
  }

  unfoldable pub or_opened : Option (Position D T) → Fill D T → Launchpad → D → Position D T
  unfolding opened
  or_opened (some pos) f launchpad liquidity_usd = pos
  or_opened none f launchpad liquidity_usd = opened f launchpad liquidity_usd

  -- the position with a fill added to it, at the quantity-weighted entry price
  unfoldable pub add_fill : Position D T → Fill D T → D → Position D T
  add_fill pos f liquidity_usd =
      let new_qty = pos.qty ⊕ f.qty in
      record pos {
        entry_price =
            if gt new_qty (dec 0)
            then (pos.entry_price ⊗ pos.qty ⊕ f.price_usd ⊗ f.qty) ⊘ new_qty
            else pos.entry_price;
        qty = new_qty;
        cost_usd = pos.cost_usd ⊕ (f.notional_usd ⊕ f.fee_usd);
        last_price = f.price_usd;
        last_liquidity_usd = liquidity_usd;
        high_water = if gt f.price_usd pos.high_water then f.price_usd else pos.high_water;
      }

module _ {X D T : Type 0} ⦃d : Decimal D⦄ ⦃c : Chrono T⦄ where
  unfoldable pub apply_buy_fill : Engine X D T → Fill D T → Launchpad → D → Engine X D T
  unfolding or_opened add_fill set_open_positions
  apply_buy_fill s f launchpad liquidity_usd =
      let pos = or_opened (lookup f.mint s.positions) f launchpad liquidity_usd in
      let positions' = insert f.mint (add_fill pos f liquidity_usd) s.positions in
      record s {
        positions = positions';
        deployed_usd = s.deployed_usd ⊕ (f.notional_usd ⊕ f.fee_usd);
        risk = set_open_positions s.risk (length positions');
      }

module _ {X D T : Type 0} ⦃d : Decimal D⦄ ⦃c : Chrono T⦄ ⦃ex : Executor X D T⦄ where
  -- the match on the result of a buy: the engine, and whether the funnel goes on
  unfoldable pub after_buy :
      Engine X D T → Launch D T → D → Text → Outcome D T → Engine X D T × Bool
  unfolding apply_buy_fill log_order_and_fill audit_decision alert is_transport
  after_buy s l slice order_id (filled f) = (
    log_order_and_fill (apply_buy_fill s f l.launchpad l.liquidity_usd) l.created_at order_id l.mint
        Side.buy slice l.price_usd f,
    true,
  )
  after_buy s l slice order_id (failed e) =
      let s' = if is_transport e then alert s (Alert.buy_unknown l.mint order_id) else s in
      (audit_decision s' l.created_at l.mint Action.order_failed (Detail.by_error e), false)

  -- the order of one slice, once the throttle has let it through
  unfoldable pub order_slice : Engine X D T → Launch D T → T → D → Engine X D T × Bool
  unfolding next_order_id after_buy
  order_slice s l deadline slice =
      let (s', order_id) = next_order_id s l.mint in
      let (x, outcome) =
        ex.buy s'.exec l.mint slice l.price_usd l.liquidity_usd l.created_at deadline order_id in
      after_buy (record s' { exec = x }) l slice order_id outcome

  -- the match on `check_order` in the funnel, for slice `idx` of `n`
  unfoldable pub throttled_slice :
      Engine X D T → Launch D T → T → ℕ → ℕ → D → Verdict D → Engine X D T × Bool
  unfolding order_slice audit_blocked audit_decision
  throttled_slice s l deadline idx n slice allowed = order_slice s l deadline slice
  throttled_slice s l deadline idx n slice (blocked reason) = (
    audit_decision (audit_blocked s l.created_at l.mint reason) l.created_at l.mint
        Action.funnel_aborted (Detail.slices_unfilled idx n),
    false,
  )

  -- the body of the funnel loop; the Boolean is false at a `break`
  unfoldable pub send_slice : Engine X D T → Launch D T → T → ℕ → ℕ → D → Engine X D T × Bool
  unfolding throttled_slice audit_decision check_order
  send_slice s l deadline idx n slice =
      let (r, verdict) = check_order s.risk l.created_at in
      if after l.created_at deadline
      then (
        audit_decision s l.created_at l.mint Action.funnel_window_expired
            (Detail.slice_not_sent idx n),
        false,
      )
      else throttled_slice (record s { risk = r }) l deadline idx n slice verdict

  -- the funnel loop from slice `idx` on
  unfoldable pub send_slices : Engine X D T → Launch D T → T → ℕ → ℕ → List D → Engine X D T
  unfolding send_slice
  send_slices s l deadline idx n [] = s
  send_slices s l deadline idx n (slice ∷ slices) =
      let (s', more) = send_slice s l deadline idx n slice in
      elim more [ true ↦ send_slices s' l deadline (suc idx) n slices | false ↦ s' ]

  -- the funnel; a split into no slices is the failed assertion of `split_into_slices`
  unfoldable pub send_funnel : Engine X D T → Launch D T → T → Option (List D) → Engine X D T
  unfolding send_slices
  send_funnel s l deadline none = s
  send_funnel s l deadline (some slices) = send_slices s l deadline 1 (length slices) slices

  -- `on_launch` from the sizing on
  unfoldable pub enter : Engine X D T → Launch D T → Engine X D T
  unfolding send_funnel audit_decision position_budget split_into_slices
  enter s l =
      let budget = position_budget s.cfg s.equity s.deployed_usd in
      let deadline = plus_seconds l.created_at (as_i64 s.cfg.funnel_window_secs) in
      let accepted =
        audit_decision s l.created_at l.mint Action.entry_accepted
          (Detail.funnel_budget budget l.launchpad) in
      if le budget (dec 0)
      then audit_decision s l.created_at l.mint Action.entry_rejected Detail.no_free_capital
      else send_funnel accepted l deadline (split_into_slices budget s.cfg.funnel_slices)

  -- the match on `check_entry`
  unfoldable pub risk_checked : Engine X D T → Launch D T → Verdict D → Engine X D T
  unfolding enter audit_blocked
  risk_checked s l allowed = enter s l
  risk_checked s l (blocked reason) = audit_blocked s l.created_at l.mint reason

  -- the match on `entry_gate`
  unfoldable pub gated : Engine X D T → Launch D T → Gate D → Engine X D T
  unfolding risk_checked audit_decision check_entry
  gated s l pass =
      let (r, verdict) = check_entry s.risk l.created_at in
      risk_checked (record s { risk = r }) l verdict
  gated s l (reject reason) =
      audit_decision s l.created_at l.mint Action.entry_rejected (Detail.by_gate reason)

  unfoldable pub on_launch : Engine X D T → Launch D T → Engine X D T
  unfolding gated audit_decision entry_gate
  on_launch s l =
      if contains_key l.mint s.positions
      then audit_decision s l.created_at l.mint Action.entry Detail.already_holding
      else gated s l (entry_gate l l.created_at s.cfg)
