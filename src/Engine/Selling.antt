-- ===== src/Engine/Selling.antt =====
-- What selling does, and what cannot stop it (src/engine.rs, `close_position` and the sweep).
use hfmcbot.Prelude.{
  ℕ, suc, ◌≤◌, ◌≡◌, ◌⊎◌, refl, ap, ◌∙◌, sym, true, List, Option, none, some, arith, if_ind,
}
use hfmcbot.Prelude.Map.{HashMap, lookup, insert}
use hfmcbot.Prelude.Map.Laws.{lookup-insert_self}
use hfmcbot.Prelude.Text.{Text}
use hfmcbot.Platform.Decimal.{Decimal}
use hfmcbot.Platform.Chrono.{Chrono}
use hfmcbot.Engine.Exit.{
  count_failure, newly_stuck, report_failure, exit_failed, exit_filled, after_sell, close_position,
}
use hfmcbot.Engine.State.{Engine, Exit, next_order_id, tier_of}
use hfmcbot.Exec.{Executor, ExecError, Outcome, TipTier, filled, failed}
use hfmcbot.Risk.{RiskEngine, note_side}
use hfmcbot.Types.{ClosedTrade, Position, Side}

-- What an engine holds and has done, apart from its risk engine and its records.
pub record Holdings (X D T : Type 0) : Type 0 where
  pub exec : X
  pub equity : D
  pub deployed_usd : D
  pub positions : HashMap (Position D T)
  pub closed : List (ClosedTrade D T)
  pub order_seq : ℕ

abbrev pub holdings : {X D T : Type 0} → Engine X D T → Holdings X D T
holdings s = record {
  exec = s.exec;
  equity = s.equity;
  deployed_usd = s.deployed_usd;
  positions = s.positions;
  closed = s.closed;
  order_seq = s.order_seq;
}

module _ {X D T : Type 0} ⦃d : Decimal D⦄ where
  holdings-report_failure :
      (s : Engine X D T) (e : Exit D T) (attempts : ℕ) (err : ExecError)
      → holdings (report_failure s e attempts err) ≡ holdings s
  unfolding report_failure
  holdings-report_failure s e attempts ExecError.transport = refl
  holdings-report_failure s e attempts err = refl

  holdings-exit_failed :
      (s : Engine X D T) (e : Exit D T) (err : ExecError) (p : Position D T)
      → holdings (exit_failed s e err (some p)) ≡ record (holdings s) {
        positions = insert e.mint (count_failure s.cfg.max_exit_attempts p) s.positions;
      }
  unfolding exit_failed
  holdings-exit_failed s e err p =
      holdings-report_failure _ e (suc p.exit_attempts) err
      ∙ if_ind
          (λ (t : Engine X D T). holdings t ≡ record (holdings s) {
            positions = insert e.mint (count_failure s.cfg.max_exit_attempts p) s.positions;
          })
          (newly_stuck s.cfg.max_exit_attempts p) refl refl

module _ {D T : Type 0} where
  count_failure-stuck_if :
      (limit : ℕ) (p : Position D T)
      → (count_failure limit p).stuck ≡ true
      → (p.stuck ≡ true) ⊎ (limit ≤ suc p.exit_attempts)
  unfolding count_failure newly_stuck
  count_failure-stuck_if limit p h = ground (arith)

  count_failure_if_stuck :
      (limit : ℕ) (p : Position D T) → p.stuck ≡ true → (count_failure limit p).stuck ≡ true
  unfolding count_failure newly_stuck
  count_failure_if_stuck limit p h = ground (arith)

  count_failure_if_limit :
      (limit : ℕ) (p : Position D T)
      → limit ≤ suc p.exit_attempts
      → (count_failure limit p).stuck ≡ true
  unfolding count_failure newly_stuck
  count_failure_if_limit limit p h = ground (arith)

module _ {X D T : Type 0} ⦃d : Decimal D⦄ ⦃c : Chrono T⦄ where
  exit_failed_risk :
      (s : Engine X D T) (r : RiskEngine D T) (e : Exit D T) (err : ExecError)
      (o : Option (Position D T))
      → holdings (exit_failed (record s { risk = r }) e err o) ≡ holdings (exit_failed s e err o)
  exit_failed_risk s r e err none =
      unfold exit_failed in
      holdings-report_failure (record s { risk = r }) e 0 err
      ∙ sym (holdings-report_failure s e 0 err)
  exit_failed_risk s r e err (some p) =
      holdings-exit_failed (record s { risk = r }) e err p ∙ sym (holdings-exit_failed s e err p)

  after_sell_risk :
      (s : Engine X D T) (r : RiskEngine D T) (e : Exit D T) (order_id : Text) (o : Outcome D T)
      → holdings (after_sell (record s { risk = r }) e order_id o)
        ≡ holdings (after_sell s e order_id o)
  unfolding after_sell exit_filled
  after_sell_risk s r e order_id (filled f) = refl
  after_sell_risk s r e order_id (failed err) =
      exit_failed_risk s r e err (lookup e.mint s.positions)

  -- `s'` is `s` after a failed exit of the position `p`, held under the mint: the position is held
  -- on, with one more failed attempt, and is stuck if it was or if the attempts reach the limit;
  -- the rest of it, equity, deployed capital and the closed trades are as before.
  pub record IsFailedExit (s s' : Engine X D T) (mint : Text) (p p' : Position D T) : Type 0 where
    pub held : lookup mint s'.positions ≡ some p'
    pub counted : p'.exit_attempts ≡ suc p.exit_attempts
    pub stuck_if :
        p'.stuck ≡ true → (p.stuck ≡ true) ⊎ (s.cfg.max_exit_attempts ≤ suc p.exit_attempts)
    pub if_stuck : p.stuck ≡ true → p'.stuck ≡ true
    pub if_limit : s.cfg.max_exit_attempts ≤ suc p.exit_attempts → p'.stuck ≡ true
    pub same_position : record p { exit_attempts = p'.exit_attempts; stuck = p'.stuck } ≡ p'
    pub same_equity : s'.equity ≡ s.equity
    pub same_deployed : s'.deployed_usd ≡ s.deployed_usd
    pub same_closed : s'.closed ≡ s.closed

  exit_failed-IsFailedExit :
      (s : Engine X D T) (e : Exit D T) (err : ExecError) (p : Position D T)
      → IsFailedExit s
          (exit_failed s e err (some p))
          e.mint
          p
          (count_failure s.cfg.max_exit_attempts p)
  exit_failed-IsFailedExit s e err p =
      let same = holdings-exit_failed s e err p in
      record {
        held =
            ap (λ (h : Holdings X D T). lookup e.mint h.positions) same
            ∙ lookup-insert_self e.mint (count_failure s.cfg.max_exit_attempts p) s.positions;
        counted = unfold count_failure in refl;
        stuck_if = count_failure-stuck_if s.cfg.max_exit_attempts p;
        if_stuck = count_failure_if_stuck s.cfg.max_exit_attempts p;
        if_limit = count_failure_if_limit s.cfg.max_exit_attempts p;
        same_position = unfold count_failure in refl;
        same_equity = ap (λ (h : Holdings X D T). h.equity) same;
        same_deployed = ap (λ (h : Holdings X D T). h.deployed_usd) same;
        same_closed = ap (λ (h : Holdings X D T). h.closed) same;
      }

  after_sell-IsFailedExit :
      (s : Engine X D T) (e : Exit D T) (order_id : Text) (o : Outcome D T) (err : ExecError)
      (p : Position D T)
      → o ≡ failed err
      → lookup e.mint s.positions ≡ some p
      → IsFailedExit s
          (after_sell s e order_id o)
          e.mint
          p
          (count_failure s.cfg.max_exit_attempts p)
  unfolding after_sell
  after_sell-IsFailedExit s e order_id o err p refused found =
      rw (refused, found) (exit_failed-IsFailedExit s e err p)

  -- a failed exit counts from the engine before it was started, which differs in its order number,
  -- executor and risk engine
  from_start :
      (s s' : Engine X D T) (x : X) (r : RiskEngine D T) (n : ℕ) (mint : Text) (p p' : Position D T)
      → IsFailedExit (record s { exec = x; risk = r; order_seq = n }) s' mint p p'
      → IsFailedExit s s' mint p p'
  from_start s s' x r n mint p p' h = record {
    held = h.held;
    counted = h.counted;
    stuck_if = h.stuck_if;
    if_stuck = h.if_stuck;
    if_limit = h.if_limit;
    same_position = h.same_position;
    same_equity = h.same_equity;
    same_deployed = h.same_deployed;
    same_closed = h.same_closed;
  }

module _ {X D T : Type 0} ⦃d : Decimal D⦄ ⦃c : Chrono T⦄ ⦃ex : Executor X D T⦄ where
  -- No breaker stands in the way of a sale: with any other risk engine in its place, kill switch,
  -- tripped breaker and full throttle included, closing a position places the same order and leaves
  -- the same positions, equity, deployed capital, closed trades and order number.
  pub close_position_ignores_risk :
      (s : Engine X D T) (r : RiskEngine D T) (e : Exit D T)
      → holdings (close_position (record s { risk = r }) e) ≡ holdings (close_position s e)
  unfolding close_position next_order_id note_side
  close_position_ignores_risk s r e =
      let s' = record s { order_seq = suc s.order_seq } in
      let order_id = (next_order_id s e.mint).1 in
      let sold =
        ex.sell s.exec e.mint e.qty e.ref_price e.liquidity_usd e.now order_id (tier_of e.mode) in
      after_sell_risk (record s' { exec = sold.0; risk = note_side s.risk Side.sell e.now })
        (note_side r Side.sell e.now) e order_id sold.1

  -- When the executor refuses every sale, closing a held position keeps the
  -- position, with one more failed attempt and otherwise unchanged but for its mark as stuck; it is
  -- stuck exactly if it was or if the attempts reach the limit; and equity, deployed capital and the
  -- closed trades are as before.
  pub close_position-IsFailedExit :
      (s : Engine X D T) (e : Exit D T) (p : Position D T)
      → lookup e.mint s.positions ≡ some p
      → ((x : X) (mint : Text) (qty price liq : D) (now : T) (order_id : Text) (tier : TipTier)
          → (err : ExecError) × ((ex.sell x mint qty price liq now order_id tier).1 ≡ failed err))
      → (p' : Position D T) × IsFailedExit s (close_position s e) e.mint p p'
  unfolding close_position next_order_id
  close_position-IsFailedExit s e p found refuses =
      let order_id = (next_order_id s e.mint).1 in
      let tier = tier_of e.mode in
      let refused = refuses s.exec e.mint e.qty e.ref_price e.liquidity_usd e.now order_id tier in
      let sold = ex.sell s.exec e.mint e.qty e.ref_price e.liquidity_usd e.now order_id tier in
      let risk' = note_side s.risk Side.sell e.now in
      let s' = record s { exec = sold.0; risk = risk'; order_seq = suc s.order_seq } in
      let p' = count_failure s.cfg.max_exit_attempts p in
      let failed_exit =
        from_start s (after_sell s' e order_id sold.1) sold.0 risk' (suc s.order_seq) e.mint p p'
          (after_sell-IsFailedExit s' e order_id sold.1 refused.0 p refused.1 found) in
      (p', failed_exit)
