-- ===== src/Engine/View.antt =====
-- What the engine shows (src/engine.rs): the open mints, and the snapshot for the metrics
-- (src/metrics.rs), with decimals where the source has their texts.
use hfmcbot.Prelude.{ℕ, suc, ◌-◌, Bool, List, [], ◌∷◌, length, if◌then◌else◌}
use hfmcbot.Prelude.Map.{keys, values}
use hfmcbot.Prelude.Sort.{sort_by}
use hfmcbot.Prelude.Text.{Text}
use hfmcbot.Platform.Decimal.{Decimal, dec, gt}
use hfmcbot.Platform.Chrono.{Chrono}
use hfmcbot.Engine.Book.{sum, pnls}
use hfmcbot.Engine.State.{Engine}
use hfmcbot.Risk.{kill_switch_on}

pub record EngineSnapshot (D : Type 0) : Type 0 where
  pub equity_usd : D
  pub deployed_usd : D
  pub open_positions : ℕ
  pub closed_trades : ℕ
  pub wins : ℕ
  pub losses : ℕ
  pub realized_pnl_usd : D
  pub day_realized_pnl_usd : D
  pub kill_switch : Bool
  pub stuck_positions : ℕ

-- `filter(test).count()`
count : {A : Type 0} → (A → Bool) → List A → ℕ
count test [] = 0
count test (a ∷ rest) = if test a then suc (count test rest) else count test rest

module _ {X D T : Type 0} where
  unfoldable pub open_mints : Engine X D T → List Text
  unfolding sort_by
  open_mints s = sort_by (λ m. m) (keys s.positions)

module _ {X D T : Type 0} ⦃d : Decimal D⦄ ⦃c : Chrono T⦄ where
  unfoldable pub snapshot : Engine X D T → EngineSnapshot D
  unfolding count sum kill_switch_on
  snapshot s =
      let won = count (λ t. gt t.pnl_usd (dec 0)) s.closed in
      record {
        equity_usd = s.equity;
        deployed_usd = s.deployed_usd;
        open_positions = length s.positions;
        closed_trades = length s.closed;
        wins = won;
        losses = length s.closed - won;
        realized_pnl_usd = sum (pnls s.closed);
        day_realized_pnl_usd = s.risk.day_realized_pnl;
        kill_switch = kill_switch_on s.risk;
        stuck_positions = count (λ p. p.stuck) (values s.positions);
      }
