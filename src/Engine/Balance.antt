-- ===== src/Engine/Balance.antt =====
-- The money invariant of the engine, over src/engine.rs.
pub mod Entry
pub mod Exit
pub mod Run
use hfmcbot.Prelude.{ℕ, ◌≡◌, List, All, length}
use hfmcbot.Prelude.Map.{HashMap, HasDistinctKeys}
use hfmcbot.Prelude.Map.Laws.{AllEntries}
use hfmcbot.Prelude.Text.{Text}
use hfmcbot.Platform.Decimal.{Decimal, ◌⊕◌, ◌⊖◌}
use hfmcbot.Engine.Book.{pnls}
use hfmcbot.Engine.State.{Engine}
use hfmcbot.Engine.Sums.{total, weigh}
use hfmcbot.Types.{Position, ClosedTrade}

module _ {D T : Type 0} where
  abbrev pub cost_of : Position D T → D
  cost_of p = p.cost_usd

  abbrev pub IsKeyed : Text → Position D T → Type 0
  IsKeyed k p = p.mint ≡ k

-- What the invariant reads of an engine. Audit, alerts, order numbers and executor are not in it.
pub record Ledger (D T : Type 0) : Type 0 where
  pub start : D
  pub equity : D
  pub deployed_usd : D
  pub positions : HashMap (Position D T)
  pub closed : List (ClosedTrade D T)
  pub open_positions : ℕ

abbrev pub ledger : {X D T : Type 0} → Engine X D T → Ledger D T
ledger s = record {
  start = s.cfg.equity_usd;
  equity = s.equity;
  deployed_usd = s.deployed_usd;
  positions = s.positions;
  closed = s.closed;
  open_positions = s.risk.open_positions;
}

module _ {D T : Type 0} ⦃d : Decimal D⦄ where
  abbrev pub IsBooked : ClosedTrade D T → Type 0
  IsBooked t = t.pnl_usd ≡ t.proceeds_usd ⊖ t.cost_usd

  -- Equity is the start plus what was realised, deployed capital is the cost of the open
  -- positions, each trade is booked, and the map holds each position once, under its own mint.
  pub record IsBalanced (l : Ledger D T) : Type 0 where
    pub equity_total : l.equity ≡ l.start ⊕ total (pnls l.closed)
    pub deployed_total : l.deployed_usd ≡ weigh cost_of l.positions
    pub booked : All IsBooked l.closed
    pub keyed : AllEntries IsKeyed l.positions
    pub distinct : HasDistinctKeys l.positions
    pub counted : l.open_positions ≡ length l.positions
