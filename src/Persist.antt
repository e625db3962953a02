-- ===== src/Persist.antt =====
-- The audit trail and the snapshot (src/persist.rs): their records, of which a trail is the list. The
-- files that hold them are in Files.
pub mod Files
pub mod Saving
use hfmcbot.Prelude.{ℕ, List, ◌==◌, Option, none, some, if◌then◌else◌}
use hfmcbot.Prelude.Text.{Text}
use hfmcbot.Exec.{ExecError}
use hfmcbot.Risk.{BlockReason, RiskState}
use hfmcbot.Strategy.{RejectReason}
use hfmcbot.Types.{Launchpad, Side, Fill, ClosedTrade, Position}

-- The strings that the engine writes as the action of a decision, by the names that they spell.
pub data Action : Type 0 where
  entry entry_rejected entry_accepted entry_blocked funnel_window_expired : Action
  funnel_aborted order_failed position_stuck exit_failed : Action

-- The details of a decision, as the values that the source formats into the string.
pub data Detail (D : Type 0) : Type 0 where
  already_holding no_free_capital : Detail D
  by_gate : RejectReason D → Detail D
  by_block : BlockReason D → Detail D
  funnel_budget : D → Launchpad → Detail D
  slice_not_sent slices_unfilled : ℕ → ℕ → Detail D
  by_error : ExecError → Detail D
  treated_as_unsellable : ℕ → ℕ → D → Detail D
  attempt : ℕ → ExecError → Detail D

pub data AuditRecord (D T : Type 0) : Type 0 where
  decision : T → Text → Action → Detail D → AuditRecord D T
  order : T → Text → Text → Side → D → D → AuditRecord D T
  fill : T → Text → Text → Side → D → D → D → D → AuditRecord D T
  trade_closed : ClosedTrade D T → AuditRecord D T
  -- the reason is always "daily loss limit tripped"
  breaker : T → AuditRecord D T

unfoldable pub fill_record : {D T : Type 0} → Fill D T → AuditRecord D T
fill_record f =
    AuditRecord.fill f.ts f.order_id f.mint f.side f.qty f.price_usd f.notional_usd f.fee_usd

pub record EngineState (D T : Type 0) : Type 0 where
  pub version : ℕ
  pub equity_usd : D
  pub deployed_usd : D
  pub positions : List (Position D T)
  pub closed : List (ClosedTrade D T)
  pub order_seq : ℕ
  pub risk : RiskState D T

abbrev pub state_version : ℕ
state_version = 1

-- `load_state` behind the parse of the document: an unknown version is refused
unfoldable pub check_version : {D T : Type 0} → EngineState D T → Option (EngineState D T)
check_version snap = if snap.version == state_version then some snap else none
