-- ===== src/Engine/State.antt =====
-- The state of the engine (src/engine.rs), and its audit and alert calls.
use hfmcbot.Prelude.{ℕ, suc, Bool, true, false, List, [], ◌∷◌, ◌++◌, if◌then◌else◌}
use hfmcbot.Prelude.Map.{HashMap}
use hfmcbot.Prelude.Text.{Text, show_u64}
use hfmcbot.Platform.Decimal.{Decimal, dec}
use hfmcbot.Platform.Chrono.{Chrono}
use hfmcbot.Config.{Config}
use hfmcbot.Exec.{ExecError, transport, TipTier}
use hfmcbot.Persist.{AuditRecord, Action, Detail, fill_record}
use hfmcbot.Risk
use hfmcbot.Risk.{RiskEngine, BlockReason}
use hfmcbot.Types.{Position, HoldMode, Side, Fill, ExitReason, ClosedTrade}

-- The alerts that the engine raises, each with its kind of `AlertKind`.
pub data Alert (D : Type 0) : Type 0 where
  daily_loss_trip : D → Alert D
  position_stuck : Text → ℕ → D → HoldMode → Alert D
  buy_unknown : Text → Text → Alert D
  exit_unknown : Text → ℕ → Alert D

-- `armed` says whether there is an alerter, and `alerts` holds the calls of its `fire`.
pub record Engine (X D T : Type 0) : Type 0 where
  pub cfg : Config D
  pub risk : RiskEngine D T
  pub exec : X
  pub audit : List (AuditRecord D T)
  pub equity : D
  pub deployed_usd : D
  pub positions : HashMap (Position D T)
  pub closed : List (ClosedTrade D T)
  pub order_seq : ℕ
  pub armed : Bool
  pub alerts : List (Alert D)

-- What is read of a position before its exit: the arguments of `close_position`.
pub record Exit (D T : Type 0) : Type 0 where
  pub mint : Text
  pub qty : D
  pub cost : D
  pub mode : HoldMode
  pub entry_price : D
  pub ref_price : D
  pub liquidity_usd : D
  pub now : T
  pub reason : ExitReason

unfoldable pub tier_of : HoldMode → TipTier
tier_of HoldMode.flip = TipTier.flip_exit
tier_of HoldMode.conviction = TipTier.conviction_exit

unfoldable pub is_transport : ExecError → Bool
is_transport transport = true
is_transport _ = false

module _ {X D T : Type 0} ⦃d : Decimal D⦄ ⦃c : Chrono T⦄ where
  -- `Engine::new` at the instant `now` of the clock, with no alerter
  unfoldable pub new : Config D → X → List (AuditRecord D T) → T → Engine X D T
  unfolding Risk.new
  new cfg exec audit now = record {
    cfg = cfg;
    risk = Risk.new cfg now;
    exec = exec;
    audit = audit;
    equity = cfg.equity_usd;
    deployed_usd = dec 0;
    positions = [];
    closed = [];
    order_seq = 0;
    armed = false;
    alerts = [];
  }

  unfoldable pub with_alerter : Engine X D T → Engine X D T
  with_alerter s = record s { armed = true }

module _ {X D T : Type 0} where
  unfoldable pub alert : Engine X D T → Alert D → Engine X D T
  alert s a = record s { alerts = if s.armed then s.alerts ++ a ∷ [] else s.alerts }

  unfoldable pub append_audit : Engine X D T → List (AuditRecord D T) → Engine X D T
  append_audit s records = record s { audit = s.audit ++ records }

  unfoldable pub audit_decision : Engine X D T → T → Text → Action → Detail D → Engine X D T
  unfolding append_audit
  audit_decision s now mint action detail =
      append_audit s (AuditRecord.decision now mint action detail ∷ [])

  unfoldable pub audit_blocked : Engine X D T → T → Text → BlockReason D → Engine X D T
  unfolding audit_decision
  audit_blocked s now mint block =
      audit_decision s now mint Action.entry_blocked (Detail.by_block block)

  -- `next_order_id`: the engine with the next number, and the id "mint#number"
  unfoldable pub next_order_id : Engine X D T → Text → Engine X D T × Text
  next_order_id s mint =
      (record s { order_seq = suc s.order_seq }, mint ++ 35 ∷ show_u64 (suc s.order_seq))

  unfoldable pub log_order_and_fill :
      Engine X D T → T → Text → Text → Side → D → D → Fill D T → Engine X D T
  unfolding append_audit fill_record
  log_order_and_fill s now order_id mint side budget_or_qty ref_price f =
      append_audit s
        (AuditRecord.order now order_id mint side budget_or_qty ref_price ∷ fill_record f ∷ [])
