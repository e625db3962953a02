-- ===== src/Engine/Book.antt =====
-- The book as a whole (src/engine.rs): its self-check, the snapshot and the restore.
use hfmcbot.Prelude.{
  Bool, false, ◌||◌, not, List, [], ◌∷◌, map, Option, none, some, length, if◌then◌else◌,
}
use hfmcbot.Prelude.Map.{HashMap, insert, values}
use hfmcbot.Prelude.Sort.{sort_by}
use hfmcbot.Platform.Decimal.{Decimal, ◌⊕◌, ◌⊖◌, dec, le, eqb}
use hfmcbot.Platform.Chrono.{Chrono}
use hfmcbot.Config.{Config}
use hfmcbot.Engine.State
use hfmcbot.Engine.State.{Engine}
use hfmcbot.Persist.{AuditRecord, EngineState, state_version}
use hfmcbot.Risk.{snapshot_state, restore_state, set_open_positions}
use hfmcbot.Types.{Position, ClosedTrade}

-- The four messages of `check_invariants`.
pub data Violation : Type 0 where
  equity_off deployed_off bad_position bad_trade : Violation

-- `Result<Engine, String>`
pub data Restored (X D T : Type 0) : Type 0 where
  running : Engine X D T → Restored X D T
  refused : Violation → Restored X D T

module _ {D T : Type 0} where
  -- `collect` into the map: a later position replaces an earlier one of the same mint
  unfoldable pub collect_from :
      HashMap (Position D T) → List (Position D T) → HashMap (Position D T)
  collect_from m [] = m
  collect_from m (p ∷ ps) = collect_from (insert p.mint p m) ps

module _ {D : Type 0} ⦃d : Decimal D⦄ where
  -- `iter().sum()`
  unfoldable pub sum_from : D → List D → D
  sum_from acc [] = acc
  sum_from acc (x ∷ xs) = sum_from (acc ⊕ x) xs

  unfoldable pub sum : List D → D
  unfolding sum_from
  sum = sum_from (dec 0)

module _ {D T : Type 0} ⦃d : Decimal D⦄ where
  unfoldable pub any_bad_position : List (Position D T) → Bool
  any_bad_position [] = false
  any_bad_position (p ∷ ps) = le p.qty (dec 0) || le p.cost_usd (dec 0) || any_bad_position ps

  unfoldable pub any_bad_trade : List (ClosedTrade D T) → Bool
  any_bad_trade [] = false
  any_bad_trade (t ∷ ts) = not (eqb t.pnl_usd (t.proceeds_usd ⊖ t.cost_usd)) || any_bad_trade ts

  abbrev pub pnls : List (ClosedTrade D T) → List D
  pnls = map (λ t. t.pnl_usd)

  abbrev pub costs : HashMap (Position D T) → List D
  costs m = map (λ p. p.cost_usd) (values m)

-- the `?` on the result of `check_invariants`
unfoldable pub checked : {X D T : Type 0} → Engine X D T → Option Violation → Restored X D T
checked s none = running s
checked s (some v) = refused v

module _ {X D T : Type 0} ⦃d : Decimal D⦄ where
  -- `none` is `Ok(())`
  unfoldable pub check_invariants : Engine X D T → Option Violation
  unfolding sum any_bad_position any_bad_trade
  check_invariants s =
      if not (eqb s.equity (s.cfg.equity_usd ⊕ sum (pnls s.closed)))
      then some Violation.equity_off
      else if not (eqb s.deployed_usd (sum (costs s.positions)))
      then some Violation.deployed_off
      else if any_bad_position (values s.positions)
      then some Violation.bad_position
      else if any_bad_trade s.closed
      then some Violation.bad_trade
      else none

module _ {X D T : Type 0} ⦃d : Decimal D⦄ ⦃c : Chrono T⦄ where
  -- the method `state`
  unfoldable pub state : Engine X D T → EngineState D T
  unfolding snapshot_state sort_by
  state s = record {
    version = state_version;
    equity_usd = s.equity;
    deployed_usd = s.deployed_usd;
    positions = sort_by (λ p. p.mint) (values s.positions);
    closed = s.closed;
    order_seq = s.order_seq;
    risk = snapshot_state s.risk;
  }

  -- the engine that `restore` builds before its check
  unfoldable pub resumed :
      Config D → X → List (AuditRecord D T) → T → EngineState D T → Engine X D T
  unfolding State.new collect_from restore_state
  resumed cfg exec audit now snap =
      let fresh = State.new cfg exec audit now in
      let positions' = collect_from [] snap.positions in
      record fresh {
        equity = snap.equity_usd;
        deployed_usd = snap.deployed_usd;
        positions = positions';
        closed = snap.closed;
        order_seq = snap.order_seq;
        risk = set_open_positions (restore_state fresh.risk snap.risk) (length positions');
      }

  unfoldable pub restore :
      Config D → X → List (AuditRecord D T) → T → EngineState D T → Restored X D T
  unfolding resumed check_invariants checked
  restore cfg exec audit now snap =
      let s = resumed cfg exec audit now snap in checked s (check_invariants s)
