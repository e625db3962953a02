-- ===== src/Types.antt =====
-- The domain types (src/types.rs), over any `Decimal` D and `DateTime<Utc>` T.
use hfmcbot.Prelude.{ℕ, Bool, if◌then◌else◌}
use hfmcbot.Prelude.Text.{Text}
use hfmcbot.Platform.Decimal.{Decimal, ◌⊖◌, ◌⊗◌, ◌⊘◌, dec, eqb}

pub data Launchpad : Type 0 where
  pump_fun stonkfun meteora_virtual_curve : Launchpad

pub record Launch (D T : Type 0) : Type 0 where
  pub mint : Text
  pub launchpad : Launchpad
  pub created_at : T
  pub creator_hold_pct : D
  pub mint_renounced : Bool
  pub is_honeypot : Bool
  pub liquidity_usd : D
  pub on_curve : Bool
  pub price_usd : D

pub record PriceUpdate (D T : Type 0) : Type 0 where
  pub mint : Text
  pub ts : T
  pub price_usd : D
  pub liquidity_usd : D

pub data Event (D T : Type 0) : Type 0 where
  launch : Launch D T → Event D T
  price : PriceUpdate D T → Event D T

-- `Event::ts`
unfoldable pub event_ts : {D T : Type 0} → Event D T → T
event_ts (launch l) = l.created_at
event_ts (price p) = p.ts

pub data HoldMode : Type 0 where
  flip conviction : HoldMode

pub record Position (D T : Type 0) : Type 0 where
  pub mint : Text
  pub launchpad : Launchpad
  pub opened_at : T
  pub entry_price : D
  pub qty : D
  pub cost_usd : D
  pub high_water : D
  pub last_price : D
  pub last_liquidity_usd : D
  pub mode : HoldMode
  pub exit_attempts : ℕ
  pub stuck : Bool

unfoldable pub unrealized_pnl_pct : {D T : Type 0} ⦃d : Decimal D⦄ → Position D T → D → D
unrealized_pnl_pct pos current =
    if eqb pos.entry_price (dec 0)
    then dec 0
    else (current ⊖ pos.entry_price) ⊘ pos.entry_price ⊗ dec 100

pub data Side : Type 0 where
  buy sell : Side

pub record Fill (D T : Type 0) : Type 0 where
  pub order_id : Text
  pub mint : Text
  pub side : Side
  pub qty : D
  pub price_usd : D
  pub notional_usd : D
  pub fee_usd : D
  pub ts : T

-- The strings that the source gives as the reason of an exit, by the names that they spell.
pub data ExitReason : Type 0 where
  take_profit stop_loss max_hold trail_stop conviction_max_hold : ExitReason

pub record ClosedTrade (D T : Type 0) : Type 0 where
  pub mint : Text
  pub opened_at : T
  pub closed_at : T
  pub entry_price : D
  pub exit_price : D
  pub qty : D
  pub cost_usd : D
  pub proceeds_usd : D
  pub pnl_usd : D
  pub pnl_pct : D
  pub exit_reason : ExitReason
  pub mode : HoldMode
