-- ===== src/Tests.antt =====
-- Fixtures for the tests: a configuration in whole dollars, two executors and a short feed.
pub mod RiskTests
pub mod StrategyTests
pub mod EngineTests
pub mod DecodeTests
pub mod ConfigTests
pub mod IngestTests
pub mod FeedTests
pub mod LoopTests
pub mod AlertTests
pub mod LiveTests
pub mod ExecutorTests
pub mod NetTests
pub mod FileTests
use hfmcbot.Prelude.{ℕ, ◌≡◌, false, true, [], ◌∷◌, List, none, arith, if◌then◌else◌}
use hfmcbot.Prelude.Int.{ℤ, pos, leb_ℤ, ◌+ℤ◌}
use hfmcbot.Prelude.Text.{Text}
use hfmcbot.Platform.Sample.{whole_dollars, unix_seconds}
use hfmcbot.Config.{Config, Mode}
use hfmcbot.Engine.Check.{IsPaid}
use hfmcbot.Exec.{Executor, Fills, Outcome, filled, failed, rejected, TipTier}
use hfmcbot.Types.{Event, Fill, HoldMode, Launch, Launchpad, Position, PriceUpdate, Side}

-- the defaults of paper trading, on $1000
abbrev pub paper_config : Config ℤ
paper_config = record {
  mode = Mode.paper;
  equity_usd = pos 1000;
  entry_max_age_secs = 60;
  min_liquidity_usd = pos 5000;
  max_dev_hold_pct = pos 10;
  max_slippage_pct = pos 20;
  funnel_slices = 3;
  funnel_window_secs = 300;
  risk_per_trade_pct = pos 10;
  max_single_pos_usd = pos 25;
  max_open_positions = 2;
  take_profit_pct = pos 60;
  stop_loss_pct = pos 30;
  max_hold_secs = 900;
  max_exit_attempts = 1;
  conviction_min_pct = pos 200;
  trail_pct = pos 20;
  conviction_max_hold_secs = 3600;
  daily_loss_limit_pct = pos 10;
  max_trades_per_min = 5;
  kill_switch = false;
  paper_slippage_pct = pos 5;
  paper_impact_coeff = pos 1;
  paper_max_slippage_pct = pos 50;
  fee_bps = 0;
  metrics_addr = [];
  heartbeat_secs = 15;
  audit_log_path = [];
  replay_events_path = none;
  pg_dsn = [];
  rpc_url = [];
  rpc_fallback_urls = [];
  ws_url = [];
  jito_url = [];
  jito_tip_lamports = 0;
  jito_tip_entry_lamports = 0;
  jito_tip_flip_lamports = 0;
  jito_tip_conviction_lamports = 0;
  jito_tip_accounts = [];
  jupiter_url = [];
  jupiter_api_key = [];
  jupiter_qps = 1;
  simulate_only = true;
  sol_usd = pos 0;
  bundle_timeout_secs = 30;
  blockhash_ttl_secs = 10;
  reconcile_dust_tokens = pos 0;
  geyser_url = [];
  geyser_token = [];
  feed_commitment = [];
  max_trade_subs = 6;
}

abbrev pub one_unit : Side → Text → ℤ → ℕ → Text → Fill ℤ ℕ
one_unit side mint price now order_id = record {
  order_id = order_id;
  mint = mint;
  side = side;
  qty = pos 1;
  price_usd = price;
  notional_usd = price;
  fee_usd = pos 0;
  ts = now;
}

-- an executor that trades one unit at the price asked, whatever the budget
pub data OneLot : Type 0 where
  one_lot : OneLot

unfoldable pub trade_one : Side → Text → ℤ → ℕ → Text → Outcome ℤ ℕ
trade_one side mint price now order_id =
    if leb_ℤ price (pos 0) then failed rejected else filled (one_unit side mint price now order_id)

instance abbrev pub one_lot_executor : Executor OneLot ℤ ℕ
one_lot_executor = record {
  buy = λ x mint budget price liquidity now deadline id. (x, trade_one Side.buy mint price now id);
  sell = λ x mint qty price liquidity now id tier. (x, trade_one Side.sell mint price now id);
}

trade_one-IsPaid :
    (side : Side) (mint : Text) (price : ℤ) (now : ℕ) (order_id : Text) (f : Fill ℤ ℕ)
    → trade_one side mint price now order_id ≡ filled f
    → IsPaid mint f
unfolding trade_one ◌+ℤ◌
trade_one-IsPaid side mint price now order_id f h = record {
  bought = ground arith;
  paid = ground arith;
}

pub one_lot-Fills : Fills OneLot ℤ ℕ IsPaid
one_lot-Fills = record {
  of_buy = λ x mint budget price liquidity now deadline id f h.
      trade_one-IsPaid Side.buy mint price now id f h;
}

-- an executor that refuses every order
pub data Refuser : Type 0 where
  refuser : Refuser

instance abbrev pub refusing_executor : Executor Refuser ℤ ℕ
refusing_executor = record {
  buy = λ x mint budget price liquidity now deadline id. (x, failed rejected);
  sell = λ x mint qty price liquidity now id tier. (x, failed rejected);
}

abbrev pub cat : Text
cat = 99 ∷ 97 ∷ 116 ∷ []

abbrev pub cat_launch : Launch ℤ ℕ
cat_launch = record {
  mint = cat;
  launchpad = Launchpad.pump_fun;
  created_at = 1000;
  creator_hold_pct = pos 5;
  mint_renounced = false;
  is_honeypot = false;
  liquidity_usd = pos 8000;
  on_curve = true;
  price_usd = pos 7;
}

abbrev pub cat_position : Position ℤ ℕ
cat_position = record {
  mint = cat;
  launchpad = Launchpad.pump_fun;
  opened_at = 1000;
  entry_price = pos 7;
  qty = pos 3;
  cost_usd = pos 21;
  high_water = pos 9;
  last_price = pos 8;
  last_liquidity_usd = pos 8000;
  mode = HoldMode.flip;
  exit_attempts = 0;
  stuck = false;
}

abbrev pub cat_price : ℕ → ℤ → Event ℤ ℕ
cat_price at price =
    Event.price (record { mint = cat; ts = at; price_usd = price; liquidity_usd = pos 8000 })

-- bought, pumped, and sold at a profit
abbrev pub cat_feed : List (Event ℤ ℕ)
cat_feed = Event.launch cat_launch ∷ cat_price 1010 (pos 8) ∷ cat_price 1020 (pos 12) ∷ []
