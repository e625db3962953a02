-- ===== src/Config.antt =====
-- The configuration (src/config.rs): the record, and the check of it at boot.
pub mod Validate
pub mod Env
use hfmcbot.Prelude.{ℕ, Bool, List, Option}
use hfmcbot.Prelude.Text.{Text}

pub data Mode : Type 0 where
  paper live : Mode

pub record Config (D : Type 0) : Type 0 where
  pub mode : Mode
  pub equity_usd : D
  pub entry_max_age_secs : ℕ
  pub min_liquidity_usd : D
  pub max_dev_hold_pct : D
  pub max_slippage_pct : D
  pub funnel_slices : ℕ
  pub funnel_window_secs : ℕ
  pub risk_per_trade_pct : D
  pub max_single_pos_usd : D
  pub max_open_positions : ℕ
  pub take_profit_pct : D
  pub stop_loss_pct : D
  pub max_hold_secs : ℕ
  pub max_exit_attempts : ℕ
  pub conviction_min_pct : D
  pub trail_pct : D
  pub conviction_max_hold_secs : ℕ
  pub daily_loss_limit_pct : D
  pub max_trades_per_min : ℕ
  pub kill_switch : Bool
  pub paper_slippage_pct : D
  pub paper_impact_coeff : D
  pub paper_max_slippage_pct : D
  pub fee_bps : ℕ
  pub metrics_addr : Text
  pub heartbeat_secs : ℕ
  pub audit_log_path : Text
  pub replay_events_path : Option Text
  pub pg_dsn : Text
  pub rpc_url : Text
  pub rpc_fallback_urls : List Text
  pub ws_url : Text
  pub jito_url : Text
  pub jito_tip_lamports : ℕ
  pub jito_tip_entry_lamports : ℕ
  pub jito_tip_flip_lamports : ℕ
  pub jito_tip_conviction_lamports : ℕ
  pub jito_tip_accounts : List Text
  pub jupiter_url : Text
  pub jupiter_api_key : Text
  pub jupiter_qps : ℕ
  pub simulate_only : Bool
  pub sol_usd : D
  pub bundle_timeout_secs : ℕ
  pub blockhash_ttl_secs : ℕ
  pub reconcile_dust_tokens : D
  pub geyser_url : Text
  pub geyser_token : Text
  pub feed_commitment : Text
  pub max_trade_subs : ℕ
