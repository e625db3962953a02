-- ===== src/Config/Validate.antt =====
-- The check of the configuration at boot (src/config.rs, `validate`).
pub mod Chain
pub mod Laws
use hfmcbot.Prelude.{
  ℕ, suc, Bool, true, false, ◌&&◌, ◌||◌, not, List, [], ◌∷◌, Option, none, some, ltb, leb, ◌==◌,
  if◌then◌else◌, ◌++◌,
}
use hfmcbot.Prelude.Strings.{is_blank}
use hfmcbot.Prelude.Text.{Text, bytes, text_eq}
use hfmcbot.Platform.Decimal.{Decimal, dec, le, lt}
use hfmcbot.Config.{Config, Mode}

-- The messages of `validate`, by what they name.
pub data ConfigError : Type 0 where
  bad_equity_usd bad_min_liquidity_usd bad_max_single_pos_usd bad_take_profit_pct : ConfigError
  bad_stop_loss_pct bad_trail_pct bad_risk_per_trade_pct bad_paper_slippage_pct : ConfigError
  bad_paper_impact_coeff bad_paper_max_slippage_pct paper_max_slippage_over_100 : ConfigError
  bad_heartbeat_secs bad_metrics_addr bad_funnel_slices bad_max_open_positions : ConfigError
  bad_max_trades_per_min bad_max_exit_attempts bad_jupiter_qps bad_bundle_timeout_secs : ConfigError
  bad_blockhash_ttl_secs bad_reconcile_dust_tokens bad_max_trade_subs bad_sol_usd : ConfigError
  bad_jupiter_url bad_rpc_url bad_rpc_fallback_urls bad_feed_commitment live_needs_sol_usd :
      ConfigError
  bad_jito_tip_account : ℕ → ConfigError

unfoldable pub any_blank : List Text → Bool
any_blank [] = false
any_blank (s ∷ ss) = is_blank s || any_blank ss

-- a chain of early returns: the message of the first test that is false
unfoldable pub first_error : List (Bool × ConfigError) → Option ConfigError
first_error [] = none
first_error ((ok, e) ∷ tests) = if ok then first_error tests else some e

-- the tests of the tip accounts from number `i` on, each by whether it parses as a public key
unfoldable pub account_tests : (Text → Bool) → ℕ → List Text → List (Bool × ConfigError)
account_tests is_pubkey i [] = []
account_tests is_pubkey i (a ∷ rest) =
    (is_pubkey a, bad_jito_tip_account i) ∷ account_tests is_pubkey (suc i) rest

unfoldable pub is_commitment : Text → Bool
is_commitment s =
    text_eq s (bytes "processed") || text_eq s (bytes "confirmed") || text_eq s (bytes "finalized")

module _ {D : Type 0} ⦃d : Decimal D⦄ where
  -- the tests up to the addresses, in the order of the source
  unfoldable pub number_tests : Config D → List (Bool × ConfigError)
  number_tests cfg =
      (lt (dec 0) cfg.equity_usd, bad_equity_usd)
      ∷ (lt (dec 0) cfg.min_liquidity_usd, bad_min_liquidity_usd)
      ∷ (lt (dec 0) cfg.max_single_pos_usd, bad_max_single_pos_usd)
      ∷ (lt (dec 0) cfg.take_profit_pct, bad_take_profit_pct)
      ∷ (lt (dec 0) cfg.stop_loss_pct, bad_stop_loss_pct)
      ∷ (lt (dec 0) cfg.trail_pct, bad_trail_pct)
      ∷ (lt (dec 0) cfg.risk_per_trade_pct, bad_risk_per_trade_pct)
      ∷ (le (dec 0) cfg.paper_slippage_pct, bad_paper_slippage_pct)
      ∷ (le (dec 0) cfg.paper_impact_coeff, bad_paper_impact_coeff)
      ∷ (lt (dec 0) cfg.paper_max_slippage_pct, bad_paper_max_slippage_pct)
      ∷ (le cfg.paper_max_slippage_pct (dec 100), paper_max_slippage_over_100)
      ∷ (ltb 0 cfg.heartbeat_secs, bad_heartbeat_secs)
      ∷ (not (is_blank cfg.metrics_addr), bad_metrics_addr)
      ∷ (ltb 0 cfg.funnel_slices, bad_funnel_slices)
      ∷ (ltb 0 cfg.max_open_positions, bad_max_open_positions)
      ∷ (ltb 0 cfg.max_trades_per_min, bad_max_trades_per_min)
      ∷ (ltb 0 cfg.max_exit_attempts, bad_max_exit_attempts)
      ∷ (ltb 0 cfg.jupiter_qps, bad_jupiter_qps)
      ∷ (ltb 0 cfg.bundle_timeout_secs, bad_bundle_timeout_secs)
      ∷ (ltb 0 cfg.blockhash_ttl_secs, bad_blockhash_ttl_secs)
      ∷ (le (dec 0) cfg.reconcile_dust_tokens, bad_reconcile_dust_tokens)
      ∷ (ltb 0 cfg.max_trade_subs, bad_max_trade_subs)
      ∷ (le (dec 0) cfg.sol_usd, bad_sol_usd)
      ∷ []

  unfoldable pub mode_is_funded : Config D → Bool
  mode_is_funded cfg = elim cfg.mode [ Mode.live ↦ lt (dec 0) cfg.sol_usd | Mode.paper ↦ true ]

  unfoldable pub address_tests : Config D → List (Bool × ConfigError)
  unfolding any_blank
  address_tests cfg =
      (not (is_blank cfg.jupiter_url), bad_jupiter_url)
      ∷ (not (is_blank cfg.rpc_url), bad_rpc_url)
      ∷ (not (any_blank cfg.rpc_fallback_urls), bad_rpc_fallback_urls)
      ∷ []

  unfoldable pub last_tests : Config D → List (Bool × ConfigError)
  unfolding is_commitment mode_is_funded
  last_tests cfg =
      (is_commitment cfg.feed_commitment, bad_feed_commitment)
      ∷ (mode_is_funded cfg, live_needs_sol_usd)
      ∷ []

  -- `none` is `Ok(())`; `is_pubkey` is whether `Pubkey::from_str` succeeds
  unfoldable pub validate : (Text → Bool) → Config D → Option ConfigError
  unfolding first_error number_tests address_tests account_tests last_tests
  validate is_pubkey cfg = first_error (
      number_tests cfg
      ++ address_tests cfg
      ++ account_tests is_pubkey 0 cfg.jito_tip_accounts
      ++ last_tests cfg)
