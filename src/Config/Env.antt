-- ===== src/Config/Env.antt =====
-- The configuration from the environment (src/config.rs, `from_env`): the variables with their
-- defaults, and the check of what they say.
use hfmcbot.Prelude.{
  ℕ, ◌*◌, ◌%◌, ◌^◌, Bool, true, false, List, [], ◌∷◌, map, Option, none, some, ◌||◌, if◌then◌else◌,
}
use hfmcbot.Prelude.Strings.{is_blank, trim, to_lowercase, parse_u64, split}
use hfmcbot.Prelude.Text.{Text, bytes, text_eq}
use hfmcbot.Config.{Config, Mode}
use hfmcbot.Config.Validate.{ConfigError, validate}
use hfmcbot.Platform.Decimal.{Decimal, dec, ◌⊘◌}

-- The message of a boot that stops: the mode, a variable by its name, or the check.
pub data BootError : Type 0 where
  bad_mode : BootError
  bad_value : Text → BootError
  bad_config : ConfigError → BootError

pub data Loaded (A : Type 0) : Type 0 where
  loaded : A → Loaded A
  stopped : BootError → Loaded A

-- the `?` of the source
infixl 5 ◌>>=◌
abbrev pub ◌>>=◌ : {A B : Type 0} → Loaded A → (A → Loaded B) → Loaded B
loaded a >>= f = f a
stopped e >>= f = stopped e

-- `env::var`, none also where the value is no text
abbrev pub Env : Type 0
Env = Text → Option Text

or_bad : {A : Type 0} → Text → Option A → Loaded A
or_bad key none = stopped (bad_value key)
or_bad key (some a) = loaded a

-- a blank value is an unset one
unfoldable pub non_blank : Option Text → Option Text
non_blank none = none
non_blank (some raw) = if is_blank raw then none else some raw

-- the value of a variable that is set, read after its `trim`
read_or : {A : Type 0} → (Text → Option A) → Text → A → Option Text → Loaded A
unfolding or_bad trim
read_or parse key default none = loaded default
read_or parse key default (some raw) = or_bad key (parse (trim raw))

unfoldable pub env_str : Env → Text → Text → Text
env_str env key default = elim (env key) [ some v ↦ v | none ↦ default ]

unfoldable pub env_non_empty : Env → Text → Option Text
unfolding non_blank
env_non_empty env key = non_blank (env key)

unfoldable pub env_u64 : Env → Text → ℕ → Loaded ℕ
unfolding non_blank read_or parse_u64
env_u64 env key default = read_or parse_u64 key default (non_blank (env key))

bool_of : Text → Option Bool
unfolding text_eq
bool_of s =
    if text_eq s (bytes "1")
      || text_eq s (bytes "true")
      || text_eq s (bytes "yes")
      || text_eq s (bytes "on")
    then some true
    else if text_eq s (bytes "0")
        || text_eq s (bytes "false")
        || text_eq s (bytes "no")
        || text_eq s (bytes "off")
    then some false
    else none

unfoldable pub env_bool : Env → Text → Bool → Loaded Bool
unfolding non_blank read_or bool_of to_lowercase
env_bool env key default = read_or (λ s. bool_of (to_lowercase s)) key default (non_blank (env key))

no_empties : List Text → List Text
no_empties [] = []
no_empties ([] ∷ texts) = no_empties texts
no_empties ((c ∷ s) ∷ texts) = (c ∷ s) ∷ no_empties texts

-- the parts between commas, trimmed, without the empty ones
unfoldable pub env_csv : Env → Text → List Text
unfolding no_empties trim split
env_csv env key = elim (env key) [ some raw ↦ no_empties (map trim (split 44 raw)) | none ↦ [] ]

mode_of : Text → Loaded Mode
unfolding text_eq
mode_of s =
    if text_eq s (bytes "paper")
    then loaded Mode.paper
    else if text_eq s (bytes "live")
    then loaded Mode.live
    else stopped bad_mode

module _ {D : Type 0} ⦃d : Decimal D⦄ where
  -- with the parser of a `Decimal`
  unfoldable pub env_dec : (Text → Option D) → Env → Text → D → Loaded D
  unfolding non_blank read_or
  env_dec parse_decimal env key default = read_or parse_decimal key default (non_blank (env key))

  checked : Option ConfigError → Config D → Loaded (Config D)
  checked none cfg = loaded cfg
  checked (some e) cfg = stopped (bad_config e)

  -- the variables, before the check
  unfoldable pub read_env : (Text → Option D) → Env → Loaded (Config D)
  unfolding env_str env_non_empty env_u64 env_bool env_csv env_dec mode_of to_lowercase
  read_env parse_decimal env = do
    mode ← mode_of (to_lowercase (env_str env (bytes "HFM_MODE") (bytes "paper")))
    jito_tip_lamports ← env_u64 env (bytes "HFM_JITO_TIP_LAMPORTS") 1000000
    equity_usd ← env_dec parse_decimal env (bytes "HFM_EQUITY_USD") (dec 50000)
    entry_max_age_secs ← env_u64 env (bytes "HFM_ENTRY_MAX_AGE_SECS") 600
    min_liquidity_usd ← env_dec parse_decimal env (bytes "HFM_MIN_LIQUIDITY_USD") (dec 50000)
    max_dev_hold_pct ← env_dec parse_decimal env (bytes "HFM_MAX_DEV_HOLD_PCT") (dec 10)
    max_slippage_pct ← env_dec parse_decimal env (bytes "HFM_MAX_SLIPPAGE_PCT") (dec 10)
    funnel_slices ← env_u64 env (bytes "HFM_FUNNEL_SLICES") 3
    funnel_window_secs ← env_u64 env (bytes "HFM_FUNNEL_WINDOW_SECS") 5
    risk_per_trade_pct ←
        env_dec parse_decimal env (bytes "HFM_RISK_PER_TRADE_PCT") (dec 25 ⊘ dec 10)
    max_single_pos_usd ← env_dec parse_decimal env (bytes "HFM_MAX_SINGLE_POS_USD") (dec 5000)
    max_open_positions ← env_u64 env (bytes "HFM_MAX_OPEN_POSITIONS") 12
    take_profit_pct ← env_dec parse_decimal env (bytes "HFM_TAKE_PROFIT_PCT") (dec 120)
    stop_loss_pct ← env_dec parse_decimal env (bytes "HFM_STOP_LOSS_PCT") (dec 30)
    max_hold_secs ← env_u64 env (bytes "HFM_MAX_HOLD_SECS") 21600
    max_exit_attempts ← env_u64 env (bytes "HFM_MAX_EXIT_ATTEMPTS") 5
    conviction_min_pct ← env_dec parse_decimal env (bytes "HFM_CONVICTION_MIN_PCT") (dec 300)
    trail_pct ← env_dec parse_decimal env (bytes "HFM_TRAIL_PCT") (dec 25)
    conviction_max_hold_days ← env_u64 env (bytes "HFM_CONVICTION_MAX_HOLD_DAYS") 15
    daily_loss_limit_pct ← env_dec parse_decimal env (bytes "HFM_DAILY_LOSS_LIMIT_PCT") (dec 10)
    max_trades_per_min ← env_u64 env (bytes "HFM_MAX_TRADES_PER_MIN") 6
    kill_switch ← env_bool env (bytes "HFM_KILL_SWITCH") false
    paper_slippage_pct ← env_dec parse_decimal env (bytes "HFM_PAPER_SLIPPAGE_PCT") (dec 2)
    paper_impact_coeff ← env_dec parse_decimal env (bytes "HFM_PAPER_IMPACT_COEFF") (dec 1)
    paper_max_slippage_pct ← env_dec parse_decimal env (bytes "HFM_PAPER_MAX_SLIPPAGE_PCT") (dec 50)
    fee_bps ← env_u64 env (bytes "HFM_FEE_BPS") 100
    heartbeat_secs ← env_u64 env (bytes "HFM_HEARTBEAT_SECS") 60
    jito_tip_entry_lamports ← env_u64 env (bytes "HFM_JITO_TIP_ENTRY_LAMPORTS") jito_tip_lamports
    jito_tip_flip_lamports ← env_u64 env (bytes "HFM_JITO_TIP_FLIP_LAMPORTS") jito_tip_lamports
    jito_tip_conviction_lamports ←
        env_u64 env (bytes "HFM_JITO_TIP_CONVICTION_LAMPORTS") jito_tip_lamports
    jupiter_qps ← env_u64 env (bytes "HFM_JUPITER_QPS") 1
    simulate_only ← env_bool env (bytes "HFM_SIMULATE_ONLY") true
    sol_usd ← env_dec parse_decimal env (bytes "HFM_SOL_USD") (dec 0)
    bundle_timeout_secs ← env_u64 env (bytes "HFM_BUNDLE_TIMEOUT_SECS") 60
    blockhash_ttl_secs ← env_u64 env (bytes "HFM_BLOCKHASH_TTL_SECS") 30
    reconcile_dust_tokens ←
        env_dec parse_decimal env (bytes "HFM_RECONCILE_DUST_TOKENS") (dec 1 ⊘ dec 1000000)
    max_trade_subs ← env_u64 env (bytes "HFM_MAX_TRADE_SUBS") 25
    loaded (record {
      mode = mode;
      equity_usd = equity_usd;
      entry_max_age_secs = entry_max_age_secs;
      min_liquidity_usd = min_liquidity_usd;
      max_dev_hold_pct = max_dev_hold_pct;
      max_slippage_pct = max_slippage_pct;
      funnel_slices = funnel_slices;
      funnel_window_secs = funnel_window_secs;
      risk_per_trade_pct = risk_per_trade_pct;
      max_single_pos_usd = max_single_pos_usd;
      max_open_positions = max_open_positions;
      take_profit_pct = take_profit_pct;
      stop_loss_pct = stop_loss_pct;
      max_hold_secs = max_hold_secs;
      max_exit_attempts = max_exit_attempts % 2 ^ 32;
      conviction_min_pct = conviction_min_pct;
      trail_pct = trail_pct;
      conviction_max_hold_secs = conviction_max_hold_days * 86400 % 2 ^ 64;
      daily_loss_limit_pct = daily_loss_limit_pct;
      max_trades_per_min = max_trades_per_min % 2 ^ 32;
      kill_switch = kill_switch;
      paper_slippage_pct = paper_slippage_pct;
      paper_impact_coeff = paper_impact_coeff;
      paper_max_slippage_pct = paper_max_slippage_pct;
      fee_bps = fee_bps;
      metrics_addr = env_str env (bytes "HFM_METRICS_ADDR") (bytes "127.0.0.1:9898");
      heartbeat_secs = heartbeat_secs;
      audit_log_path = env_str env (bytes "HFM_AUDIT_LOG_PATH") (bytes "data/audit.jsonl");
      replay_events_path = env_non_empty env (bytes "HFM_REPLAY_EVENTS_PATH");
      pg_dsn = env_str env (bytes "HFM_PG_DSN") (bytes "");
      rpc_url = env_str env (bytes "HFM_RPC_URL") (bytes "https://api.mainnet-beta.solana.com");
      rpc_fallback_urls = env_csv env (bytes "HFM_RPC_FALLBACK_URLS");
      ws_url = env_str env (bytes "HFM_WS_URL") (bytes "wss://api.mainnet-beta.solana.com");
      jito_url = env_str env (bytes "HFM_JITO_URL") (bytes "https://mainnet.block-engine.jito.wtf");
      jito_tip_lamports = jito_tip_lamports;
      jito_tip_entry_lamports = jito_tip_entry_lamports;
      jito_tip_flip_lamports = jito_tip_flip_lamports;
      jito_tip_conviction_lamports = jito_tip_conviction_lamports;
      jito_tip_accounts = env_csv env (bytes "HFM_JITO_TIP_ACCOUNT");
      jupiter_url = env_str env (bytes "HFM_JUPITER_URL") (bytes "https://api.jup.ag/swap/v1");
      jupiter_api_key = env_str env (bytes "HFM_JUPITER_API_KEY") (bytes "");
      jupiter_qps = jupiter_qps % 2 ^ 32;
      simulate_only = simulate_only;
      sol_usd = sol_usd;
      bundle_timeout_secs = bundle_timeout_secs;
      blockhash_ttl_secs = blockhash_ttl_secs;
      reconcile_dust_tokens = reconcile_dust_tokens;
      geyser_url = env_str env (bytes "HFM_GEYSER_URL") (bytes "");
      geyser_token = env_str env (bytes "HFM_GEYSER_TOKEN") (bytes "");
      feed_commitment = env_str env (bytes "HFM_FEED_COMMITMENT") (bytes "processed");
      max_trade_subs = max_trade_subs;
    })

  -- with the parser of a public key for the check
  unfoldable pub from_env : (Text → Bool) → (Text → Option D) → Env → Loaded (Config D)
  unfolding read_env validate checked
  from_env is_pubkey parse_decimal env = do
    cfg ← read_env parse_decimal env
    checked (validate is_pubkey cfg) cfg
