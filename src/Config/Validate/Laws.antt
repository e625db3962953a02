-- ===== src/Config/Validate/Laws.antt =====
-- What a configuration is that passes its check (src/config.rs, `validate`).
use hfmcbot.Prelude.{
  ◌<◌, ◌≡◌, ◌≢◌, ◌↔◌, ◌⊎◌, ◌||◌, refl, Bool, true, false, ◌++◌, none, All, arith, inl, inr,
}
use hfmcbot.Prelude.Text.{Text, bytes, text_eq_iff}
use hfmcbot.Platform.Decimal.{Decimal, dec, le, lt}
use hfmcbot.Config.{Config, live}
use hfmcbot.Config.Validate.{
  account_tests, number_tests, address_tests, last_tests, is_commitment, mode_is_funded, is_blank,
  validate,
}
use hfmcbot.Strategy.{split_into_slices}
use hfmcbot.Config.Validate.Chain.{
  Passes, first_error-Passes, Passes-first_error, Passes-append, All-unappend, account_tests-All,
  All-account_tests, any_blank-All, All-any_blank,
}

or_iff :
    {P Q R : Type 0} {a b c : Bool}
    → (a ≡ true) ↔ P
    → (b ≡ true) ↔ Q
    → (c ≡ true) ↔ R
    → ((a || b || c) ≡ true) ↔ (P ⊎ (Q ⊎ R))
or_iff {a = true} p q r = (λ h. inl (p.0 refl), λ h. refl)
or_iff {a = false} {b = true} p q r = (λ h. inr (inl (q.0 refl)), λ h. refl)
or_iff {a = false} {b = false} {c = true} p q r = (λ h. inr (inr (r.0 refl)), λ h. refl)
or_iff {a = false} {b = false} {c = false} p q r =
    (λ h. cc, λ h. elim h [ inl x ↦ p.1 x | inr (inl y) ↦ q.1 y | inr (inr z) ↦ r.1 z ])

-- the commitments that Solana knows
abbrev pub IsCommitment : Text → Type 0
IsCommitment s = (s ≡ bytes "processed") ⊎ ((s ≡ bytes "confirmed") ⊎ (s ≡ bytes "finalized"))

is_commitment_iff : (s : Text) → (is_commitment s ≡ true) ↔ IsCommitment s
unfolding is_commitment
is_commitment_iff s =
    or_iff (text_eq_iff s (bytes "processed")) (text_eq_iff s (bytes "confirmed"))
      (text_eq_iff s (bytes "finalized"))

module _ {D : Type 0} ⦃d : Decimal D⦄ where
  -- The numbers that the check looks at are in their ranges, and the address of the metrics is not blank.
  pub record HasSaneNumbers (cfg : Config D) : Type 0 where
    pub equity_usd_pos : lt (dec 0) cfg.equity_usd ≡ true
    pub min_liquidity_usd_pos : lt (dec 0) cfg.min_liquidity_usd ≡ true
    pub max_single_pos_usd_pos : lt (dec 0) cfg.max_single_pos_usd ≡ true
    pub take_profit_pct_pos : lt (dec 0) cfg.take_profit_pct ≡ true
    pub stop_loss_pct_pos : lt (dec 0) cfg.stop_loss_pct ≡ true
    pub trail_pct_pos : lt (dec 0) cfg.trail_pct ≡ true
    pub risk_per_trade_pct_pos : lt (dec 0) cfg.risk_per_trade_pct ≡ true
    pub slippage_nonneg : le (dec 0) cfg.paper_slippage_pct ≡ true
    pub impact_nonneg : le (dec 0) cfg.paper_impact_coeff ≡ true
    pub max_slippage_pos : lt (dec 0) cfg.paper_max_slippage_pct ≡ true
    pub max_slippage_le : le cfg.paper_max_slippage_pct (dec 100) ≡ true
    pub heartbeat : 0 < cfg.heartbeat_secs
    pub metrics : is_blank cfg.metrics_addr ≡ false
    pub slices : 0 < cfg.funnel_slices
    pub positions : 0 < cfg.max_open_positions
    pub trades : 0 < cfg.max_trades_per_min
    pub attempts : 0 < cfg.max_exit_attempts
    pub quotes : 0 < cfg.jupiter_qps
    pub timeout : 0 < cfg.bundle_timeout_secs
    pub ttl : 0 < cfg.blockhash_ttl_secs
    pub dust_nonneg : le (dec 0) cfg.reconcile_dust_tokens ≡ true
    pub subs : 0 < cfg.max_trade_subs
    pub sol_nonneg : le (dec 0) cfg.sol_usd ≡ true

  -- The addresses of Jupiter, of the RPC and of each of its fallbacks are not blank.
  pub record HasAddresses (cfg : Config D) : Type 0 where
    pub jupiter : is_blank cfg.jupiter_url ≡ false
    pub rpc : is_blank cfg.rpc_url ≡ false
    pub fallbacks : All (λ u. is_blank u ≡ false) cfg.rpc_fallback_urls

  HasSaneNumbers-Passes : (cfg : Config D) → HasSaneNumbers cfg → Passes (number_tests cfg)
  unfolding number_tests
  HasSaneNumbers-Passes cfg h = ground (arith)

  Passes-HasSaneNumbers : (cfg : Config D) → Passes (number_tests cfg) → HasSaneNumbers cfg
  unfolding number_tests
  Passes-HasSaneNumbers cfg h = record {
    equity_usd_pos = ground arith;
    min_liquidity_usd_pos = ground arith;
    max_single_pos_usd_pos = ground arith;
    take_profit_pct_pos = ground arith;
    stop_loss_pct_pos = ground arith;
    trail_pct_pos = ground arith;
    risk_per_trade_pct_pos = ground arith;
    slippage_nonneg = ground arith;
    impact_nonneg = ground arith;
    max_slippage_pos = ground arith;
    max_slippage_le = ground arith;
    heartbeat = ground arith;
    metrics = ground arith;
    slices = ground arith;
    positions = ground arith;
    trades = ground arith;
    attempts = ground arith;
    quotes = ground arith;
    timeout = ground arith;
    ttl = ground arith;
    dust_nonneg = ground arith;
    subs = ground arith;
    sol_nonneg = ground arith;
  }

  HasAddresses-Passes : (cfg : Config D) → HasAddresses cfg → Passes (address_tests cfg)
  unfolding address_tests
  HasAddresses-Passes cfg h =
      let fallbacks = All-any_blank cfg.rpc_fallback_urls h.fallbacks in ground arith

  Passes-HasAddresses : (cfg : Config D) → Passes (address_tests cfg) → HasAddresses cfg
  unfolding address_tests
  Passes-HasAddresses cfg h = record {
    jupiter = ground arith;
    rpc = ground arith;
    fallbacks = any_blank-All cfg.rpc_fallback_urls (ground arith);
  }

  -- The feed is followed at a known commitment, and live trading knows the price of SOL.
  pub record IsFunded (cfg : Config D) : Type 0 where
    pub commitment : IsCommitment cfg.feed_commitment
    pub funded : cfg.mode ≡ live → lt (dec 0) cfg.sol_usd ≡ true

  IsFunded-Passes : (cfg : Config D) → IsFunded cfg → Passes (last_tests cfg)
  unfolding last_tests mode_is_funded
  IsFunded-Passes cfg h =
      ((is_commitment_iff cfg.feed_commitment).1 h.commitment, (ground arith, tt))

  Passes-IsFunded : (cfg : Config D) → Passes (last_tests cfg) → IsFunded cfg
  unfolding last_tests mode_is_funded
  Passes-IsFunded cfg h = record {
    commitment = (is_commitment_iff cfg.feed_commitment).0 h.0;
    funded = λ m. ground arith;
  }

  -- What `validate` asks of a configuration, with `is_pubkey` for the public keys.
  pub record IsTradable (is_pubkey : Text → Bool) (cfg : Config D) : Type 0 where
    pub numbers : HasSaneNumbers cfg
    pub addresses : HasAddresses cfg
    pub tip_accounts : All (λ a. is_pubkey a ≡ true) cfg.jito_tip_accounts
    pub ready : IsFunded cfg

  validate-IsTradable :
      (is_pubkey : Text → Bool) (cfg : Config D)
      → validate is_pubkey cfg ≡ none
      → IsTradable is_pubkey cfg
  unfolding validate
  validate-IsTradable is_pubkey cfg h =
      let ts = account_tests is_pubkey 0 cfg.jito_tip_accounts in
      let us = ts ++ last_tests cfg in
      let vs = address_tests cfg ++ us in
      let (numbers, rest) =
        All-unappend (number_tests cfg) vs (first_error-Passes (number_tests cfg ++ vs) h) in
      let (addresses, rest') = All-unappend (address_tests cfg) us rest in
      let (accounts, last) = All-unappend ts (last_tests cfg) rest' in
      record {
        numbers = Passes-HasSaneNumbers cfg numbers;
        addresses = Passes-HasAddresses cfg addresses;
        tip_accounts = account_tests-All is_pubkey 0 cfg.jito_tip_accounts accounts;
        ready = Passes-IsFunded cfg last;
      }

  IsTradable-validate :
      (is_pubkey : Text → Bool) (cfg : Config D)
      → IsTradable is_pubkey cfg
      → validate is_pubkey cfg ≡ none
  unfolding validate
  IsTradable-validate is_pubkey cfg h =
      let ts = account_tests is_pubkey 0 cfg.jito_tip_accounts in
      let us = ts ++ last_tests cfg in
      let vs = address_tests cfg ++ us in
      Passes-first_error (number_tests cfg ++ vs) (
        Passes-append (number_tests cfg) vs (HasSaneNumbers-Passes cfg h.numbers) (
          Passes-append (address_tests cfg) us (HasAddresses-Passes cfg h.addresses) (
            Passes-append ts (last_tests cfg)
              (All-account_tests is_pubkey 0 cfg.jito_tip_accounts h.tip_accounts)
              (IsFunded-Passes cfg h.ready))))

  -- A configuration passes the check exactly if all of this holds. Above zero are the equity, the least
  -- liquidity, the largest position, the percentages of take-profit, stop-loss, trail and risk per
  -- trade, the cap of the paper slippage, which is at most 100, the seconds of the heartbeat, of the
  -- wait for a bundle and of a blockhash, and the numbers of slices, open positions, trades in a
  -- minute, exit attempts, Jupiter requests in a second and trade subscriptions. Not below zero are the
  -- paper slippage, its impact coefficient, the dust of a reconciliation and the price of SOL, which is
  -- above zero in live mode. Not blank are the addresses of the metrics, of Jupiter, of the RPC and of
  -- each of its fallbacks. Every tip account is a public key, and the commitment of the feed is
  -- processed, confirmed or finalized.
  pub validate_iff :
      (is_pubkey : Text → Bool) (cfg : Config D)
      → (validate is_pubkey cfg ≡ none) ↔ IsTradable is_pubkey cfg
  validate_iff is_pubkey cfg =
      (validate-IsTradable is_pubkey cfg, IsTradable-validate is_pubkey cfg)

  -- With a configuration that passes the check, the funnel's split never fails its assertion, for
  -- any budget.
  pub split_into_slices-validate :
      (is_pubkey : Text → Bool) (cfg : Config D) (budget : D)
      → validate is_pubkey cfg ≡ none
      → split_into_slices budget cfg.funnel_slices ≢ none
  unfolding split_into_slices
  split_into_slices-validate is_pubkey cfg budget h =
      let slices = (validate-IsTradable is_pubkey cfg h).numbers.slices in ground arith
