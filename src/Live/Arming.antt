-- ===== src/Live/Arming.antt =====
-- How a live executor is made (src/live.rs): unarmed for paper, armed without a key, and armed with
-- the key that signs.
use hfmcbot.Prelude.{Bool, true, false, not, none, some, if◌then◌else◌}
use hfmcbot.Prelude.Strings.{is_blank}
use hfmcbot.Prelude.Text.{Text}
use hfmcbot.Config.{Config, Mode}
use hfmcbot.Exec.{not_armed, rejected}
use hfmcbot.Keys.{KeyCrates, LoadedKey}
use hfmcbot.Live.Executor.{LiveExecutor, TipSchedule, live_executor}
use hfmcbot.Live.Fields.{◌>>=◌}
use hfmcbot.Live.Rpc.{Reply, ok, err}
use hfmcbot.Live.Upstream.{Http, Net, new_net}
use hfmcbot.Platform.Decimal.{Decimal, le, dec}

-- the schedule of `JitoClient::new`
unfoldable pub tips_of : {D : Type 0} → Config D → TipSchedule
tips_of cfg = record {
  entry = cfg.jito_tip_entry_lamports;
  flip = cfg.jito_tip_flip_lamports;
  conviction = cfg.jito_tip_conviction_lamports;
}

unfoldable pub is_live : Mode → Bool
is_live Mode.paper = false
is_live Mode.live = true

module _ {W D : Type 0} ⦃http : Http W⦄ where
  -- what the constructors share: an executor without a key, which simulates or not, armed or not
  keyless : Config D → Text → W → Bool → Bool → LiveExecutor (Net W) D
  unfolding new_net tips_of
  keyless cfg operator_pubkey w simulate_only armed = record {
    operator_pubkey = operator_pubkey;
    signer_bytes = none;
    tips = tips_of cfg;
    tip_accounts = cfg.jito_tip_accounts;
    net = new_net cfg w;
    max_slippage_pct = cfg.max_slippage_pct;
    sol_usd = cfg.sol_usd;
    simulate_only = simulate_only;
    bundle_timeout_secs = cfg.bundle_timeout_secs;
    cached_blockhash = none;
    blockhash_ttl_secs = cfg.blockhash_ttl_secs;
    reconcile_dust_tokens = cfg.reconcile_dust_tokens;
    req_id = 1;
    armed = armed;
  }

  unfoldable pub unarmed_for_paper : Config D → Text → W → LiveExecutor (Net W) D
  unfolding keyless
  unarmed_for_paper cfg operator_pubkey w = keyless cfg operator_pubkey w true false

  unfoldable pub armed : Config D → Text → W → Reply (LiveExecutor (Net W) D)
  unfolding is_live keyless
  armed cfg operator_pubkey w =
      if not (is_live cfg.mode)
      then err not_armed
      else if is_blank operator_pubkey
      then err not_armed
      else ok (keyless cfg operator_pubkey w cfg.simulate_only true)

  with_key :
      {K : Type 0} ⦃crates : KeyCrates K⦄
      → LoadedKey K
      → LiveExecutor (Net W) D
      → LiveExecutor (Net W) D
  with_key ⦃crates = crates⦄ key ex = record ex {
    signer_bytes = some (crates.to_bytes key.keypair);
  }

  unfoldable pub armed_with_signer :
      {K : Type 0} ⦃crates : KeyCrates K⦄ ⦃d : Decimal D⦄
      → Config D
      → LoadedKey K
      → W
      → Reply (LiveExecutor (Net W) D)
  unfolding armed with_key
  armed_with_signer cfg key w = do
    ex ← armed cfg key.pubkey_base58 w
    if le cfg.sol_usd (dec 0) then err rejected else ok (with_key key ex)

unfoldable pub is_armed : {N D : Type 0} → LiveExecutor N D → Bool
is_armed ex = ex.armed
