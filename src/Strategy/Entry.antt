-- ===== src/Strategy/Entry.antt =====
-- The entry gate (src/strategy.rs): which launches pass, and why others do not.
use hfmcbot.Prelude.{◌≡◌, ◌↔◌, ◌⊎◌, true, false, arith}
use hfmcbot.Prelude.Int.{as_i64, ◌≤ℤ◌}
use hfmcbot.Platform.Decimal.{Decimal, le}
use hfmcbot.Platform.Chrono.{Chrono, num_seconds}
use hfmcbot.Config.{Config}
use hfmcbot.Strategy.{pass, entry_gate}
use hfmcbot.Types.{Launch}

module _ {D T : Type 0} ⦃d : Decimal D⦄ ⦃c : Chrono T⦄ where
  -- What the gate asks of a launch: it is young, its creator holds little, it is no honeypot, and
  -- it stands on its curve or in a liquid pool with the mint renounced.
  pub record IsSafe (l : Launch D T) (now : T) (cfg : Config D) : Type 0 where
    pub young : num_seconds now l.created_at ≤ℤ as_i64 cfg.entry_max_age_secs
    pub spread : le l.creator_hold_pct cfg.max_dev_hold_pct ≡ true
    pub sellable : l.is_honeypot ≡ false
    pub backed :
        (l.on_curve ≡ true)
        ⊎ ((le cfg.min_liquidity_usd l.liquidity_usd ≡ true) × (l.mint_renounced ≡ true))

  pass-IsSafe :
      (l : Launch D T) (now : T) (cfg : Config D) → entry_gate l now cfg ≡ pass → IsSafe l now cfg
  unfolding entry_gate
  pass-IsSafe l now cfg h = record {
    young = ground arith;
    spread = ground arith;
    sellable = ground arith;
    backed = ground arith;
  }

  IsSafe-pass :
      (l : Launch D T) (now : T) (cfg : Config D) → IsSafe l now cfg → entry_gate l now cfg ≡ pass
  unfolding entry_gate
  IsSafe-pass l now cfg h = ground arith

  -- The gate passes exactly the launches that are at most the configured seconds old, whose creator
  -- holds at most the configured share, that are no honeypots, and that stand on their curve or have
  -- the minimum liquidity and a renounced mint.
  pub entry_gate_iff :
      (l : Launch D T) (now : T) (cfg : Config D) → (entry_gate l now cfg ≡ pass) ↔ IsSafe l now cfg
  entry_gate_iff l now cfg = (pass-IsSafe l now cfg, IsSafe-pass l now cfg)
