-- ===== src/Live/Armed.antt =====
-- Which executors trade (src/live.rs): the constructors of the live executor and its orders.
use hfmcbot.Prelude.{inl, inr, ◌≡◌, arith, refl, true, false, Bool-cases, some}
use hfmcbot.Prelude.Strings.{is_blank}
use hfmcbot.Prelude.Text.{Text}
use hfmcbot.Config.{Config, Mode}
use hfmcbot.Exec.{TipTier, not_armed}
use hfmcbot.Keys.{KeyCrates, LoadedKey}
use hfmcbot.Live.Arming.{is_live, unarmed_for_paper, armed, armed_with_signer, is_armed}
use hfmcbot.Live.Executor.{LiveExecutor, Clients, Signing, UtcClock, live_buy, live_sell}
use hfmcbot.Live.Rpc.{ok, err}
use hfmcbot.Live.Upstream.{Http, Net}
use hfmcbot.Platform.Chrono.{Chrono}
use hfmcbot.Platform.Decimal.{Decimal, Whole, le, lt, dec}

-- An executor that signs: the configuration is live and prices SOL, the operator has a name, and the
-- executor is armed with the operator's key and simulates as the configuration says.
pub record IsArming {W D K : Type 0} ⦃crates : KeyCrates K⦄ ⦃d : Decimal D⦄ (cfg : Config D)
    (key : LoadedKey K) (ex : LiveExecutor (Net W) D) : Type 0 where
  pub is_live_mode : cfg.mode ≡ Mode.live
  pub is_priced : lt (dec 0) cfg.sol_usd ≡ true
  pub is_named : is_blank key.pubkey_base58 ≡ false
  pub trades : is_armed ex ≡ true
  pub has_key : ex.signer_bytes ≡ some (crates.to_bytes key.keypair)
  pub same_operator : ex.operator_pubkey ≡ key.pubkey_base58
  pub same_simulation : ex.simulate_only ≡ cfg.simulate_only

is_live_eq : (mode : Mode) → is_live mode ≡ true → mode ≡ Mode.live
unfolding is_live
is_live_eq Mode.paper h = ground arith
is_live_eq Mode.live h = refl

module _ {W D K : Type 0} ⦃http : Http W⦄ ⦃crates : KeyCrates K⦄ ⦃d : Decimal D⦄ where
  -- An executor is armed with a signing key only in live mode, with a SOL price above zero and an
  -- operator who is named; it then has that key, and simulates as the configuration says.
  pub armed_with_signer-IsArming :
      (cfg : Config D) (key : LoadedKey K) (w : W) (ex : LiveExecutor (Net W) D)
      → armed_with_signer cfg key w ≡ ok ex
      → IsArming cfg key ex
  unfolding armed_with_signer armed is_armed
  armed_with_signer-IsArming cfg key w ex h = elim (Bool-cases (is_live cfg.mode)) [
    | inl live ↦ elim (Bool-cases (is_blank key.pubkey_base58)) [
      | inl blank ↦ ground arith
      | inr named ↦ elim (Bool-cases (le cfg.sol_usd (dec 0))) [
        | inl unpriced ↦ ground arith
        | inr priced ↦ record {
          is_live_mode = is_live_eq cfg.mode live;
          is_priced = ground arith;
          is_named = named;
          trades = ground arith;
          has_key = ground arith;
          same_operator = ground arith;
          same_simulation = ground arith;
        }
      ]
    ]
    | inr paper ↦ ground arith
  ]

module _ {W D T : Type 0} ⦃http : Http W⦄ ⦃net : Clients (Net W) D⦄ ⦃signing : Signing⦄
    ⦃clock : UtcClock (Net W) T⦄ ⦃d : Decimal D⦄ ⦃whole : Whole D⦄ ⦃c : Chrono T⦄ where
  -- The executor for paper mode refuses each buy and each sell, and stays as it is, its clients and
  -- their world included, whatever the clients are.
  pub unarmed_for_paper_refuses :
      (cfg : Config D) (operator order_id mint : Text) (w : W) (amount : D) (now deadline : T)
      (tier : TipTier)
      → let ex = unarmed_for_paper cfg operator w in
        (live_buy mint amount now deadline order_id ex ≡ (ex, err not_armed))
        × (live_sell {T = T} mint amount order_id tier ex ≡ (ex, err not_armed))
  unfolding unarmed_for_paper live_buy live_sell
  unarmed_for_paper_refuses cfg operator order_id mint w amount now deadline tier = (refl, refl)
