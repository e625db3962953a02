-- ===== src/Live/Orders.antt =====
-- What a filled order of the live executor is (src/live.rs): the swap of the order in a bundle that has
-- landed.
use hfmcbot.Prelude.{ℕ, ◌≡◌, true, not, List, Option}
use hfmcbot.Prelude.Text.{Text}
use hfmcbot.Exec.{TipTier}
use hfmcbot.Live.Executor.{
  LiveExecutor, JupiterQuote, Clients, TipSchedule, sol_mint, tip_for, Signing, UtcClock, SwapTx,
  signer, assemble_bundle, is_usable_quote, settle_buy, if_sent, reconcile_sell_fill, quoted_fill,
  live_buy, live_sell,
}
use hfmcbot.Live.Money.{
  usd_to_lamports_floor, decimal_to_raw_floor, raw_to_decimal, lamports_to_usd,
}
use hfmcbot.Live.Rpc.{Reply, ok}
use hfmcbot.Live.Run.{Run, ◌>>◌}
use hfmcbot.Platform.Chrono.{Chrono}
use hfmcbot.Platform.Decimal.{Decimal, Whole}
use hfmcbot.Types.{Fill, Side}

-- An order of the engine: a buy for a budget, with its time and deadline, or a sell of a quantity.
pub data Order (D T : Type 0) : Type 0 where
  buy_order : Text → D → T → T → Text → Order D T
  sell_order : Text → D → Text → TipTier → Order D T

module _ {D T : Type 0} where
  unfoldable pub mint_of : Order D T → Text
  mint_of (buy_order mint budget_usd now deadline order_id) = mint
  mint_of (sell_order mint qty order_id tier) = mint

  -- the token that is paid with, and the one that is got
  unfoldable pub from_mint : Order D T → Text
  from_mint (buy_order mint budget_usd now deadline order_id) = sol_mint
  from_mint (sell_order mint qty order_id tier) = mint

  unfoldable pub to_mint : Order D T → Text
  to_mint (buy_order mint budget_usd now deadline order_id) = mint
  to_mint (sell_order mint qty order_id tier) = sol_mint

  unfoldable pub order_tip : TipSchedule → Order D T → ℕ
  order_tip tips (buy_order mint budget_usd now deadline order_id) = tips.entry
  order_tip tips (sell_order mint qty order_id tier) = tip_for tips tier

  -- the amount to swap, in base units of the token that is paid with
  unfoldable pub amount_of :
      {N : Type 0} ⦃d : Decimal D⦄ ⦃whole : Whole D⦄ → Order D T → LiveExecutor N D → ℕ → Reply ℕ
  amount_of (buy_order mint budget_usd now deadline order_id) s decimals =
      usd_to_lamports_floor budget_usd s.sol_usd
  amount_of (sell_order mint qty order_id tier) s decimals = decimal_to_raw_floor qty decimals

module _ {N D T : Type 0} ⦃net : Clients N D⦄ ⦃clock : UtcClock N T⦄ ⦃d : Decimal D⦄ where
  -- what is left of an order of an executor once its bundle has landed, with the amount that its quote
  -- gives and the decimals of its token
  unfoldable pub settled : Order D T → LiveExecutor N D → ℕ → ℕ → Run (LiveExecutor N D) (Fill D T)
  settled (buy_order mint budget_usd now deadline order_id) s out decimals =
      settle_buy mint budget_usd order_id (not s.simulate_only) (raw_to_decimal out decimals)
  settled (sell_order mint qty order_id tier) s out decimals =
      if_sent (not s.simulate_only) (reconcile_sell_fill mint)
      >> quoted_fill order_id mint Side.sell qty (lamports_to_usd out s.sol_usd) tier
          (not s.simulate_only)

  unfoldable pub place :
      ⦃signing : Signing⦄ ⦃whole : Whole D⦄ ⦃c : Chrono T⦄
      → Order D T
      → Run (LiveExecutor N D) (Fill D T)
  unfolding live_buy live_sell
  place (buy_order mint budget_usd now deadline order_id) =
      live_buy mint budget_usd now deadline order_id
  place (sell_order mint qty order_id tier) = live_sell mint qty order_id tier

module _ {N D : Type 0} ⦃net : Clients N D⦄ ⦃signing : Signing⦄ where
  -- From `s` to `t`, the bundle of the swap, signed by the executor's key, is sent, and the landing of
  -- that very bundle is reported with the signatures.
  pub record IsLandedBundle (swap_tx : SwapTx) (signatures : List Text) (s t : LiveExecutor N D)
      : Type 0 where
    pub key : List ℕ
    pub hash : Text × ℕ
    pub signed : Text
    pub tip : Option Text
    pub id : ℕ
    pub uuid : Text
    pub secs : ℕ
    pub sending : N
    pub sent : N
    pub has_key : signer signing.is_key_pair s.signer_bytes ≡ ok key
    pub is_signed : signing.sign_versioned_tx swap_tx.tx_base64 key hash.0 ≡ ok signed
    pub is_sent : net.send_bundle id (assemble_bundle signed tip) sending ≡ (sent, ok uuid)
    pub is_landed : net.landing uuid secs sent ≡ (t.net, ok signatures)

  -- The order of `s` is filled with `f`, in `s'`: its swap, of a usable quote for its amount, stands in
  -- a bundle that has landed, and the fill is what is then settled.
  pub record IsLandedOrder {T : Type 0} ⦃clock : UtcClock N T⦄ ⦃d : Decimal D⦄ ⦃whole : Whole D⦄
      (order : Order D T) (s s' : LiveExecutor N D) (f : Fill D T) : Type 0 where
    pub decimals : ℕ
    pub amount : ℕ
    pub bps : ℕ
    pub quote : JupiterQuote D
    pub swap_tx : SwapTx
    pub signatures : List Text
    pub counting : N
    pub counted : N
    pub asking : N
    pub quoted : N
    pub swapping : N
    pub swapped : LiveExecutor N D
    pub landed : LiveExecutor N D
    pub is_counted : net.fetch_token_decimals (mint_of order) counting ≡ (counted, ok decimals)
    pub is_amount : amount_of order s decimals ≡ ok amount
    pub is_quoted :
        net.quote (from_mint order) (to_mint order) amount bps asking ≡ (quoted, ok quote)
    pub is_usable :
        is_usable_quote quote (from_mint order) (to_mint order) s.max_slippage_pct ≡ true
    pub is_swapped :
        net.swap quote s.operator_pubkey (order_tip s.tips order) swapping
        ≡ (swapped.net, ok swap_tx)
    pub bundle : IsLandedBundle swap_tx signatures swapped landed
    pub is_settled : settled order s quote.out_amount_raw decimals landed ≡ (s', ok f)
