-- ===== src/Exec.antt =====
-- The executor (src/exec.rs): the trait as an interface, and the paper executor.
pub mod Paper
use Prim.Native.Nat.{bit_xor, min}
use hfmcbot.Prelude.{ℕ, ◌≡◌, ◌*◌, ◌%◌, ◌^◌, Bool, false, ◌||◌, [], ◌∷◌, ltb, ◌==◌, if◌then◌else◌}
use hfmcbot.Prelude.Text.{Text}
use hfmcbot.Platform.Decimal.{Decimal, ◌⊕◌, ◌⊖◌, ◌⊗◌, ◌⊘◌, dec, le, round_dp, dec_min}
use hfmcbot.Config.{Config}
use hfmcbot.Types.{Side, Fill}

abbrev pub fill_dp : ℕ
fill_dp = 12

-- `ExecError`, without the text of the message
pub data ExecError : Type 0 where
  rejected transport not_armed : ExecError

pub data TipTier : Type 0 where
  entry flip_exit conviction_exit : TipTier

-- `Result<Fill, ExecError>`
pub data Outcome (D T : Type 0) : Type 0 where
  filled : Fill D T → Outcome D T
  failed : ExecError → Outcome D T

-- `trait Executor` over the executor's own state X. The arguments stand as in the source: mint,
-- budget, price, liquidity, now, deadline and order id of a buy, and mint, quantity, price,
-- liquidity, now, order id and tier of a sell.
pub record Executor (X D T : Type 0) : Type 0 where
  pub buy : X → Text → D → D → D → T → T → Text → X × Outcome D T
  pub sell : X → Text → D → D → D → T → Text → TipTier → X × Outcome D T

-- The contract of an executor: every fill of a buy has the property, at the mint ordered.
pub record Fills (X D T : Type 0) ⦃ex : Executor X D T⦄ (P : Text → Fill D T → Type 0)
    : Type 0 where
  pub of_buy :
      (x : X) (mint : Text) (budget price liquidity : D) (now deadline : T) (order_id : Text)
      (f : Fill D T)
      → (ex.buy x mint budget price liquidity now deadline order_id).1 ≡ filled f
      → P mint f

pub record PaperExecutor (D : Type 0) : Type 0 where
  pub slippage_pct : D
  pub impact_coeff : D
  pub max_slippage_pct : D
  pub fee_bps : D
  pub failure_bps : ℕ

-- the loop of `would_fail`: FNV-1a over the bytes, on a 64-bit word
fnv_1a : ℕ → Text → ℕ
fnv_1a h [] = h
fnv_1a h (b ∷ bs) = fnv_1a (bit_xor h b * 0x00000100000001b3 % 2 ^ 64) bs

unfoldable pub would_fail : Text → ℕ → Bool
unfolding fnv_1a
would_fail order_id failure_bps =
    if failure_bps == 0 then false else ltb (fnv_1a 0xcbf29ce484222325 order_id % 10000) failure_bps

module _ {D : Type 0} ⦃d : Decimal D⦄ where
  unfoldable pub effective_slippage_pct : D → D → D → D → D → D
  effective_slippage_pct base_pct impact_coeff max_pct notional_usd liquidity_usd =
      let depth_pct = notional_usd ⊘ liquidity_usd ⊗ dec 100 in
      if le liquidity_usd (dec 0) || le notional_usd (dec 0)
      then dec_min base_pct max_pct
      else dec_min (base_pct ⊕ impact_coeff ⊗ depth_pct) max_pct

  unfoldable pub paper_new : Config D → PaperExecutor D
  paper_new cfg = record {
    slippage_pct = cfg.paper_slippage_pct;
    impact_coeff = cfg.paper_impact_coeff;
    max_slippage_pct = cfg.paper_max_slippage_pct;
    fee_bps = dec cfg.fee_bps;
    failure_bps = 0;
  }

  unfoldable pub with_failure_bps : Config D → ℕ → PaperExecutor D
  with_failure_bps cfg failure_bps = record {
    slippage_pct = cfg.paper_slippage_pct;
    impact_coeff = cfg.paper_impact_coeff;
    max_slippage_pct = cfg.paper_max_slippage_pct;
    fee_bps = dec cfg.fee_bps;
    failure_bps = min failure_bps 10000;
  }

-- the price after slippage, against the trader on either side
slipped : {D : Type 0} ⦃d : Decimal D⦄ → Side → D → D → D
slipped Side.buy ref_price eff = ref_price ⊗ (dec 1 ⊕ eff ⊘ dec 100)
slipped Side.sell ref_price eff = ref_price ⊗ (dec 1 ⊖ eff ⊘ dec 100)

module _ {D T : Type 0} ⦃d : Decimal D⦄ where
  -- `PaperExecutor::fill` behind its guards, at the slipped price
  settle : PaperExecutor D → Side → Text → D → D → T → Text → Fill D T
  settle x side mint qty at now order_id =
      let price = round_dp fill_dp at in
      let units = round_dp fill_dp qty in
      let notional = round_dp fill_dp (price ⊗ units) in
      record {
        order_id = order_id;
        mint = mint;
        side = side;
        qty = units;
        price_usd = price;
        notional_usd = notional;
        fee_usd = round_dp fill_dp (notional ⊗ x.fee_bps ⊘ dec 10000);
        ts = now;
      }

  unfoldable pub fill_order : PaperExecutor D → Side → Text → D → D → D → T → Text → Outcome D T
  unfolding settle slipped
  fill_order x side mint qty ref_price eff_slip_pct now order_id =
      if le ref_price (dec 0) || le qty (dec 0)
      then failed rejected
      else if le (slipped side ref_price eff_slip_pct) (dec 0)
      then failed rejected
      else filled (settle x side mint qty (slipped side ref_price eff_slip_pct) now order_id)

  unfoldable pub paper_buy :
      PaperExecutor D → Text → D → D → D → T → T → Text → PaperExecutor D × Outcome D T
  unfolding would_fail effective_slippage_pct fill_order
  paper_buy x mint budget_usd price_usd liquidity_usd now deadline order_id =
      let eff =
        effective_slippage_pct x.slippage_pct x.impact_coeff x.max_slippage_pct budget_usd
          liquidity_usd in
      let fill_price = price_usd ⊗ (dec 1 ⊕ eff ⊘ dec 100) in
      let outcome =
        fill_order x Side.buy mint (budget_usd ⊘ fill_price) price_usd eff now order_id in
      (
        x,
        if would_fail order_id x.failure_bps
            then failed rejected
            else if le budget_usd (dec 0) || le price_usd (dec 0)
            then failed rejected
            else outcome,
      )

  unfoldable pub paper_sell :
      PaperExecutor D → Text → D → D → D → T → Text → TipTier → PaperExecutor D × Outcome D T
  unfolding would_fail effective_slippage_pct fill_order
  paper_sell x mint qty price_usd liquidity_usd now order_id tier =
      let eff =
        effective_slippage_pct x.slippage_pct x.impact_coeff x.max_slippage_pct (qty ⊗ price_usd)
          liquidity_usd in
      let outcome = fill_order x Side.sell mint qty price_usd eff now order_id in
      (x, if would_fail order_id x.failure_bps then failed rejected else outcome)

  -- `impl Executor for PaperExecutor`
  instance abbrev pub paper_executor : Executor (PaperExecutor D) D T
  paper_executor = record { buy = paper_buy; sell = paper_sell }
