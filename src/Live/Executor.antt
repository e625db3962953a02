-- ===== src/Live/Executor.antt =====
-- The live executor (src/live.rs, `LiveExecutor`): from an order to a fill, over the clients of
-- Jupiter, the RPC and Jito as an interface, with the signing library as another.
use hfmcbot.Prelude.{
  ℕ, zero, suc, ◌+◌, ◌-◌, ◌*◌, ◌%◌, ◌^◌, Bool, true, false, not, ◌&&◌, List, [], ◌∷◌, Option, none,
  some, length, get_elem?, ltb, ◌==◌, if◌then◌else◌,
}
use hfmcbot.Prelude.Text.{Text, bytes, text_eq}
use hfmcbot.Exec.{
  transport, rejected, not_armed, Executor, Outcome, filled, failed, TipTier, entry, flip_exit,
  conviction_exit,
}
use hfmcbot.Live.Money.{
  usd_to_lamports_floor, decimal_to_raw_floor, slippage_pct_to_bps, raw_to_decimal, lamports_to_usd,
}
use hfmcbot.Live.Rpc.{Reply, ok, err}
use hfmcbot.Live.Run.{Run, ◌>>=◌, ◌>>◌, pure, get, of_reply, require}
use hfmcbot.Platform.Chrono.{Chrono, after}
use hfmcbot.Platform.Json.{Json}
use hfmcbot.Platform.Decimal.{Decimal, Whole, le, lt, dec, dec_max, negate, ◌⊕◌, ◌⊘◌}
use hfmcbot.Types.{Fill, Side}

abbrev pub sol_mint : Text
sol_mint = bytes "So11111111111111111111111111111111111111112"

-- `serde_json::Value`, with its floats by their 64 bits
abbrev pub Value : Type 0
Value = Json ℕ

pub record JupiterQuote (D : Type 0) : Type 0 where
  pub input_mint : Text
  pub output_mint : Text
  pub in_amount_raw : ℕ
  pub out_amount_raw : ℕ
  pub other_amount_threshold_raw : ℕ
  pub swap_mode : Text
  pub slippage_bps : ℕ
  pub price_impact_pct : D
  pub raw : Value

pub record SwapTx : Type 0 where
  pub tx_base64 : Text
  pub last_valid_block_height : ℕ

pub record TipSchedule : Type 0 where
  pub entry : ℕ
  pub flip : ℕ
  pub conviction : ℕ

-- What the executor calls of its clients, over the state N of the network: the quote of a pair, an
-- amount and a slippage; the swap for a quote, an operator and a fee; decimals of a mint; the
-- balance of an operator in a mint; a blockhash with its height; a bundle under a number; its
-- landing within seconds; and the monotonic clock, in nanoseconds.
pub record Clients (N D : Type 0) : Type 0 where
  pub quote : Text → Text → ℕ → ℕ → N → N × Reply (JupiterQuote D)
  pub swap : JupiterQuote D → Text → ℕ → N → N × Reply SwapTx
  pub fetch_token_decimals : Text → N → N × Reply ℕ
  pub fetch_token_balance : Text → Text → N → N × Reply D
  pub fetch_recent_blockhash : N → N × Reply (Text × ℕ)
  pub send_bundle : ℕ → List Text → N → N × Reply Text
  pub landing : Text → ℕ → N → N × Reply (List Text)
  pub instant : N → ℕ

-- `Utc::now()`
pub record UtcClock (N T : Type 0) : Type 0 where
  pub utc_now : N → T

-- The calls of the Solana crates: whether bytes are a key pair, and for a key pair the signed swap of
-- a transaction under a blockhash, a tip account of a text, and the signed tip to an account.
pub record Signing : Type 0 where
  pub is_key_pair : List ℕ → Bool
  pub sign_versioned_tx : Text → List ℕ → Text → Reply Text
  pub parse_tip_account : Text → Reply Text
  pub build_tip_tx : List ℕ → Text → ℕ → Text → Reply Text

pub record LiveExecutor (N D : Type 0) : Type 0 where
  pub operator_pubkey : Text
  pub signer_bytes : Option (List ℕ)
  pub tips : TipSchedule
  pub tip_accounts : List Text
  pub net : N
  pub max_slippage_pct : D
  pub sol_usd : D
  pub simulate_only : Bool
  pub bundle_timeout_secs : ℕ
  pub cached_blockhash : Option ((Text × ℕ) × ℕ)
  pub blockhash_ttl_secs : ℕ
  pub reconcile_dust_tokens : D
  pub req_id : ℕ
  pub armed : Bool

unfoldable pub tip_for : TipSchedule → TipTier → ℕ
tip_for tips entry = tips.entry
tip_for tips flip_exit = tips.flip
tip_for tips conviction_exit = tips.conviction

unfoldable pub pick_tip_account : List Text → ℕ → Option Text
pick_tip_account [] counter = none
pick_tip_account (a ∷ accounts) counter = get_elem? (a ∷ accounts) (counter % length (a ∷ accounts))

-- `ok_or_else` with `Rejected`
unfoldable pub or_rejected : {A : Type 0} → Option A → Reply A
or_rejected none = err rejected
or_rejected (some a) = ok a

unfoldable pub assemble_bundle : Text → Option Text → List Text
assemble_bundle swap none = swap ∷ []
assemble_bundle swap (some tip) = swap ∷ tip ∷ []

module _ {N D : Type 0} where
  -- a call of a client
  unfoldable pub call : {A : Type 0} → (N → N × Reply A) → Run (LiveExecutor N D) A
  call f s = let (net', reply) = f s.net in (record s { net = net' }, reply)

  unfoldable pub next_id : Run (LiveExecutor N D) ℕ
  next_id s = (record s { req_id = (s.req_id + 1) % 2 ^ 64 }, ok s.req_id)

-- `signer` on the bytes
unfoldable pub signer : (List ℕ → Bool) → Option (List ℕ) → Reply (List ℕ)
signer is_key_pair none = err not_armed
signer is_key_pair (some key) = if is_key_pair key then ok key else err not_armed

-- `collect` of the parsed accounts: the first error is the result
unfoldable pub parse_all : (Text → Reply Text) → List Text → Reply (List Text)
parse_all parse [] = ok []
parse_all parse (a ∷ accounts) = elim (parse a) [
  | ok account ↦ elim (parse_all parse accounts) [ ok rest ↦ ok (account ∷ rest) | err e ↦ err e ]
  | err e ↦ err e
]

-- the blockhash in the cache while it is younger than the limit
unfoldable pub young : Option ((Text × ℕ) × ℕ) → ℕ → ℕ → Option (Text × ℕ)
young none now ttl_secs = none
young (some (hash, at)) now ttl_secs =
    if ltb (now - at) (ttl_secs * 1000000000) then some hash else none

module _ {N D : Type 0} ⦃net : Clients N D⦄ where
  unfoldable pub store_blockhash : Text × ℕ → Run (LiveExecutor N D) (Text × ℕ)
  store_blockhash hash s = (record s { cached_blockhash = some (hash, net.instant s.net) }, ok hash)

  unfoldable pub or_fetched : Option (Text × ℕ) → Run (LiveExecutor N D) (Text × ℕ)
  unfolding call store_blockhash
  or_fetched none = do hash ← call net.fetch_recent_blockhash; store_blockhash hash
  or_fetched (some hash) = pure hash

  unfoldable pub fresh_blockhash : Run (LiveExecutor N D) (Text × ℕ)
  unfolding young or_fetched
  fresh_blockhash = do
    s ← get
    or_fetched (young s.cached_blockhash (net.instant s.net) s.blockhash_ttl_secs)

  -- the bundle is submitted, and its landing awaited
  unfoldable pub send_txs : List Text → Run (LiveExecutor N D) (List Text)
  unfolding call next_id
  send_txs txs = do
    s ← get
    id ← next_id
    uuid ← call (net.send_bundle id txs)
    call (net.landing uuid s.bundle_timeout_secs)

  unfoldable pub submit : Bool → List Text → Run (LiveExecutor N D) (List Text)
  unfolding send_txs
  submit true txs = pure []
  submit false txs = send_txs txs

module _ {N D : Type 0} ⦃net : Clients N D⦄ ⦃d : Decimal D⦄ where
  unfoldable pub reconcile_buy_fill : Text → D → Run (LiveExecutor N D) (Unit {0})
  unfolding call
  reconcile_buy_fill mint qty = do
    s ← get
    actual ← call (net.fetch_token_balance s.operator_pubkey mint)
    of_reply (if lt (actual ⊕ s.reconcile_dust_tokens) qty then err transport else ok tt)

  unfoldable pub reconcile_sell_fill : Text → Run (LiveExecutor N D) (Unit {0})
  unfolding call
  reconcile_sell_fill mint = do
    s ← get
    actual ← call (net.fetch_token_balance s.operator_pubkey mint)
    of_reply (if le actual s.reconcile_dust_tokens then ok tt else err transport)

  -- the reconciliation, where a bundle was sent
  unfoldable pub if_sent :
      Bool → Run (LiveExecutor N D) (Unit {0}) → Run (LiveExecutor N D) (Unit {0})
  if_sent true check = check
  if_sent false check = pure tt

  unfoldable pub tip_fee_usd : LiveExecutor N D → TipTier → Bool → D
  unfolding tip_for lamports_to_usd
  tip_fee_usd s tier sent = if sent then lamports_to_usd (tip_for s.tips tier) s.sol_usd else dec 0

module _ {D : Type 0} ⦃d : Decimal D⦄ where
  -- `quote_within_budget`, whose answer `Rejected` is that of `require`
  unfoldable pub quote_within_budget : JupiterQuote D → D → Bool
  quote_within_budget q max_slippage_pct =
      le (dec_max q.price_impact_pct (negate q.price_impact_pct)) max_slippage_pct

  -- the checks of a quote: its pair, its output and its price impact
  unfoldable pub is_usable_quote : JupiterQuote D → Text → Text → D → Bool
  unfolding quote_within_budget
  is_usable_quote q input_mint output_mint max_slippage_pct =
      text_eq q.input_mint input_mint
      && text_eq q.output_mint output_mint
      && not (q.out_amount_raw == 0)
      && quote_within_budget q max_slippage_pct

module _ {N D : Type 0} ⦃net : Clients N D⦄ ⦃signing : Signing⦄ where
  -- the tip transfer of a tier, none where it costs nothing
  unfoldable pub tip_tx : List ℕ → Text → ℕ → Run (LiveExecutor N D) (Option Text)
  unfolding next_id parse_all pick_tip_account or_rejected
  tip_tx key blockhash zero = pure none
  tip_tx key blockhash (suc lamports) = do
    n ← next_id
    s ← get
    accounts ← of_reply (parse_all signing.parse_tip_account s.tip_accounts)
    dest ← of_reply (or_rejected (pick_tip_account accounts n))
    tip ← of_reply (signing.build_tip_tx key dest (suc lamports) blockhash)
    pure (some tip)

  unfoldable pub sign_and_maybe_send : SwapTx → TipTier → Run (LiveExecutor N D) (List Text)
  unfolding signer fresh_blockhash tip_tx tip_for submit assemble_bundle
  sign_and_maybe_send swap_tx tier = do
    s ← get
    key ← of_reply (signer signing.is_key_pair s.signer_bytes)
    hash ← fresh_blockhash
    signed ← of_reply (signing.sign_versioned_tx swap_tx.tx_base64 key hash.0)
    tip ← tip_tx key hash.0 (tip_for s.tips tier)
    submit s.simulate_only (assemble_bundle signed tip)

module _ {N D T : Type 0} ⦃net : Clients N D⦄ ⦃clock : UtcClock N T⦄ ⦃d : Decimal D⦄ where
  -- the fill of a quantity for a number of dollars
  unfoldable pub quoted_fill :
      Text → Text → Side → D → D → TipTier → Bool → Run (LiveExecutor N D) (Fill D T)
  unfolding tip_fee_usd
  quoted_fill order_id mint side qty usd tier sent s = (
    s,
    ok (record {
      order_id = order_id;
      mint = mint;
      side = side;
      qty = qty;
      price_usd = usd ⊘ qty;
      notional_usd = usd;
      fee_usd = tip_fee_usd s tier sent;
      ts = clock.utc_now s.net;
    }),
  )

  -- `execute_live_buy` after its bundle, for the quantity of the quote
  unfoldable pub settle_buy : Text → D → Text → Bool → D → Run (LiveExecutor N D) (Fill D T)
  unfolding if_sent reconcile_buy_fill quoted_fill
  settle_buy mint budget_usd order_id sent qty = do
    require (not (le qty (dec 0)))
    if_sent sent (reconcile_buy_fill mint qty)
    quoted_fill order_id mint Side.buy qty budget_usd entry sent

module _ {N D T : Type 0} ⦃net : Clients N D⦄ ⦃signing : Signing⦄ ⦃clock : UtcClock N T⦄
    ⦃d : Decimal D⦄ ⦃whole : Whole D⦄ where
  unfoldable pub execute_live_buy : Text → D → Text → Run (LiveExecutor N D) (Fill D T)
  unfolding usd_to_lamports_floor slippage_pct_to_bps call is_usable_quote sign_and_maybe_send
      raw_to_decimal settle_buy
  execute_live_buy mint budget_usd order_id = do
    s ← get
    lamports ← of_reply (usd_to_lamports_floor budget_usd s.sol_usd)
    bps ← of_reply (slippage_pct_to_bps s.max_slippage_pct)
    quote ← call (net.quote sol_mint mint lamports bps)
    require (is_usable_quote quote sol_mint mint s.max_slippage_pct)
    out_decimals ← call (net.fetch_token_decimals mint)
    swap_tx ← call (net.swap quote s.operator_pubkey s.tips.entry)
    sigs ← sign_and_maybe_send swap_tx entry
    settle_buy mint budget_usd order_id (not s.simulate_only)
        (raw_to_decimal quote.out_amount_raw out_decimals)

  unfoldable pub execute_live_sell : Text → D → Text → TipTier → Run (LiveExecutor N D) (Fill D T)
  unfolding decimal_to_raw_floor slippage_pct_to_bps call is_usable_quote sign_and_maybe_send
      tip_for lamports_to_usd if_sent reconcile_sell_fill quoted_fill
  execute_live_sell mint qty order_id tier = do
    s ← get
    in_decimals ← call (net.fetch_token_decimals mint)
    in_raw ← of_reply (decimal_to_raw_floor qty in_decimals)
    bps ← of_reply (slippage_pct_to_bps s.max_slippage_pct)
    quote ← call (net.quote mint sol_mint in_raw bps)
    require (is_usable_quote quote mint sol_mint s.max_slippage_pct)
    swap_tx ← call (net.swap quote s.operator_pubkey (tip_for s.tips tier))
    sigs ← sign_and_maybe_send swap_tx tier
    if_sent (not s.simulate_only) (reconcile_sell_fill mint)
    quoted_fill order_id mint Side.sell qty (lamports_to_usd quote.out_amount_raw s.sol_usd) tier
        (not s.simulate_only)

module _ {N D T : Type 0} ⦃net : Clients N D⦄ ⦃signing : Signing⦄ ⦃clock : UtcClock N T⦄
    ⦃d : Decimal D⦄ ⦃whole : Whole D⦄ ⦃c : Chrono T⦄ where
  unfoldable pub live_buy : Text → D → T → T → Text → Run (LiveExecutor N D) (Fill D T)
  unfolding execute_live_buy
  live_buy mint budget_usd now deadline order_id s =
      if not s.armed
      then (s, err not_armed)
      else if after now deadline
      then (s, err rejected)
      else execute_live_buy mint budget_usd order_id s

  unfoldable pub live_sell : Text → D → Text → TipTier → Run (LiveExecutor N D) (Fill D T)
  unfolding execute_live_sell
  live_sell mint qty order_id tier s =
      if not s.armed then (s, err not_armed) else execute_live_sell mint qty order_id tier s

  unfoldable pub outcome : LiveExecutor N D × Reply (Fill D T) → LiveExecutor N D × Outcome D T
  outcome (s, ok f) = (s, filled f)
  outcome (s, err e) = (s, failed e)

  -- the executor behind the trait
  instance unfoldable pub live_executor : Executor (LiveExecutor N D) D T
  unfolding outcome live_buy live_sell
  live_executor = record {
    buy = λ x mint budget price liquidity now deadline id.
        outcome (live_buy mint budget now deadline id x);
    sell = λ x mint qty price liquidity now id tier. outcome (live_sell mint qty id tier x);
  }
