-- ===== src/Live/Replies.antt =====
-- The readers of the network's replies (src/live.rs): what a body of Jupiter, of the RPC or of Jito
-- says, or that it cannot be read. Messages of errors are left out.
use hfmcbot.Prelude.{ℕ, Bool, true, false, not, List, [], ◌∷◌, Option, none, some, if◌then◌else◌}
use hfmcbot.Prelude.Strings.{parse_u64}
use hfmcbot.Prelude.Text.{Text, bytes}
use hfmcbot.Exec.{rejected}
use hfmcbot.Live.Executor.{JupiterQuote, SwapTx, Value, or_rejected}
use hfmcbot.Live.Landing.{BundleStatus, SigStatus}
use hfmcbot.Live.Money.{raw_to_decimal}
use hfmcbot.Live.Rpc.{Reply, ok, err}
use hfmcbot.Platform.Decimal.{Decimal, dec, ◌⊕◌}
use hfmcbot.Platform.Json.{Json, Items, nil, cons, get, first_item}
use hfmcbot.Live.Fields.{
  ◌>>=◌, ◌>>◌, and_then, or_transport, non_empty, u8_of, get_in, str_at, u64_at, array_at, is_null,
  is_there, is_failure, is_sig_failure, is_final, texts_or_none,
}

-- What is read by other crates: JSON and the `Decimal` of a text, and whether a text is a
-- hash in base 58.
pub record Parsers (D : Type 0) : Type 0 where
  pub json : Text → Option Value
  pub decimal_of : Text → Option D
  pub is_hash : Text → Bool

module _ {F : Type 0} where
  -- a bundle's status by its first entry
  unfoldable pub bundle_entry : Option (Json F) → BundleStatus
  unfolding is_failure get is_final str_at array_at texts_or_none
  bundle_entry none = BundleStatus.pending
  bundle_entry (some entry) =
      if is_failure (get entry (bytes "err"))
      then BundleStatus.failed
      else if is_final (str_at entry (bytes "confirmation_status" ∷ []))
      then BundleStatus.landed (texts_or_none (array_at entry (bytes "transactions" ∷ [])))
      else BundleStatus.pending

  sig_by_status : Json F → SigStatus
  unfolding is_sig_failure get is_final str_at
  sig_by_status entry =
      if is_sig_failure (get entry (bytes "err"))
      then SigStatus.failed
      else if is_final (str_at entry (bytes "confirmationStatus" ∷ []))
      then SigStatus.confirmed
      else SigStatus.pending

  unfoldable pub sig_entry : Json F → SigStatus
  unfolding is_null sig_by_status
  sig_entry entry = if is_null entry then SigStatus.pending else sig_by_status entry

abbrev result_value : List Text
result_value = bytes "result" ∷ bytes "value" ∷ []

-- the account's token amount, in an entry of `getTokenAccountsByOwner`
abbrev token_amount : List Text
token_amount =
    bytes "account" ∷ bytes "data" ∷ bytes "parsed" ∷ bytes "info" ∷ bytes "tokenAmount" ∷ []

module _ {D : Type 0} (parsers : Parsers D) where
  -- `quote_field`
  unfoldable pub quote_field : Value → Text → Reply Text
  unfolding or_rejected str_at
  quote_field v name = or_rejected (str_at v (name ∷ []))

  unfoldable pub quote_u64 : Value → Text → Reply ℕ
  unfolding quote_field or_rejected parse_u64
  quote_u64 v name = do s ← quote_field v name; or_rejected (parse_u64 s)

  unfoldable pub parse_quote_response : Text → Reply (JupiterQuote D)
  unfolding or_rejected u64_at quote_field quote_u64
  parse_quote_response body = do
    v ← or_rejected (parsers.json body)
    slippage_bps ← or_rejected (u64_at v (bytes "slippageBps" ∷ []))
    impact ← quote_field v (bytes "priceImpactPct")
    price_impact_pct ← or_rejected (parsers.decimal_of impact)
    input_mint ← quote_field v (bytes "inputMint")
    output_mint ← quote_field v (bytes "outputMint")
    in_amount_raw ← quote_u64 v (bytes "inAmount")
    out_amount_raw ← quote_u64 v (bytes "outAmount")
    other_amount_threshold_raw ← quote_u64 v (bytes "otherAmountThreshold")
    swap_mode ← quote_field v (bytes "swapMode")
    ok (record {
      input_mint = input_mint;
      output_mint = output_mint;
      in_amount_raw = in_amount_raw;
      out_amount_raw = out_amount_raw;
      other_amount_threshold_raw = other_amount_threshold_raw;
      swap_mode = swap_mode;
      slippage_bps = slippage_bps;
      price_impact_pct = price_impact_pct;
      raw = v;
    })

  unfoldable pub parse_swap_response : Text → Reply SwapTx
  unfolding or_rejected u64_at str_at and_then non_empty
  parse_swap_response body = do
    v ← or_rejected (parsers.json body)
    tx_base64 ← or_rejected (and_then (str_at v (bytes "swapTransaction" ∷ [])) non_empty)
    height ← or_rejected (u64_at v (bytes "lastValidBlockHeight" ∷ []))
    ok (record { tx_base64 = tx_base64; last_valid_block_height = height })

  -- an RPC error is a refusal
  refused : Bool → Reply (Unit {0})
  refused true = err rejected
  refused false = ok tt

  unfoldable pub parse_string_result : Text → Reply Text
  unfolding or_rejected is_there get refused str_at and_then non_empty
  parse_string_result body = do
    v ← or_rejected (parsers.json body)
    refused (is_there (get v (bytes "error")))
    or_rejected (and_then (str_at v (bytes "result" ∷ [])) non_empty)

  unfoldable pub parse_balance_response : Text → Reply ℕ
  unfolding or_rejected u64_at
  parse_balance_response body = do
    v ← or_rejected (parsers.json body)
    or_rejected (u64_at v result_value)

  unfoldable pub parse_sig_status : Text → Reply SigStatus
  unfolding or_rejected array_at and_then sig_entry
  parse_sig_status body = do
    v ← or_rejected (parsers.json body)
    entry ← or_rejected (and_then (array_at v result_value) first_item)
    ok (sig_entry entry)

  unfoldable pub parse_blockhash_response : Text → Reply (Text × ℕ)
  unfolding or_rejected get_in str_at and_then non_empty u64_at refused
  parse_blockhash_response body = do
    v ← or_rejected (parsers.json body)
    value ← or_rejected (get_in v result_value)
    blockhash ← or_rejected (and_then (str_at value (bytes "blockhash" ∷ [])) non_empty)
    refused (not (parsers.is_hash blockhash))
    height ← or_rejected (u64_at value (bytes "lastValidBlockHeight" ∷ []))
    ok (blockhash, height)

  unfoldable pub parse_token_supply_decimals : Text → Reply ℕ
  unfolding or_rejected u64_at and_then u8_of
  parse_token_supply_decimals body = do
    v ← or_rejected (parsers.json body)
    or_rejected (and_then (u64_at v (bytes "result" ∷ bytes "value" ∷ bytes "decimals" ∷ [])) u8_of)

  -- `parse_bundle_status`, whose errors are `Transport`
  unfoldable pub parse_bundle_status : Text → Reply BundleStatus
  unfolding or_transport array_at and_then bundle_entry
  parse_bundle_status body = do
    v ← or_transport (parsers.json body)
    ok (bundle_entry (and_then (array_at v result_value) first_item))

  -- the answer of `send_bundle`
  unfoldable pub parse_bundle_id : Text → Reply Text
  unfolding or_transport str_at
  parse_bundle_id body = do
    v ← or_transport (parsers.json body)
    or_transport (str_at v (bytes "result" ∷ []))

module _ {D : Type 0} (parsers : Parsers D) ⦃d : Decimal D⦄ where
  -- the amount of an entry by its text, or by its base units and decimals
  unfoldable pub amount_of : Value → Option Text → Reply D
  unfolding or_rejected and_then str_at u64_at u8_of raw_to_decimal parse_u64
  amount_of amount (some s) = or_rejected (parsers.decimal_of s)
  amount_of amount none = do
    raw ← or_rejected (and_then (str_at amount (bytes "amount" ∷ [])) parse_u64)
    decimals ← or_rejected (and_then (u64_at amount (bytes "decimals" ∷ [])) u8_of)
    ok (raw_to_decimal raw decimals)

  unfoldable pub entry_amount : Value → Reply D
  unfolding or_rejected get_in amount_of str_at
  entry_amount entry = do
    amount ← or_rejected (get_in entry token_amount)
    amount_of amount (str_at amount (bytes "uiAmountString" ∷ []))

  -- the loop over the entries, with the total so far
  unfoldable pub sum_amounts : D → Items ℕ → Reply D
  unfolding entry_amount
  sum_amounts total nil = ok total
  sum_amounts total (cons entry entries) =
      entry_amount entry >>= λ amount. sum_amounts (total ⊕ amount) entries

  unfoldable pub parse_token_accounts_balance : Text → Reply D
  unfolding or_rejected array_at sum_amounts
  parse_token_accounts_balance body = do
    v ← or_rejected (parsers.json body)
    entries ← or_rejected (array_at v result_value)
    sum_amounts (dec 0) entries
