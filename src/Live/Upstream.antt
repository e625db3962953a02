-- ===== src/Live/Upstream.antt =====
-- The clients of Jupiter, of the Solana RPC and of Jito (src/live.rs), over HTTP as an interface: the
-- methods of `JupiterClient`, `RpcClient` and `JitoClient`, and the interface `Clients` of the
-- executor that they fill.
use hfmcbot.Prelude.{
  ℕ, ◌*◌, Bool, true, false, List, [], ◌∷◌, ◌++◌, map, Option, none, some, length, get_elem?,
}
use hfmcbot.Prelude.Strings.{trim}
use hfmcbot.Prelude.Text.{Text, bytes}
use hfmcbot.Config.{Config}
use hfmcbot.Exec.{transport}
use hfmcbot.Live.Executor.{JupiterQuote, SwapTx, Value}
use hfmcbot.Live.Fields.{or_transport}
use hfmcbot.Live.Landing.{BundleStatus}
use hfmcbot.Live.Replies.{
  Parsers, parse_quote_response, parse_swap_response, parse_string_result, parse_balance_response,
  parse_blockhash_response, parse_token_supply_decimals, parse_token_accounts_balance,
  parse_bundle_status, parse_bundle_id,
}
use hfmcbot.Live.Requests.{
  trim_end_slashes, quote_url, build_swap_request, json_rpc, option, build_send_bundle_request,
  build_get_bundle_statuses_request,
}
use hfmcbot.Live.Rpc.{Reply, err, Post, RpcClient, rpc_call}
use hfmcbot.Live.Run.{Run, ◌>>=◌, get, of_reply}
use hfmcbot.Live.TokenBucket.{TokenBucket, new, try_take}
use hfmcbot.Platform.Decimal.{Decimal}
use hfmcbot.Platform.Json.{Items, nil, cons, str, obj, u64, end, field}

-- HTTP over a state of the world: a GET of a URL and a POST of a JSON body to one, each with an API
-- key or none, whose result is the text of the answer, or none where the request, its HTTP status or
-- its body fails; the monotonic clock, in nanoseconds; and a sleep of so many.
pub record Http (W : Type 0) : Type 0 where
  pub get_text : Text → Option Text → W → W × Option Text
  pub post_json : Text → Option Text → Value → W → W × Option Text
  pub instant : W → ℕ
  pub sleep : ℕ → W → W

pub record JupiterClient : Type 0 where
  pub base_url : Text
  pub api_key : Option Text
  pub bucket : TokenBucket

-- The clients and their world. Of `JitoClient` it has the URL; its tips stand in `LiveExecutor`.
pub record Net (W : Type 0) : Type 0 where
  pub jupiter : JupiterClient
  pub rpc_urls : List Text
  pub rpc_active : ℕ
  pub jito_url : Text
  pub world : W

-- an API key that is not empty
api_key_of : Text → Option Text
api_key_of [] = none
api_key_of (c ∷ key) = some (c ∷ key)

-- the `new` of the clients
unfoldable pub jupiter_client : {D : Type 0} → Config D → ℕ → JupiterClient
unfolding trim_end_slashes new api_key_of trim
jupiter_client cfg now = record {
  base_url = trim_end_slashes cfg.jupiter_url;
  api_key = api_key_of (trim cfg.jupiter_api_key);
  bucket = new (cfg.jupiter_qps * 2) cfg.jupiter_qps now;
}

unfoldable pub rpc_urls_of : {D : Type 0} → Config D → List Text
unfolding trim_end_slashes
rpc_urls_of cfg = trim_end_slashes cfg.rpc_url ∷ map trim_end_slashes cfg.rpc_fallback_urls

module _ {W : Type 0} ⦃http : Http W⦄ where
  unfoldable pub new_net : {D : Type 0} → Config D → W → Net W
  unfolding jupiter_client rpc_urls_of trim_end_slashes
  new_net cfg w = record {
    jupiter = jupiter_client cfg (http.instant w);
    rpc_urls = rpc_urls_of cfg;
    rpc_active = 0;
    jito_url = trim_end_slashes cfg.jito_url;
    world = w;
  }

  -- a request of Jupiter
  unfoldable pub exchange : (W → W × Option Text) → Run (Net W) Text
  unfolding or_transport
  exchange f s = let (w, answer) = f s.world in (record s { world = w }, or_transport answer)

  -- `try_take(1)`, with the clock read once for the two readings of the refill
  unfoldable pub take_token : Net W → Net W × Bool
  unfolding try_take
  take_token s =
      let now = http.instant s.world in
      let (b, granted) = try_take s.jupiter.bucket now now 1 in
      (record s { jupiter = record (s.jupiter) { bucket = b } }, granted)

  if_granted : Net W × Bool → Run (Net W) Text → Net W × Reply Text
  if_granted (s, true) request = request s
  if_granted (s, false) request = (s, err transport)

  -- the gate of the governor before a request
  unfoldable pub governed : Run (Net W) Text → Run (Net W) Text
  unfolding take_token if_granted
  governed request s = if_granted (take_token s) request

  unfoldable pub quote_request : Text → Text → ℕ → ℕ → Run (Net W) Text
  unfolding exchange quote_url
  quote_request input_mint output_mint amount_raw slippage_bps = do
    s ← get
    exchange (
        http.get_text (quote_url s.jupiter.base_url input_mint output_mint amount_raw slippage_bps)
          s.jupiter.api_key)

  unfoldable pub swap_request : Value → Text → ℕ → Run (Net W) Text
  unfolding exchange build_swap_request
  swap_request quote_raw user_pubkey fee = do
    s ← get
    exchange (
        http.post_json (s.jupiter.base_url ++ bytes "/swap") s.jupiter.api_key
          (build_swap_request quote_raw user_pubkey fee))

  -- `post_one` at the endpoint of a number, which `rpc_call` takes in range
  unfoldable pub post_one : List Text → Value → Post W
  unfolding or_transport
  post_one urls body w i = elim (get_elem? urls i) [
    | some url ↦ let (w', answer) = http.post_json url none body w in (w', or_transport answer)
    | none ↦ (w, err transport)
  ]

  unfoldable pub called : Net W → (W × RpcClient) × Reply Text → Net W × Reply Text
  called s ((w, client), reply) = (record s { rpc_active = client.active; world = w }, reply)

  unfoldable pub rpc_request : Text → Items ℕ → Run (Net W) Text
  unfolding rpc_call called post_one json_rpc
  rpc_request method params s = called s (
      rpc_call (post_one s.rpc_urls (json_rpc 1 method params))
        (record { endpoints = length s.rpc_urls; active = s.rpc_active }) s.world)

  -- a POST to the bundles of Jito
  unfoldable pub bundles_request : Value → Run (Net W) Text
  unfolding exchange
  bundles_request body = do
    s ← get
    exchange (http.post_json (s.jito_url ++ bytes "/api/v1/bundles") none body)

module _ {W D : Type 0} (parsers : Parsers D) ⦃http : Http W⦄ where
  -- `quote` and `swap` of `JupiterClient`
  unfoldable pub quote : Text → Text → ℕ → ℕ → Run (Net W) (JupiterQuote D)
  unfolding governed quote_request parse_quote_response
  quote input_mint output_mint amount_raw slippage_bps = do
    body ← governed (quote_request input_mint output_mint amount_raw slippage_bps)
    of_reply (parse_quote_response parsers body)

  unfoldable pub swap : JupiterQuote D → Text → ℕ → Run (Net W) SwapTx
  unfolding governed swap_request parse_swap_response
  swap q user_pubkey fee = do
    body ← governed (swap_request q.raw user_pubkey fee)
    of_reply (parse_swap_response parsers body)

  unfoldable pub fetch_recent_blockhash : Run (Net W) (Text × ℕ)
  unfolding rpc_request parse_blockhash_response
  fetch_recent_blockhash = do
    body ←
        rpc_request (bytes "getLatestBlockhash")
          (cons (option (bytes "commitment") (bytes "finalized")) nil)
    of_reply (parse_blockhash_response parsers body)

  unfoldable pub fetch_token_decimals : Text → Run (Net W) ℕ
  unfolding rpc_request parse_token_supply_decimals
  fetch_token_decimals mint = do
    body ← rpc_request (bytes "getTokenSupply") (cons (str mint) nil)
    of_reply (parse_token_supply_decimals parsers body)

  unfoldable pub request_airdrop : Text → ℕ → Run (Net W) Text
  unfolding rpc_request parse_string_result
  request_airdrop pubkey lamports = do
    body ← rpc_request (bytes "requestAirdrop") (cons (str pubkey) (cons (u64 lamports) nil))
    of_reply (parse_string_result parsers body)

  unfoldable pub get_balance : Text → Run (Net W) ℕ
  unfolding rpc_request parse_balance_response
  get_balance pubkey = do
    body ← rpc_request (bytes "getBalance") (cons (str pubkey) nil)
    of_reply (parse_balance_response parsers body)

  unfoldable pub send_transaction : Text → Run (Net W) Text
  unfolding rpc_request parse_string_result
  send_transaction tx_b64 = do
    body ← rpc_request (bytes "sendTransaction") (
        cons (str tx_b64) (
          cons
            (obj (
              field (bytes "encoding") (str (bytes "base64"))
                (field (bytes "preflightCommitment") (str (bytes "confirmed")) end)))
            nil))
    of_reply (parse_string_result parsers body)

  unfoldable pub send_bundle : ℕ → List Text → Run (Net W) Text
  unfolding bundles_request build_send_bundle_request parse_bundle_id
  send_bundle id base64_txs = do
    body ← bundles_request (build_send_bundle_request id base64_txs)
    of_reply (parse_bundle_id parsers body)

  unfoldable pub get_bundle_statuses : ℕ → Text → Run (Net W) BundleStatus
  unfolding bundles_request build_get_bundle_statuses_request parse_bundle_status
  get_bundle_statuses id bundle_uuid = do
    body ← bundles_request (build_get_bundle_statuses_request id (bundle_uuid ∷ []))
    of_reply (parse_bundle_status parsers body)

  unfoldable pub fetch_token_balance : ⦃d : Decimal D⦄ → Text → Text → Run (Net W) D
  unfolding rpc_request parse_token_accounts_balance
  fetch_token_balance owner mint = do
    body ← rpc_request (bytes "getTokenAccountsByOwner") (
        cons (str owner) (
          cons (option (bytes "mint") mint)
            (cons (option (bytes "encoding") (bytes "jsonParsed")) nil)))
    of_reply (parse_token_accounts_balance parsers body)
