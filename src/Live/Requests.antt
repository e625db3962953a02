-- ===== src/Live/Requests.antt =====
-- The requests of the live clients (src/live.rs): their URLs and their JSON bodies.
use hfmcbot.Prelude.{ℕ, true, List, [], ◌∷◌, ◌++◌, ◌==◌, if◌then◌else◌}
use hfmcbot.Prelude.Text.{Text, bytes, show_u64}
use hfmcbot.Live.Executor.{Value}
use hfmcbot.Platform.Json.{Items, nil, cons, end, field, bool, u64, str, arr, obj}

-- `trim_end_matches('/')`, with the byte 47 of a slash: the slashes that nothing follows are dropped
keep_inner : ℕ → Text → Text
keep_inner c [] = if c == 47 then [] else c ∷ []
keep_inner c (d ∷ s) = c ∷ d ∷ s

unfoldable pub trim_end_slashes : Text → Text
unfolding keep_inner
trim_end_slashes [] = []
trim_end_slashes (c ∷ s) = let rest = trim_end_slashes s in keep_inner c rest

unfoldable pub quote_url : Text → Text → Text → ℕ → ℕ → Text
unfolding trim_end_slashes show_u64
quote_url base_url input_mint output_mint amount_raw slippage_bps =
    trim_end_slashes base_url
    ++ bytes "/quote?inputMint="
    ++ input_mint
    ++ bytes "&outputMint="
    ++ output_mint
    ++ bytes "&amount="
    ++ show_u64 amount_raw
    ++ bytes "&slippageBps="
    ++ show_u64 slippage_bps
    ++ bytes
        "&swapMode=ExactIn&onlyDirectRoutes=true&forJitoBundle=true&restrictIntermediateTokens=true"

unfoldable pub build_swap_request : Value → Text → ℕ → Value
build_swap_request quote_raw user_pubkey prioritization_fee_lamports = obj (
    field (bytes "quoteResponse") quote_raw (
      field (bytes "userPublicKey") (str user_pubkey) (
        field (bytes "wrapAndUnwrapSol") (bool true) (
          field (bytes "dynamicComputeUnitLimit") (bool true)
            (field (bytes "prioritizationFeeLamports") (u64 prioritization_fee_lamports) end)))))

-- a JSON-RPC call
unfoldable pub json_rpc : ℕ → Text → Items ℕ → Value
json_rpc id method params = obj (
    field (bytes "jsonrpc") (str (bytes "2.0")) (
      field (bytes "id") (u64 id)
        (field (bytes "method") (str method) (field (bytes "params") (arr params) end))))

-- an array of texts
unfoldable pub strs : List Text → Items ℕ
strs [] = nil
strs (s ∷ texts) = cons (str s) (strs texts)

-- an object of one text
abbrev pub option : Text → Text → Value
option k s = obj (field k (str s) end)

unfoldable pub build_send_bundle_request : ℕ → List Text → Value
unfolding json_rpc strs
build_send_bundle_request id base64_txs =
    json_rpc id (bytes "sendBundle")
      (cons (arr (strs base64_txs)) (cons (option (bytes "encoding") (bytes "base64")) nil))

unfoldable pub build_get_bundle_statuses_request : ℕ → List Text → Value
unfolding json_rpc strs
build_get_bundle_statuses_request id uuids =
    json_rpc id (bytes "getBundleStatuses") (cons (arr (strs uuids)) nil)
