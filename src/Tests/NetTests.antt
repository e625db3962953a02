-- ===== src/Tests/NetTests.antt =====
-- Examples of the theorems on the clients of the network, on signing and on the key.
use hfmcbot.Prelude.{
  ℕ, suc, ◌+◌, ◌≤◌, refl, arith, true, false, List, [], ◌∷◌, Option, none, some, if◌then◌else◌,
}
use hfmcbot.Prelude.Int.{ℤ, pos, ◌*ℤ◌, ◌/ℤ◌, ◌+ℤ◌, ◌-ℤ◌}
use hfmcbot.Prelude.Strings.{parse_u64}
use hfmcbot.Prelude.Text.{Text, bytes, text_eq}
use hfmcbot.Live.Ends.{IsMonotonic, LoopEnds, start_landing-LoopEnds}
use hfmcbot.Live.Await.{start_landing}
use hfmcbot.Boot.{Machine, Booted, BootResult, up, refused, paper_trader, idle, boot}
use hfmcbot.Engine.State
use hfmcbot.Exec.{paper_new}
use hfmcbot.Boot.Arms.{IsBooted, boot-IsBooted}
use hfmcbot.Config.Env.{Env}
use hfmcbot.Keys.{
  KeySource, KeyCrates, KeyTexts, LoadedKey, load_keypair_opt, IsLoadedOf,
  load_keypair_opt-IsLoadedOf,
}
use hfmcbot.Live.Signing.{
  Solana, VersionedMessage, legacy, v0, IsOwnTx, sign_versioned_tx_b64,
  sign_versioned_tx_b64-IsOwnTx,
}
use hfmcbot.Live.Run.{◌>>=◌}
use hfmcbot.Persist.Files.{Format}
use hfmcbot.Live.Executor.{LiveExecutor, sol_mint, UtcClock, Value}
use hfmcbot.Live.Fields.{str_at}
use hfmcbot.Live.Replies.{Parsers}
use hfmcbot.Live.Upstream.{Http, Net}
use hfmcbot.Platform.Json.{nil, cons, str, u64, arr, obj, field, end}
use hfmcbot.Platform.Sample.{whole_dollars, unix_seconds}
use hfmcbot.Tests.{cat, paper_config}
use hfmcbot.Tests.ExecutorTests.{whole_numbers, any_key}

abbrev or_swap : Option Text → Text
or_swap none = bytes "swap"
or_swap (some method) = method

-- a network that answers a request with its method; a request takes a nanosecond
instance abbrev echo : Http ℕ
unfolding str_at
echo = record {
  get_text = λ url key w. (suc w, some (bytes "quote"));
  post_json = λ url key body w. (suc w, some (or_swap (str_at body (bytes "method" ∷ []))));
  instant = λ w. w;
  sleep = λ n w. w + n;
}

le_suc : (w : ℕ) → w ≤ suc w
le_suc w = omega arith

le_same : (w : ℕ) → w ≤ w
le_same w = omega arith

echo-IsMonotonic : IsMonotonic echo
unfolding echo
echo-IsMonotonic = record {
  over_post = λ url key body w. le_suc w;
  over_sleep = λ n w. le_same (w + n);
}

abbrev entry : Text → Value → Value
entry key v = obj (field key v end)

abbrev result : Value → Value
result v = entry (bytes "result") v

abbrev value : Value → Value
value v = result (entry (bytes "value") v)

abbrev quote_json : Value
quote_json = obj (
    field (bytes "slippageBps") (u64 2000) (
      field (bytes "priceImpactPct") (str (bytes "0")) (
        field (bytes "inputMint") (str sol_mint) (
          field (bytes "outputMint") (str cat) (
            field (bytes "inAmount") (str (bytes "2000000000")) (
              field (bytes "outAmount") (str (bytes "5")) (
                field (bytes "otherAmountThreshold") (str (bytes "4"))
                  (field (bytes "swapMode") (str (bytes "ExactIn")) end))))))))

abbrev swap_json : Value
swap_json = obj (
    field (bytes "swapTransaction") (str (bytes "tx"))
      (field (bytes "lastValidBlockHeight") (u64 9) end))

abbrev blockhash_json : Value
blockhash_json = value (
    obj (
      field (bytes "blockhash") (str (bytes "hash"))
        (field (bytes "lastValidBlockHeight") (u64 9) end)))

abbrev landed_json : Value
landed_json = value (
    arr (
      cons
        (obj (
          field (bytes "confirmation_status") (str (bytes "finalized"))
            (field (bytes "transactions") (arr (cons (str (bytes "sig")) nil)) end)))
        nil))

abbrev balance_json : Value
balance_json = value (
    arr (
      cons
        (entry (bytes "account") (
          entry (bytes "data") (
            entry (bytes "parsed") (
              entry (bytes "info")
                (entry (bytes "tokenAmount") (entry (bytes "uiAmountString") (str (bytes "5"))))))))
        nil))

abbrev answers : List (Text × Value)
answers =
    (bytes "quote", quote_json)
    ∷ (bytes "swap", swap_json)
    ∷ (bytes "getLatestBlockhash", blockhash_json)
    ∷ (bytes "getTokenSupply", value (entry (bytes "decimals") (u64 0)))
    ∷ (bytes "getTokenAccountsByOwner", balance_json)
    ∷ (bytes "sendBundle", result (str (bytes "uuid")))
    ∷ (bytes "getBundleStatuses", landed_json)
    ∷ []

abbrev answer_of : List (Text × Value) → Text → Option Value
unfolding text_eq
answer_of [] body = none
answer_of ((method, v) ∷ rest) body =
    let found = answer_of rest body in if text_eq method body then some v else found

abbrev whole_text : Option ℕ → Option ℤ
whole_text none = none
whole_text (some n) = some (pos n)

abbrev parsers : Parsers ℤ
unfolding parse_u64
parsers = record {
  json = answer_of answers;
  decimal_of = λ s. whole_text (parse_u64 s);
  is_hash = λ s. true;
}

abbrev net : Net ℕ
net = record {
  jupiter = record {
    base_url = bytes "jup";
    api_key = none;
    bucket = record { capacity = 10; available = 10; refill_per_sec = 1; last_refill = 0 };
  };
  rpc_urls = bytes "rpc" ∷ [];
  rpc_active = 0;
  jito_url = bytes "jito";
  world = 0;
}

start_landing-LoopEnds_example :
    LoopEnds parsers (bytes "uuid") 30000000000 (start_landing parsers (bytes "uuid") 30 net)
unfolding echo
start_landing-LoopEnds_example =
    start_landing-LoopEnds parsers echo-IsMonotonic (bytes "uuid") 30 net

instance abbrev stopped_clock : UtcClock (Net ℕ) ℕ
stopped_clock = record { utc_now = λ w. 1000 }

abbrev sender : LiveExecutor (Net ℕ) ℤ
sender = record {
  operator_pubkey = bytes "operator";
  signer_bytes = some (7 ∷ []);
  tips = record { entry = 0; flip = 2000; conviction = 1000 };
  tip_accounts = bytes "tips" ∷ [];
  net = net;
  max_slippage_pct = pos 20;
  sol_usd = pos 150;
  simulate_only = false;
  bundle_timeout_secs = 30;
  cached_blockhash = none;
  blockhash_ttl_secs = 10;
  reconcile_dust_tokens = pos 0;
  req_id = 1;
  armed = true;
}

-- after the order
abbrev sent : LiveExecutor (Net ℕ) ℤ
sent = record sender {
  net = record net {
    world = 7;
    jupiter = record (net.jupiter) { bucket = record (net.jupiter.bucket) { available = 8 } };
  };
  cached_blockhash = some ((bytes "hash", 9), 4);
  req_id = 2;
}

-- bytes for everything: keys, messages and transactions are their own bytes, and the payer of a
-- message is its first byte
abbrev set_tail : Text → List ℕ → List ℕ
set_tail hash [] = []
set_tail hash (payer ∷ rest) = payer ∷ hash

abbrev payers : VersionedMessage (List ℕ) (List ℕ) → List Text
payers (legacy []) = []
payers (legacy (payer ∷ rest)) = (payer ∷ []) ∷ []
payers (v0 []) = []
payers (v0 (payer ∷ rest)) = (payer ∷ []) ∷ []

abbrev message_bytes : VersionedMessage (List ℕ) (List ℕ) → List ℕ
message_bytes (legacy bs) = bs
message_bytes (v0 bs) = bs

abbrev plain : Solana (List ℕ) Text (List ℕ) (List ℕ) (List ℕ)
plain = record {
  key_pair = some;
  pubkey = λ key. key;
  pubkey_of = some;
  hash_of = some;
  message_of = λ bs. some (v0 bs);
  account_keys = payers;
  legacy_with_blockhash = set_tail;
  v0_with_blockhash = set_tail;
  legacy_message = λ ix payer. payer;
  try_new = λ m key. some (message_bytes m);
  serialize = some;
  base64_of = some;
  base64 = λ b. b;
}

sign_versioned_tx_b64-IsOwnTx_example :
    IsOwnTx plain (7 ∷ 1 ∷ []) (7 ∷ []) (bytes "hash") (7 ∷ bytes "hash")
unfolding sign_versioned_tx_b64 text_eq
sign_versioned_tx_b64-IsOwnTx_example =
    sign_versioned_tx_b64-IsOwnTx plain (7 ∷ 1 ∷ []) (7 ∷ []) (bytes "hash") (7 ∷ bytes "hash") refl

-- a key is its bytes
instance abbrev byte_keys : KeyCrates (List ℕ)
byte_keys = record {
  of_bytes = some;
  of_seed = some;
  pubkey = λ key. bytes "operator";
  to_bytes = λ key. key;
}

-- a text is the bytes of its characters
instance abbrev plain_texts : KeyTexts
plain_texts = record { base58 = some; json_bytes = λ s. none }

abbrev key_text : Text
key_text = bytes "0123456789abcdef0123456789abcdef"

abbrev variables : List (Text × Text)
variables =
    (bytes "HFM_MODE", bytes "live")
    ∷ (bytes "SECRET_KEY", key_text)
    ∷ (bytes "HFM_SOL_USD", bytes "150")
    ∷ (bytes "HFM_SOAK_WS_URL", bytes "wss://feed")
    ∷ (bytes "HFM_JITO_TIP_ACCOUNT", bytes "tips")
    ∷ []

abbrev variable_of : List (Text × Text) → Env
unfolding text_eq
variable_of [] name = none
variable_of ((key, value) ∷ rest) name =
    let found = variable_of rest name in if text_eq key name then some value else found

abbrev env : Env
env = variable_of variables

abbrev own_key : LoadedKey (List ℕ)
own_key = record {
  keypair = key_text;
  source = KeySource.secret_key;
  pubkey_base58 = bytes "operator";
}

load_keypair_opt-IsLoadedOf_example : IsLoadedOf env own_key
unfolding load_keypair_opt variable_of text_eq
load_keypair_opt-IsLoadedOf_example = load_keypair_opt-IsLoadedOf env own_key refl

abbrev machine : Machine ℕ ℕ
machine = record {
  env = env;
  argument = none;
  files = [];
  log_opens = true;
  log_reopens = true;
  now = 1000;
  world = 0;
}

abbrev no_format : Format ℤ ℕ
no_format = record { record_text = λ r. []; state_text = λ s. []; state_of = λ s. none }

-- what is booted, or an idle engine on paper
abbrev up_or_idle : BootResult (Booted ℕ ℤ ℕ) → Booted ℕ ℤ ℕ
unfolding State.new paper_new
up_or_idle (up b) = b
up_or_idle (refused e) = record {
  engine = State.new paper_config (paper_trader (paper_new paper_config)) [] 1000;
  plan = idle;
  paged = false;
}

abbrev live_boot : Booted ℕ ℤ ℕ
unfolding boot
live_boot = up_or_idle (boot (List ℕ) parsers no_format (λ s. true) machine)

boot-IsBooted_example : IsBooted (List ℕ) parsers (λ s. true) machine live_boot
unfolding boot live_boot up_or_idle echo parsers answer_of variable_of text_eq ◌*ℤ◌ ◌/ℤ◌ ◌+ℤ◌ ◌-ℤ◌
    ◌>>=◌
boot-IsBooted_example = boot-IsBooted (List ℕ) parsers no_format (λ s. true) machine live_boot refl
