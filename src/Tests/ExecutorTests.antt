-- ===== src/Tests/ExecutorTests.antt =====
-- Examples of the theorems on the live executor.
use hfmcbot.Prelude.{ℕ, suc, ◌≡◌, refl, true, false, [], ◌∷◌, Option, none, some}
use hfmcbot.Prelude.Int.{ℤ, pos, negsuc, ◌*ℤ◌, ◌/ℤ◌, ◌+ℤ◌, ◌-ℤ◌}
use hfmcbot.Prelude.Text.{bytes, text_eq}
use hfmcbot.Exec.{TipTier}
use hfmcbot.Live.Executor.{LiveExecutor, Clients, Signing, UtcClock, live_buy, live_sell}
use hfmcbot.Live.Reconciled.{IsCovered, live_buy-IsCovered}
use hfmcbot.Live.Rpc.{ok}
use hfmcbot.Live.Run.{◌>>=◌, ◌>>◌, require}
use hfmcbot.Live.Simulated.{KeptByReads, live_orders_simulated}
use hfmcbot.Platform.Decimal.{Whole}
use hfmcbot.Platform.Json.{null}
use hfmcbot.Platform.Sample.{whole_dollars, unix_seconds}
use hfmcbot.Tests.{cat}
use hfmcbot.Types.{Fill, Side}

-- the number in the text of whole dollars
abbrev pub whole_number : ℤ → Option ℕ
whole_number (pos n) = some n
whole_number (negsuc n) = none

instance abbrev pub whole_numbers : Whole ℤ
whole_numbers = record { parse_u64 = whole_number }

-- a network that counts the bundles, quotes five units of anything, and shows a balance of five
instance abbrev five_of_all : Clients ℕ ℤ
five_of_all = record {
  quote = λ from to amount bps w. (
    w,
    ok (record {
      input_mint = from;
      output_mint = to;
      in_amount_raw = amount;
      out_amount_raw = 5;
      other_amount_threshold_raw = 5;
      swap_mode = bytes "ExactIn";
      slippage_bps = bps;
      price_impact_pct = pos 0;
      raw = null;
    }),
  );
  swap = λ quote operator fee w.
      (w, ok (record { tx_base64 = bytes "swap"; last_valid_block_height = 9 }));
  fetch_token_decimals = λ mint w. (w, ok 0);
  fetch_token_balance = λ operator mint w. (w, ok (pos 5));
  fetch_recent_blockhash = λ w. (w, ok (bytes "hash", 9));
  send_bundle = λ id txs w. (suc w, ok (bytes "uuid"));
  landing = λ uuid secs w. (w, ok []);
  instant = λ w. 0;
}

instance abbrev pub any_key : Signing
any_key = record {
  is_key_pair = λ key. true;
  sign_versioned_tx = λ tx key hash. ok tx;
  parse_tip_account = λ account. ok account;
  build_tip_tx = λ key account lamports hash. ok (bytes "tip");
}

instance abbrev stopped_clock : UtcClock ℕ ℕ
stopped_clock = record { utc_now = λ w. 1000 }

abbrev simulator : LiveExecutor ℕ ℤ
simulator = record {
  operator_pubkey = bytes "operator";
  signer_bytes = some (7 ∷ []);
  tips = record { entry = 0; flip = 2000; conviction = 1000 };
  tip_accounts = bytes "tips" ∷ [];
  net = 0;
  max_slippage_pct = pos 20;
  sol_usd = pos 150;
  simulate_only = true;
  bundle_timeout_secs = 30;
  cached_blockhash = none;
  blockhash_ttl_secs = 10;
  reconcile_dust_tokens = pos 0;
  req_id = 1;
  armed = true;
}

-- no bundle yet
five_of_all-KeptByReads : KeptByReads {N = ℕ} ℤ (λ w. w ≡ 0)
five_of_all-KeptByReads = record {
  by_quote = λ a b n m w p. p;
  by_swap = λ q a n w p. p;
  by_decimals = λ a w p. p;
  by_balance = λ a b w p. p;
  by_blockhash = λ w p. p;
}

live_orders_simulated_example :
    ((live_buy {T = ℕ} cat (pos 300) 1000 1300 (bytes "cat#1") simulator).0.net ≡ 0)
    × ((live_sell {T = ℕ} cat (pos 2) (bytes "cat#1") TipTier.flip_exit simulator).0.net ≡ 0)
live_orders_simulated_example =
    live_orders_simulated ℕ (λ w. w ≡ 0) five_of_all-KeptByReads simulator cat (pos 300) (pos 2)
      1000 1300 (bytes "cat#1") TipTier.flip_exit refl refl

abbrev sender : LiveExecutor ℕ ℤ
sender = record simulator { simulate_only = false }

-- after one bundle
abbrev sent : LiveExecutor ℕ ℤ
sent = record sender { net = 1; cached_blockhash = some ((bytes "hash", 9), 0); req_id = 2 }

abbrev pub five_cats : Fill ℤ ℕ
five_cats = record {
  order_id = bytes "cat#1";
  mint = cat;
  side = Side.buy;
  qty = pos 5;
  price_usd = pos 60;
  notional_usd = pos 300;
  fee_usd = pos 0;
  ts = 1000;
}

live_buy-IsCovered_example : IsCovered cat (pos 300) (bytes "cat#1") sent five_cats
unfolding live_buy ◌>>=◌ ◌>>◌ require ◌*ℤ◌ ◌/ℤ◌ ◌+ℤ◌ ◌-ℤ◌ text_eq
live_buy-IsCovered_example =
    live_buy-IsCovered cat (pos 300) 1000 1300 (bytes "cat#1") sender sent five_cats refl refl
