-- ===== src/Tests/FeedTests.antt =====
-- Examples of the theorems on the messages of the websocket feed.
use hfmcbot.Prelude.{ℕ, ◌≡◌, refl, true, false, [], ◌∷◌, Option, none, some, if◌then◌else◌}
use hfmcbot.Prelude.Int.{ℤ, pos, ◌*ℤ◌, ◌/ℤ◌}
use hfmcbot.Prelude.Text.{Text, bytes, text_eq}
use hfmcbot.Platform.Json.{Json, field, end, obj, str, u64}
use hfmcbot.Platform.Sample.{whole_dollars, whole_floats, whole_from_float}
use hfmcbot.Tests.{cat}
use hfmcbot.Types.{Event, Launchpad}
use hfmcbot.WsFeed.{plan_trade_subs}
use hfmcbot.WsFeed.Enrich.{
  EnrichedLaunch, IsLaunchOf, tick_at, enrich_create, enrich_trade, enrich_create-IsLaunchOf,
  enrich_trade-enrich_create,
}
use hfmcbot.WsFeed.Subs.{IsPlan, plan_trade_subs-IsPlan}
use hfmcbot.WsFeed.Wire.{PumpPortalCreate, PumpPortalTrade}

plan_trade_subs-IsPlan_example :
    IsPlan
      (bytes "a" ∷ bytes "b" ∷ bytes "c" ∷ [])
      (bytes "z" ∷ bytes "b" ∷ [])
      2
      (plan_trade_subs (bytes "a" ∷ bytes "b" ∷ bytes "c" ∷ []) (bytes "z" ∷ bytes "b" ∷ []) 2)
plan_trade_subs-IsPlan_example =
    plan_trade_subs-IsPlan (bytes "a" ∷ bytes "b" ∷ bytes "c" ∷ []) (bytes "z" ∷ bytes "b" ∷ []) 2

-- a message with reserves, of the given type
abbrev message : Text → Json ℕ
message tx_type = obj (
    field (bytes "mint") (str cat) (
      field (bytes "txType") (str tx_type) (
        field (bytes "vTokens") (u64 10)
          (field (bytes "vSol") (u64 30) (field (bytes "initialBuy") (u64 1000000000) end)))))

-- the parser of a wire with two lines
abbrev pub parse : Text → Option (Json ℕ)
parse line =
    if text_eq line (bytes "c")
    then some (message (bytes "create"))
    else if text_eq line (bytes "t")
    then some (message (bytes "sell"))
    else none

abbrev cat_create : PumpPortalCreate ℕ
cat_create = record {
  mint = cat;
  signature = [];
  trader = [];
  bonding_curve = [];
  vtokens_tokens = 10;
  vsol_sol = 30;
  initial_buy_tokens = 1000000000;
  sol_amount = 0;
  market_cap_sol = 0;
  name = [];
  symbol = [];
  uri = [];
  pool = [];
  mayhem = false;
}

abbrev cat_sale : PumpPortalTrade ℕ
cat_sale = record {
  mint = cat;
  signature = [];
  trader = [];
  bonding_curve = [];
  buy = false;
  vtokens_tokens = 10;
  vsol_sol = 30;
  sol_amount = 0;
  market_cap_sol = 0;
}

abbrev cat_enriched : EnrichedLaunch ℤ ℕ
cat_enriched = record {
  event = Event.launch (record {
    mint = cat;
    launchpad = Launchpad.pump_fun;
    created_at = 1000;
    creator_hold_pct = pos 100;
    mint_renounced = false;
    is_honeypot = false;
    liquidity_usd = pos 9000;
    on_curve = true;
    price_usd = pos 450;
  });
  creator_hold_pct = pos 100;
  price_sol_per_token = pos 3;
  sol_usd_used = pos 150;
}

enrich_create-IsLaunchOf_example : IsLaunchOf cat_create 1000 (pos 150) cat_enriched
unfolding enrich_create ◌*ℤ◌ ◌/ℤ◌
enrich_create-IsLaunchOf_example =
    enrich_create-IsLaunchOf cat_create 1000 (pos 150) cat_enriched refl

enrich_trade-enrich_create_example :
    enrich_trade cat_sale 1000 (pos 150) ≡ some (tick_at cat cat_enriched.event)
unfolding enrich_create ◌*ℤ◌ ◌/ℤ◌
enrich_trade-enrich_create_example =
    enrich_trade-enrich_create cat_create cat_sale 1000 (pos 150) cat_enriched refl refl refl
