-- ===== src/WsFeed/Enrich.antt =====
-- What a create and a trade become (src/wsfeed.rs): `enrich_create`, `enrich_trade` and the raw
-- events. `base58` is `bs58::decode`.
use hfmcbot.Prelude.{
  ℕ, ◌≡◌, true, false, ◌||◌, List, Option, none, some, arith, refl, sym, ap, if◌then◌else◌,
}
use hfmcbot.Prelude.Text.{Text}
use hfmcbot.Ingest.{RawFeedEvent, RawKind, hex}
use hfmcbot.Platform.Decimal.{Decimal, le, lt, gt, dec, ◌⊗◌, ◌⊘◌}
use hfmcbot.Platform.Floats.{FromFloat}
use hfmcbot.Platform.Json.{◌>>=◌, bind-some}
use hfmcbot.Types.{Event, launch, price, Launch, Launchpad}
use hfmcbot.WsFeed.Wire.{PumpPortalCreate, PumpPortalTrade}

pub record EnrichedLaunch (D T : Type 0) : Type 0 where
  pub event : Event D T
  pub creator_hold_pct : D
  pub price_sol_per_token : D
  pub sol_usd_used : D

abbrev pub pump_supply_tokens : ℕ
pump_supply_tokens = 1000000000

module _ {F D T : Type 0} ⦃d : Decimal D⦄ ⦃from : FromFloat F D⦄ where
  launched_of : PumpPortalCreate F → T → D → D → D → D → Launch D T
  launched_of c at sol_usd vsol vtok hold_pct = record {
    mint = c.mint;
    launchpad = Launchpad.pump_fun;
    created_at = at;
    creator_hold_pct = hold_pct;
    mint_renounced = false;
    is_honeypot = false;
    liquidity_usd = dec 2 ⊗ vsol ⊗ sol_usd;
    on_curve = true;
    price_usd = vsol ⊘ vtok ⊗ sol_usd;
  }

  launch_of : PumpPortalCreate F → T → D → D → D → D → EnrichedLaunch D T
  unfolding launched_of
  launch_of c at sol_usd vsol vtok hold_pct = record {
    event = launch (launched_of c at sol_usd vsol vtok hold_pct);
    creator_hold_pct = hold_pct;
    price_sol_per_token = vsol ⊘ vtok;
    sol_usd_used = sol_usd;
  }

  -- `enrich_create` from the creator's first buy on
  with_buy : PumpPortalCreate F → T → D → D → D → D → Option (EnrichedLaunch D T)
  unfolding launch_of
  with_buy c at sol_usd vsol vtok buy =
      let hold_pct = buy ⊘ dec pump_supply_tokens ⊗ dec 100 in
      if lt buy (dec 0) || gt hold_pct (dec 100)
      then none
      else some (launch_of c at sol_usd vsol vtok hold_pct)

  -- `enrich_create` from its reserves on
  with_reserves : PumpPortalCreate F → T → D → D → D → Option (EnrichedLaunch D T)
  unfolding with_buy
  with_reserves c at sol_usd vsol vtok =
      if le vsol (dec 0) || le vtok (dec 0)
      then none
      else from.from_f64_retain c.initial_buy_tokens >>= with_buy c at sol_usd vsol vtok

  unfoldable pub enrich_create : PumpPortalCreate F → T → D → Option (EnrichedLaunch D T)
  unfolding with_reserves
  enrich_create c at sol_usd =
      if le sol_usd (dec 0)
      then none
      else from.from_f64_retain c.vsol_sol >>= λ vsol.
          from.from_f64_retain c.vtokens_tokens >>= with_reserves c at sol_usd vsol

  tick_of : PumpPortalTrade F → T → D → D → D → Event D T
  tick_of t at sol_usd vsol vtok = price (record {
    mint = t.mint;
    ts = at;
    price_usd = vsol ⊘ vtok ⊗ sol_usd;
    liquidity_usd = dec 2 ⊗ vsol ⊗ sol_usd;
  })

  unfoldable pub enrich_trade : PumpPortalTrade F → T → D → Option (Event D T)
  unfolding tick_of
  enrich_trade t at sol_usd =
      if le sol_usd (dec 0)
      then none
      else from.from_f64_retain t.vsol_sol >>= λ vsol.
          from.from_f64_retain t.vtokens_tokens >>= λ vtok.
          if le vsol (dec 0) || le vtok (dec 0) then none else some (tick_of t at sol_usd vsol vtok)

-- the trader in hexadecimal digits where it is base 58, else as it is
unfoldable pub creator_hex : Option (List ℕ) → Text → Text
unfolding hex
creator_hex none trader = trader
creator_hex (some b) trader = hex b

module _ {F : Type 0} where
  unfoldable pub raw_of_create : (Text → Option (List ℕ)) → PumpPortalCreate F → RawFeedEvent
  unfolding creator_hex
  raw_of_create base58 c = record {
    slot = none;
    mint = c.mint;
    kind =
        RawKind.create c.bonding_curve (creator_hex (base58 c.trader) c.trader) c.name c.symbol
          c.mayhem;
  }

  unfoldable pub raw_of_trade : PumpPortalTrade F → RawFeedEvent
  raw_of_trade t = record {
    slot = none;
    mint = t.mint;
    kind = RawKind.ws_trade t.bonding_curve t.buy;
  }

-- the tick of a token at the price and the liquidity of a launch
abbrev pub tick_at : {D T : Type 0} → Text → Event D T → Event D T
tick_at mint (launch l) = price (record {
  mint = mint;
  ts = l.created_at;
  price_usd = l.price_usd;
  liquidity_usd = l.liquidity_usd;
})
tick_at mint (price p) = price p

-- What is emitted for a create: its token, at a rate above zero and at reserves above zero, with
-- a first buy of its creator that is not below zero and not above the whole supply.
pub record IsLaunchOf {F D T : Type 0} ⦃d : Decimal D⦄ ⦃from : FromFloat F D⦄
    (c : PumpPortalCreate F) (at : T) (sol_usd : D) (en : EnrichedLaunch D T) : Type 0 where
  launched : Launch D T
  vsol : D
  vtok : D
  bought : D
  is_event : en.event ≡ launch launched
  same_mint : launched.mint ≡ c.mint
  same_time : launched.created_at ≡ at
  is_vsol : from.from_f64_retain c.vsol_sol ≡ some vsol
  is_vtok : from.from_f64_retain c.vtokens_tokens ≡ some vtok
  is_bought : from.from_f64_retain c.initial_buy_tokens ≡ some bought
  pos_vsol : lt (dec 0) vsol ≡ true
  pos_vtok : lt (dec 0) vtok ≡ true
  pos_rate : lt (dec 0) sol_usd ≡ true
  bought_nonneg : le (dec 0) bought ≡ true
  is_price : launched.price_usd ≡ vsol ⊘ vtok ⊗ sol_usd
  is_share : launched.creator_hold_pct ≡ bought ⊘ dec pump_supply_tokens ⊗ dec 100
  share_le : le launched.creator_hold_pct (dec 100) ≡ true

module _ {F D T : Type 0} ⦃d : Decimal D⦄ ⦃from : FromFloat F D⦄ where
  -- A trade with the reserves of a create that is enriched gives, at the same time and rate, the
  -- tick of its own token with the launch's price and liquidity.
  pub enrich_trade-enrich_create :
      (c : PumpPortalCreate F) (t : PumpPortalTrade F) (at : T) (sol_usd : D)
      (en : EnrichedLaunch D T)
      → t.vsol_sol ≡ c.vsol_sol
      → t.vtokens_tokens ≡ c.vtokens_tokens
      → enrich_create c at sol_usd ≡ some en
      → enrich_trade t at sol_usd ≡ some (tick_at t.mint en.event)
  unfolding enrich_create enrich_trade
  enrich_trade-enrich_create c t at sol_usd en same_sol same_tokens h = ground arith

  enrich_create-reserves :
      (c : PumpPortalCreate F) (at : T) (sol_usd : D) (en : EnrichedLaunch D T)
      → enrich_create c at sol_usd ≡ some en
      → (lt (dec 0) sol_usd ≡ true)
        × ((from.from_f64_retain c.vsol_sol >>= λ vsol.
              from.from_f64_retain c.vtokens_tokens >>= with_reserves c at sol_usd vsol)
            ≡ some en)
  unfolding enrich_create
  enrich_create-reserves c at sol_usd en h = (ground arith, ground arith)

  with_reserves-buy :
      (c : PumpPortalCreate F) (at : T) (sol_usd vsol vtok : D) (en : EnrichedLaunch D T)
      → with_reserves c at sol_usd vsol vtok ≡ some en
      → (lt (dec 0) vsol ≡ true)
        × (lt (dec 0) vtok ≡ true)
        × ((from.from_f64_retain c.initial_buy_tokens >>= with_buy c at sol_usd vsol vtok)
            ≡ some en)
  unfolding with_reserves
  with_reserves-buy c at sol_usd vsol vtok en h = (ground arith, ground arith, ground arith)

  with_buy-launch :
      (c : PumpPortalCreate F) (at : T) (sol_usd vsol vtok buy : D) (en : EnrichedLaunch D T)
      → with_buy c at sol_usd vsol vtok buy ≡ some en
      → (le (dec 0) buy ≡ true)
        × (le (buy ⊘ dec pump_supply_tokens ⊗ dec 100) (dec 100) ≡ true)
        × (launch_of c at sol_usd vsol vtok (buy ⊘ dec pump_supply_tokens ⊗ dec 100) ≡ en)
  unfolding with_buy
  with_buy-launch c at sol_usd vsol vtok buy en h = (ground arith, ground arith, ground arith)

  -- Where a create is enriched, the rate and both reserves are above zero, the creator's first buy
  -- is not below zero, its share of the supply is at most 100 per cent, and the launch carries the
  -- create's token, that share, and the price of the reserves at the rate.
  pub enrich_create-IsLaunchOf :
      (c : PumpPortalCreate F) (at : T) (sol_usd : D) (en : EnrichedLaunch D T)
      → enrich_create c at sol_usd ≡ some en
      → IsLaunchOf c at sol_usd en
  unfolding launch_of
  enrich_create-IsLaunchOf c at sol_usd en h =
      let (pos_rate, with_rate) = enrich_create-reserves c at sol_usd en h in
      let (vsol, is_vsol, with_vsol) = bind-some (from.from_f64_retain c.vsol_sol) _ en with_rate in
      let (vtok, is_vtok, with_vtok) =
        bind-some (from.from_f64_retain c.vtokens_tokens) _ en with_vsol in
      let (pos_vsol, pos_vtok, with_both) = with_reserves-buy c at sol_usd vsol vtok en with_vtok in
      let (bought, is_bought, with_bought) =
        bind-some (from.from_f64_retain c.initial_buy_tokens) _ en with_both in
      let (bought_nonneg, share_le, is_en) =
        with_buy-launch c at sol_usd vsol vtok bought en with_bought in
      record {
        launched = launched_of c at sol_usd vsol vtok (bought ⊘ dec pump_supply_tokens ⊗ dec 100);
        vsol = vsol;
        vtok = vtok;
        bought = bought;
        is_event = sym (ap (λ e. e.event) is_en);
        same_mint = refl;
        same_time = refl;
        is_vsol = is_vsol;
        is_vtok = is_vtok;
        is_bought = is_bought;
        pos_vsol = pos_vsol;
        pos_vtok = pos_vtok;
        pos_rate = pos_rate;
        bought_nonneg = bought_nonneg;
        is_price = refl;
        is_share = refl;
        share_le = share_le;
      }
