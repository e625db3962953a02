-- ===== src/WsFeed/Extract.antt =====
-- What a create and a trade are read from (src/wsfeed.rs): `extract_create` and `extract_trade`.
use hfmcbot.Prelude.{
  Bool, true, false, not, ◌&&◌, ◌||◌, List, [], ◌∷◌, Option, none, some, if◌then◌else◌,
}
use hfmcbot.Prelude.Text.{Text, bytes, text_eq}
use hfmcbot.Platform.Floats.{Floats}
use hfmcbot.Platform.Json.{Json, Fields, ◌>>=◌, get_field, as_object, as_str}
use hfmcbot.WsFeed.Wire.{
  PumpPortalCreate, PumpPortalTrade, unwrap_or, or_else, is_empty, num_flex, first_of, first_str,
  bool_flex,
}

abbrev vtokens_aliases : List Text
vtokens_aliases = bytes "vTokensInBondingCurve" ∷ bytes "vTokens" ∷ bytes "v_tokens" ∷ []

abbrev vsol_aliases : List Text
vsol_aliases = bytes "vSolInBondingCurve" ∷ bytes "vSol" ∷ bytes "v_sol" ∷ []

abbrev signature_aliases : List Text
signature_aliases = bytes "signature" ∷ bytes "txSignature" ∷ []

abbrev trader_aliases : List Text
trader_aliases = bytes "traderPublicKey" ∷ bytes "creator" ∷ bytes "trader" ∷ []

abbrev curve_aliases : List Text
curve_aliases = bytes "bondingCurveKey" ∷ bytes "bonding_curve" ∷ bytes "bondingCurve" ∷ []

-- the check of a create on its `txType`
unfoldable pub is_create_type : Option Text → Bool
is_create_type none = true
is_create_type (some tx) = text_eq tx (bytes "create")

-- the side of a trade
unfoldable pub side_of : Option Text → Option Bool
side_of none = none
side_of (some tx) =
    if text_eq tx (bytes "buy")
    then some true
    else if text_eq tx (bytes "sell")
    then some false
    else none

module _ {F : Type 0} where
  -- `obj.get("txType").and_then(|t| t.as_str())`
  unfoldable pub tx_type : Fields F → Option Text
  tx_type fields = get_field fields (bytes "txType") >>= as_str

  -- the text under the first alias that has one, or the empty text
  unfoldable pub text_or_empty : Fields F → List Text → Text
  text_or_empty fields aliases = unwrap_or [] (first_str fields aliases)

  unfoldable pub mayhem : Fields F → Bool
  mayhem fields = unwrap_or false (
      or_else
        (or_else (get_field fields (bytes "is_mayhem_mode"))
          (get_field fields (bytes "mayhem_mode")))
        (get_field fields (bytes "mayhem"))
      >>= bool_flex)

module _ {F : Type 0} ⦃floats : Floats F⦄ where
  -- `first_num`
  unfoldable pub first_num : Fields F → List Text → Option F
  unfolding first_of num_flex
  first_num = first_of num_flex

  unfoldable pub num_or_zero : Fields F → List Text → F
  unfolding first_num
  num_or_zero fields aliases = unwrap_or (floats.of_u64 0) (first_num fields aliases)

  -- the reserves are finite and above zero
  unfoldable pub are_reserves : F → F → Bool
  are_reserves vtokens vsol =
      floats.is_finite vtokens
      && floats.is_finite vsol
      && not (floats.le_zero vtokens)
      && not (floats.le_zero vsol)

  -- a first buy that is finite and not below zero
  unfoldable pub is_first_buy : F → Bool
  is_first_buy x = floats.is_finite x && not (floats.lt_zero x)

  unfoldable pub create_of : Fields F → Text → F → F → F → PumpPortalCreate F
  unfolding text_or_empty num_or_zero mayhem
  create_of fields mint vtokens vsol initial_buy = record {
    mint = mint;
    signature = text_or_empty fields signature_aliases;
    trader = text_or_empty fields trader_aliases;
    bonding_curve = text_or_empty fields curve_aliases;
    vtokens_tokens = vtokens;
    vsol_sol = vsol;
    initial_buy_tokens = initial_buy;
    sol_amount = num_or_zero fields (bytes "solAmount" ∷ bytes "sol_amount" ∷ []);
    market_cap_sol = num_or_zero fields (bytes "marketCapSol" ∷ bytes "market_cap_sol" ∷ []);
    name = text_or_empty fields (bytes "name" ∷ []);
    symbol = text_or_empty fields (bytes "symbol" ∷ []);
    uri = text_or_empty fields (bytes "uri" ∷ []);
    pool = text_or_empty fields (bytes "pool" ∷ []);
    mayhem = mayhem fields;
  }

  unfoldable pub trade_of : Fields F → Text → Bool → F → F → PumpPortalTrade F
  unfolding text_or_empty num_or_zero
  trade_of fields mint buy vtokens vsol = record {
    mint = mint;
    signature = text_or_empty fields signature_aliases;
    trader = text_or_empty fields trader_aliases;
    bonding_curve = text_or_empty fields curve_aliases;
    buy = buy;
    vtokens_tokens = vtokens;
    vsol_sol = vsol;
    sol_amount = num_or_zero fields (bytes "solAmount" ∷ bytes "sol_amount" ∷ []);
    market_cap_sol = num_or_zero fields (bytes "marketCapSol" ∷ bytes "market_cap_sol" ∷ []);
  }

  -- `extract_create` from its reserves on
  unfoldable pub create_rest : Fields F → Text → Option (PumpPortalCreate F)
  unfolding first_num num_or_zero are_reserves is_first_buy create_of
  create_rest fields mint = first_num fields vtokens_aliases >>= λ vtokens.
      first_num fields vsol_aliases >>= λ vsol.
      let initial_buy = num_or_zero fields (bytes "initialBuy" ∷ bytes "initial_buy" ∷ []) in
      if are_reserves vtokens vsol && is_first_buy initial_buy
      then some (create_of fields mint vtokens vsol initial_buy)
      else none

  unfoldable pub extract_create_fields : Fields F → Option (PumpPortalCreate F)
  unfolding tx_type first_of is_create_type is_empty create_rest
  extract_create_fields fields = first_str fields (bytes "mint" ∷ []) >>= λ mint.
      if is_empty mint || not (is_create_type (tx_type fields))
      then none
      else create_rest fields mint

  unfoldable pub extract_create : Json F → Option (PumpPortalCreate F)
  unfolding extract_create_fields
  extract_create v = as_object v >>= extract_create_fields

  -- `extract_trade` from its reserves on
  unfoldable pub trade_rest : Fields F → Bool → Text → Option (PumpPortalTrade F)
  unfolding first_num are_reserves trade_of
  trade_rest fields buy mint = first_num fields vtokens_aliases >>= λ vtokens.
      first_num fields vsol_aliases >>= λ vsol.
      if are_reserves vtokens vsol then some (trade_of fields mint buy vtokens vsol) else none

  unfoldable pub extract_trade_fields : Fields F → Option (PumpPortalTrade F)
  unfolding tx_type first_of side_of is_empty trade_rest
  extract_trade_fields fields = side_of (tx_type fields) >>= λ buy.
      first_str fields (bytes "mint" ∷ []) >>= λ mint.
      if is_empty mint then none else trade_rest fields buy mint

  unfoldable pub extract_trade : Json F → Option (PumpPortalTrade F)
  unfolding extract_trade_fields
  extract_trade v = as_object v >>= extract_trade_fields
